-- ===== src/Sockets/Address.antt =====
-- The printing of an address and the test for a connection to itself of net/SocketsOps.cpp.
use native.Mathlib.Nat.{mod-eq_of_lt}
use cly_server.Base.{
  ℕ, suc, ◌+◌, ◌-◌, ◌≤◌, ◌<◌, ◌≡◌, ap, sym, ◌∙◌, Bool, true, ◌&&◌, List, [], ◌∷◌, ◌++◌, ltb, length,
  take, take_past, drop, Result, ok, assert, ◌>>=◌, ◌>>◌, codes, ◌=s=◌, =s=-eq, =s=-refl, arith,
}
use cly_server.Base.Decimal.{decimal, length-digits_onto}
use cly_server.Buffer.Network.{host_to_network, network_to_host, network_to_host-host_to_network}
use cly_server.Sockets.{
  gives, af_inet, af_inet6, to_ip, print_behind, bracket_behind, to_ip_port_by, to_ip_port,
  get_addr, is_same_end, is_self_connect,
}

length-port : (port : ℕ) → port < 65536 → length (decimal port) ≤ 5
unfolding decimal
length-port port h = omega (arith, length-digits_onto (suc port) 4 port [] (omega arith))

port-reads : (port : ℕ) → port < 65536 → network_to_host (host_to_network 2 port) ≡ port
port-reads port h = network_to_host-host_to_network 2 port ∙ mod-eq_of_lt h

print_behind-fits :
    (size : ℕ) (buf more : List ℕ)
    → length buf + length more < size
    → print_behind size buf more ≡ ok (buf ++ more)
unfolding print_behind
print_behind-fits size buf more h =
    ap (λ b. assert b >> ok (buf ++ take (size - length buf - 1) more)) room
    ∙ ap (λ t. ok (buf ++ t)) (take_past (size - length buf - 1) more (omega (arith, h)))
  where
    room : ltb (length buf) size ≡ true
    room = ground arith

to_ip-inet6 : (size : ℕ) (held ip : List ℕ) → 46 ≤ size → to_ip size held af_inet6 ip ≡ ok ip
unfolding to_ip
to_ip-inet6 size held ip h = ground arith

bracket_behind-prints :
    (size port : ℕ) (ip : List ℕ)
    → port < 65536
    → length ip + 8 < size
    → bracket_behind size (host_to_network 2 port) ip
      ≡ ok (b'[' ∷ ip ++ (codes "]:" ++ decimal port))
unfolding bracket_behind
bracket_behind-prints size port ip small fits =
    ap (λ n. print_behind size (b'[' ∷ ip) (codes "]:" ++ decimal n)) (port-reads port small)
    ∙ print_behind-fits size (b'[' ∷ ip) (codes "]:" ++ decimal port)
        (omega (arith, length-port port small, fits))

-- An address of IPv6 is printed in brackets.
pub to_ip_port-inet6 :
    (size port : ℕ) (held ip bytes : List ℕ)
    → port < 65536
    → 47 ≤ size
    → length ip + 9 ≤ size
    → to_ip_port size held
        (record { family = af_inet6; port = host_to_network 2 port; address = bytes })
        ip
      ≡ ok (b'[' ∷ ip ++ (codes "]:" ++ decimal port))
unfolding to_ip_port to_ip_port_by
to_ip_port-inet6 size port held ip bytes small fits room =
    ap (λ r. r >>= bracket_behind size (host_to_network 2 port))
      (to_ip-inet6 (size - 1) (drop 1 held) ip (omega (arith, fits)))
    ∙ bracket_behind-prints size port ip small (omega (arith, room))

both : (a b : Bool) → (a && b) ≡ true → (a ≡ true) × (b ≡ true)
both a b h = ground arith

ok-true : (a : Bool) → ◌≡◌ {A = Result Bool} (ok a) (ok true) → a ≡ true
ok-true a h = ground arith

-- `isSelfConnect` of a socket of IPv4 is true where both ends have the same port and the same
-- address, and only there.
pub is_self_connect-same :
    (p q a b : List ℕ)
    → ((p ≡ q) × (a ≡ b)
        → is_self_connect
            (gives (record { family = af_inet; port = p; address = a }))
            (gives (record { family = af_inet; port = q; address = b }))
          ≡ ok true)
      × (is_self_connect
              (gives (record { family = af_inet; port = p; address = a }))
              (gives (record { family = af_inet; port = q; address = b }))
            ≡ ok true
          → (p ≡ q) × (a ≡ b))
unfolding is_self_connect get_addr is_same_end
is_self_connect-same p q a b = (
  λ (e, e').
      ap (λ r. ok (p =s= r && a =s= b)) (sym e)
      ∙ ap (λ r. ok (p =s= p && a =s= r)) (sym e')
      ∙ ap (λ t. ok (t && a =s= a)) (=s=-refl p)
      ∙ ap ok (=s=-refl a),
  λ h.
      let (ports, addresses) = both (p =s= q) (a =s= b) (ok-true (p =s= q && a =s= b) h) in
      (=s=-eq p q ports, =s=-eq a b addresses),
)
