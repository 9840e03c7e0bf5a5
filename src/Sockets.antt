-- ===== src/Sockets.antt =====
-- net/SocketsOps.h, net/SocketsOps.cpp, net/Socket.h, net/Socket.cpp, net/Acceptor.h and
-- net/Acceptor.cpp: sockets, and the one that accepts connections. What a system call answers is a
-- parameter: an error number, or what it gives. A setter of a socket option only calls setsockopt.
pub mod Address
pub mod Accepting
mod Examples
use cly_server.Base.{
  ℕ, ◌+◌, ◌-◌, Bool, true, false, not, ◌&&◌, ◌||◌, Option, none, some, List, [], ◌∷◌, ◌++◌, ltb,
  leb, ◌==◌, ◌=s=◌, if◌then◌else◌, length, take, drop, Result, ok, fault, aborted, assert, ◌>>=◌,
  ◌>>◌, codes,
}
use cly_server.Base.Decimal.{decimal}
use cly_server.Buffer.Network.{host_to_network, network_to_host}
use cly_server.Logger.{LogLevel, fatal, level_of, Macro, log_fatal, log_syserr, log_sysfatal}

-- `~Logger`: a message of level FATAL ends the process.
unfoldable pub end_message : LogLevel → Result (Unit {0})
end_message fatal = fault aborted
end_message _ = ok tt

unfoldable pub message : Macro → Result (Unit {0})
message m = end_message (level_of m)

-- An answer of a system call.
pub data Answer (A : Type 0) : Type 0 where
  gives : A → Answer A
  fails : ℕ → Answer A

-- Calls that must not fail: a message of the macro, and then on as if they had not.
unfoldable pub or_message : {A : Type 0} → Macro → Answer A → Result (Unit {0})
or_message m (gives a) = ok tt
or_message m (fails errno) = message m

unfoldable pub create_nonblocking_or_die : Answer ℕ → Result (Option ℕ)
create_nonblocking_or_die (gives sockfd) = ok (some sockfd)
create_nonblocking_or_die (fails errno) = message log_sysfatal >> ok none

unfoldable pub bind_or_die : Answer (Unit {0}) → Result (Unit {0})
bind_or_die answer = or_message log_sysfatal answer

unfoldable pub listen_or_die : Answer (Unit {0}) → Result (Unit {0})
listen_or_die answer = or_message log_sysfatal answer

unfoldable pub close_socket : Answer (Unit {0}) → Result (Unit {0})
close_socket answer = or_message log_syserr answer

unfoldable pub shutdown_socket : Answer (Unit {0}) → Result (Unit {0})
shutdown_socket answer = or_message log_syserr answer

unfoldable pub get_socket_error : Answer ℕ → ℕ
get_socket_error (gives optval) = optval
get_socket_error (fails errno) = errno

-- The errors of `accept` that are taken to pass: EAGAIN, ECONNABORTED, EINTR, EPROTO, EPERM, EMFILE.
unfoldable pub is_passing : ℕ → Bool
is_passing errno =
    errno == 11 || errno == 103 || errno == 4 || errno == 71 || errno == 1 || errno == 24

unfoldable pub accept_error : ℕ → Result (Unit {0})
accept_error errno = if is_passing errno then ok tt else message log_fatal

-- `sockets::accept`: a descriptor, or none for -1.
unfoldable pub accept : Answer ℕ → Result (Option ℕ)
accept (gives connfd) = ok (some connfd)
accept (fails errno) = message log_syserr >> (accept_error errno >> ok none)

pub data Family : Type 0 where
  af_inet af_inet6 af_other : Family

-- A socket address: the port as two bytes in network order, and the address as bytes, at the place
-- that the family gives it. The two ends of one socket have the same family.
pub record SockAddr : Type 0 where
  pub family : Family
  pub port : List ℕ
  pub address : List ℕ

-- `fromIpPort`, by the bytes that `inet_pton` gives; the address that was there stays where it fails.
unfoldable pub from_ip_port : SockAddr → ℕ → Answer (List ℕ) → Result SockAddr
from_ip_port addr port (gives bytes) =
    ok (record { family = af_inet; port = host_to_network 2 port; address = bytes })
from_ip_port addr port (fails errno) =
    message log_syserr
    >> ok (record { family = af_inet; port = host_to_network 2 port; address = addr.address })

-- `toIp` into a buffer of some size that holds a text, by the text that `inet_ntop` writes.
unfoldable pub to_ip : ℕ → List ℕ → Family → List ℕ → Result (List ℕ)
to_ip size held af_inet ip = assert (leb 16 size) >> ok ip
to_ip size held af_inet6 ip = assert (leb 46 size) >> ok ip
to_ip size held af_other ip = ok held

-- `snprintf` behind what the buffer holds, cut off where the buffer ends.
unfoldable pub print_behind : ℕ → List ℕ → List ℕ → Result (List ℕ)
print_behind size buf more = do
  assert (ltb (length buf) size)
  ok (buf ++ take (size - length buf - 1) more)

-- The last lines of `toIpPort`, for every family but AF_INET6.
unfoldable pub port_behind : ℕ → List ℕ → List ℕ → Result (List ℕ)
port_behind size port buf = print_behind size buf (b':' ∷ decimal (network_to_host port))

unfoldable pub bracket_behind : ℕ → List ℕ → List ℕ → Result (List ℕ)
bracket_behind size port buf =
    print_behind size (b'[' ∷ buf) (codes "]:" ++ decimal (network_to_host port))

unfoldable pub to_ip_port_by : Family → ℕ → List ℕ → List ℕ → List ℕ → Result (List ℕ)
to_ip_port_by af_inet6 size held port ip =
    to_ip (size - 1) (drop 1 held) af_inet6 ip >>= bracket_behind size port
to_ip_port_by af_inet size held port ip = to_ip size held af_inet ip >>= port_behind size port
to_ip_port_by af_other size held port ip = to_ip size held af_other ip >>= port_behind size port

-- `toIpPort`.
unfoldable pub to_ip_port : ℕ → List ℕ → SockAddr → List ℕ → Result (List ℕ)
to_ip_port size held addr ip = to_ip_port_by addr.family size held addr.port ip

-- `getLocalAddr` and `getPeerAddr`: all bytes are 0 where the call fails.
unfoldable pub get_addr : Answer SockAddr → Result SockAddr
get_addr (gives addr) = ok addr
get_addr (fails errno) =
    message log_syserr >> ok (record { family = af_other; port = []; address = [] })

unfoldable pub is_same_end : Family → SockAddr → SockAddr → Bool
is_same_end af_other laddr raddr = false
is_same_end af_inet laddr raddr = laddr.port =s= raddr.port && laddr.address =s= raddr.address
is_same_end af_inet6 laddr raddr = laddr.port =s= raddr.port && laddr.address =s= raddr.address

unfoldable pub is_self_connect : Answer SockAddr → Answer SockAddr → Result Bool
is_self_connect local peer = do
  laddr ← get_addr local
  raddr ← get_addr peer
  ok (is_same_end laddr.family laddr raddr)

-- The socket that listens. `idleFd_` is set by no constructor.
pub record Acceptor : Type 0 where
  pub listening : Bool
  pub reading : Bool
  pub has_callback : Bool
  pub idle_fd : ℕ

pub data Effect : Type 0 where
  new_connection : ℕ → Effect
  closed : ℕ → Effect
  opened_idle : Effect
  accepted_idle : Effect
  removed : Effect

unfoldable pub new_acceptor : Answer ℕ → Answer (Unit {0}) → ℕ → Result Acceptor
new_acceptor socket bound garbage = do
  sockfd ← create_nonblocking_or_die socket
  bind_or_die bound
  ok (record { listening = false; reading = false; has_callback = false; idle_fd = garbage })

unfoldable pub set_new_connection_callback : Acceptor → Acceptor
set_new_connection_callback a = record a { has_callback = true }

unfoldable pub listen : Acceptor → Answer (Unit {0}) → Result Acceptor
listen a listened = do listen_or_die listened; ok (record a { listening = true; reading = true })

-- `EMFILE`: the idle descriptor is given up for a connection that is closed at once.
unfoldable pub give_way : Acceptor → ℕ → ℕ → ℕ → Acceptor × List Effect
give_way a errno accepted reopened =
    if errno == 24
    then (
      record a { idle_fd = reopened },
      closed a.idle_fd ∷ accepted_idle ∷ closed accepted ∷ opened_idle ∷ [],
    )
    else (a, [])

-- What `handleRead` does with what `accept` returned, and `errno` after it.
unfoldable pub after_accept : Acceptor → Option ℕ → ℕ → ℕ → ℕ → Result (Acceptor × List Effect)
after_accept a (some connfd) errno accepted reopened =
    ok (a, (if a.has_callback then new_connection connfd else closed connfd) ∷ [])
after_accept a none errno accepted reopened =
    message log_syserr >> ok (give_way a errno accepted reopened)

unfoldable pub errno_of : Answer ℕ → ℕ
errno_of (gives connfd) = 0
errno_of (fails errno) = errno

unfoldable pub handle_read : Acceptor → Answer ℕ → ℕ → ℕ → Result (Acceptor × List Effect)
handle_read a answer accepted reopened =
    accept answer >>= λ connfd. after_accept a connfd (errno_of answer) accepted reopened

-- The destructor; the socket's own closes the descriptor that listens.
unfoldable pub destroy_acceptor : Acceptor → Acceptor × List Effect
destroy_acceptor a = (record a { reading = false }, removed ∷ closed a.idle_fd ∷ [])
