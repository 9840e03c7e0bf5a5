-- ===== src/Sockets/Examples.antt =====
-- The sockets of net/SocketsOps.cpp and net/Acceptor.cpp on concrete data.
use cly_server.Base.{ℕ, true, List, [], ◌∷◌}
use cly_server.Sockets.{af_inet, SockAddr, Acceptor}

abbrev old_addr : SockAddr
old_addr = record { family = af_inet; port = []; address = [] }

abbrev loopback : List ℕ
loopback = 127 ∷ 0 ∷ 0 ∷ 1 ∷ []

abbrev port_bytes : List ℕ
port_bytes = 23 ∷ 112 ∷ []

abbrev full : Acceptor
full = record { listening = true; reading = true; has_callback = true; idle_fd = 9 }
