-- ===== src/Sockets/Accepting.antt =====
-- What net/Acceptor.cpp does when its socket is readable, and the server behind it.
use cly_server.Base.{
  ℕ, ◌≡◌, refl, ap, true, not, assert, none, [], ◌∷◌, Result, ok, fault, aborted, ◌>>=◌, ◌>>◌,
}
use cly_server.Logger.{level_of, level_to_abort, log_syserr}
use cly_server.Sockets.{
  Answer, gives, fails, end_message, message, accept_error, accept, Acceptor, new_connection,
  after_accept, errno_of, handle_read, or_message, create_nonblocking_or_die, bind_or_die,
  listen_or_die, new_acceptor, listen, set_new_connection_callback,
}

syserr-aborts : message log_syserr ≡ fault aborted
unfolding message end_message level_of level_to_abort
syserr-aborts = refl

accept-aborts : (errno : ℕ) → accept (fails errno) ≡ fault aborted
unfolding accept
accept-aborts errno = ap (λ m. m >> (accept_error errno >> ok none)) syserr-aborts

-- Where accept(2) fails, with any error, the message about it ends the process: neither the errors
-- that are meant to pass nor the branch for a full descriptor table are reached.
pub handle_read-aborts :
    (a : Acceptor) (errno accepted reopened : ℕ)
    → handle_read a (fails errno) accepted reopened ≡ fault aborted
unfolding handle_read
handle_read-aborts a errno accepted reopened =
    ap (λ r. r >>= λ c. after_accept a c (errno_of (fails errno)) accepted reopened)
      (accept-aborts errno)

-- `TcpServer::start`, on the acceptor that the constructor has set a callback of.
unfoldable pub start_accepting : Acceptor → Answer (Unit {0}) → Result Acceptor
start_accepting a listened = assert (not a.listening) >> listen a listened

-- An acceptor from its construction by a server to the server's start.
unfoldable pub started_acceptor :
    Answer ℕ → Answer (Unit {0}) → Answer (Unit {0}) → ℕ → Result Acceptor
started_acceptor socket bound listened garbage = new_acceptor socket bound garbage >>= λ a.
    start_accepting (set_new_connection_callback a) listened

pub data Started (connfd accepted reopened : ℕ)
    : Answer ℕ → Answer (Unit {0}) → Answer (Unit {0}) → Result Acceptor → Type 0 where
  listens :
      {a : Acceptor} (sockfd : ℕ)
      → a.listening ≡ true
      → a.reading ≡ true
      → handle_read a (gives connfd) accepted reopened ≡ ok (a, new_connection connfd ∷ [])
      → Started connfd accepted reopened (gives sockfd) (gives tt) (gives tt) (ok a)
  no_socket :
      {bound listened : Answer (Unit {0})} (errno : ℕ)
      → Started connfd accepted reopened (fails errno) bound listened (fault aborted)
  not_bound :
      {listened : Answer (Unit {0})} (sockfd errno : ℕ)
      → Started connfd accepted reopened (gives sockfd) (fails errno) listened (fault aborted)
  not_listening :
      (sockfd errno : ℕ)
      → Started connfd accepted reopened (gives sockfd) (gives tt) (fails errno) (fault aborted)

-- An acceptor whose socket could be made, bound and set to listen, listens with its channel reading
-- and hands each connection over to its callback, unchanged itself; where one of the three fails,
-- the process aborts.
pub started_acceptor-Started :
    (socket : Answer ℕ) (bound listened : Answer (Unit {0})) (garbage connfd accepted reopened : ℕ)
    → Started connfd accepted reopened socket bound listened
        (started_acceptor socket bound listened garbage)
unfolding started_acceptor start_accepting new_acceptor create_nonblocking_or_die bind_or_die
    listen_or_die or_message listen set_new_connection_callback handle_read after_accept accept
    message end_message level_of level_to_abort
started_acceptor-Started (fails errno) bound listened garbage connfd accepted reopened =
    no_socket errno
started_acceptor-Started (gives sockfd) (fails errno) listened garbage connfd accepted reopened =
    not_bound sockfd errno
started_acceptor-Started (gives sockfd) (gives u) (fails errno) garbage connfd accepted reopened =
    not_listening sockfd errno
started_acceptor-Started (gives sockfd) (gives u) (gives v) garbage connfd accepted reopened =
    listens sockfd refl refl refl
