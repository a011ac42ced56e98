-- ===== src/Net/Socket.antt =====
-- src/Net/Socket.cpp: the owner of a descriptor, for a connection that is made from this side. What the
-- kernel answers is an input; the address, and the calls of a listening socket that only hand the
-- kernel's answer on, are left out.
use echo_net.Base.{ℕ, List, [], ◌∷◌, Bool, true, false, ◌&&◌, Option, none, some}

pub data Ip : Type 0 where
  ipv4 ipv6 : Ip

pub data Proto : Type 0 where
  tcp udp : Proto

-- `none` is the descriptor -1.
pub record Socket : Type 0 where
  pub fd : Option ℕ

-- `Socket::Socket`
unfoldable pub new_socket : Socket
new_socket = record { fd = none }

abbrev pub is_open : Option ℕ → Bool
is_open none = false
is_open (some fd) = true

-- `m_init`, with what `socket` answers; a descriptor that the object holds already is forgotten.
unfoldable pub m_init : Ip → Proto → Option ℕ → Socket → Bool × Socket
m_init ipv4 proto answer s = (is_open answer, record s { fd = answer })
m_init ipv6 proto answer s = (false, s)

-- What `connect` answers: the connection is there, `EINPROGRESS`, or another error.
pub data Connecting : Type 0 where
  connected in_progress refused : Connecting

-- The kernel's answers in `m_connect`: `writable` is a positive answer of `poll`, `no_error` one of
-- `getsockopt` with no error in it.
pub record Answers : Type 0 where
  pub socket : Option ℕ
  pub address : Bool
  pub connecting : Connecting
  pub writable : Bool
  pub no_error : Bool

-- What is left to do after `connect`.
unfoldable pub wait_connected : Answers → Connecting → Bool
wait_connected a connected = true
wait_connected a in_progress = a.writable && a.no_error
wait_connected a refused = false

-- `m_connect`: a failure leaves the descriptor to the destructor.
unfoldable pub m_connect : Answers → Socket → Bool × Socket
unfolding m_init wait_connected
m_connect a s =
    let (made, opened) = m_init ipv4 tcp a.socket s in
    (made && a.address && wait_connected a a.connecting, opened)

-- `release`
unfoldable pub release : Socket → Option ℕ × Socket
release s = (s.fd, record s { fd = none })

unfoldable pub close_fd : Option ℕ → List ℕ
close_fd none = []
close_fd (some fd) = fd ∷ []

-- `close`, and the destructor: the descriptors that are closed.
unfoldable pub close : Socket → List ℕ × Socket
unfolding close_fd
close s = (close_fd s.fd, record s { fd = none })
