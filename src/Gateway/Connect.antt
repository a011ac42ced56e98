-- ===== src/Gateway/Connect.antt =====
-- The connections that the gateway makes to the backends of the registry, at its start and in its
-- monitor (src/gateway_main.cpp), and what becomes of their descriptors.
use echo_net.Base.{
  ℕ, ◌+◌, ◌≡◌, refl, ap, List, [], ◌∷◌, ◌++◌, Bool, true, false, ◌&&◌, Option, none, some, Text,
  arith,
}
use echo_net.Base.Counts.{count, count-append}
use echo_net.Net.Socket.{
  Answers, Socket, new_socket, m_connect, release, close, close_fd, m_init, is_open, wait_connected,
}
use echo_net.Gateway.State.{Gateway, Backend}
use echo_net.Gateway.Threads.{add_backend}

-- An instance of the registry, the number of its connection, and the kernel's answers.
pub record Instance : Type 0 where
  pub address : Text
  pub conn : ℕ
  pub answers : Answers

unfoldable pub register : Instance → Option ℕ → Gateway → Gateway
unfolding add_backend
register i none g = g
register i (some fd) g = add_backend g i.address i.conn fd

-- The rest of a round, after `m_connect`: the descriptors that the destructor of the socket closes, and
-- the gateway.
unfoldable pub after_connect : Instance → Bool × Socket → Gateway → List ℕ × Gateway
unfolding release close register
after_connect i (true, sock) g =
    let (fd, empty) = release sock in ((close empty).0, register i fd g)
after_connect i (false, sock) g = ((close sock).0, g)

-- One round of the loop.
unfoldable pub connect_backend : Instance → Gateway → List ℕ × Gateway
unfolding m_connect after_connect new_socket
connect_backend i g = after_connect i (m_connect i.answers new_socket) g

-- The loop over the instances.
unfoldable pub connect_backends : List Instance → Gateway → List ℕ × Gateway
unfolding connect_backend
connect_backends [] g = ([], g)
connect_backends (i ∷ is) g =
    let (closed, h) = connect_backend i g in
    let (more, k) = connect_backends is h in (closed ++ more, k)

abbrev pub fds : List Backend → List ℕ
fds [] = []
fds (b ∷ bs) = b.fd ∷ fds bs

-- The descriptors that the kernel opened.
unfoldable pub opened : List Instance → List ℕ
unfolding close_fd
opened [] = []
opened (i ∷ is) = close_fd i.answers.socket ++ opened is

count-join : (k : ℕ) (xs ys : List ℕ) → count k (xs ++ ys) ≡ count k xs + count k ys
unfolding count
count-join k [] ys = omega arith
count-join k (x ∷ xs) ys = omega (arith, count-join k xs ys)

fds-append : (bs : List Backend) (b : Backend) → fds (bs ++ b ∷ []) ≡ fds bs ++ b.fd ∷ []
fds-append [] b = refl
fds-append (c ∷ bs) b = ap (◌∷◌ c.fd) (fds-append bs b)

abbrev Balanced : ℕ → List ℕ → Gateway → List ℕ × Gateway → Type 0
Balanced k new g (closed, h) =
    count k closed + count k (fds h.backends) ≡ count k new + count k (fds g.backends)

after_connect-Balanced :
    (k : ℕ) (i : Instance) (made : Bool) (o : Option ℕ) (g : Gateway)
    → Balanced k (close_fd o) g (after_connect i (made, record { fd = o }) g)
unfolding after_connect release close close_fd register add_backend count
after_connect-Balanced k i false o g = refl
after_connect-Balanced k i true none g = refl
after_connect-Balanced k i true (some fd) g =
    let b : Backend = record {
      addr = i.address;
      conn = i.conn;
      fd = fd;
      last_pong_ms = 0;
      healthy = true;
      request_count = 0;
    } in
    omega (arith, ap (count k) (fds-append g.backends b), count-append k (fds g.backends) fd)

connect_backend-Balanced :
    (k : ℕ) (i : Instance) (g : Gateway)
    → Balanced k (close_fd i.answers.socket) g (connect_backend i g)
unfolding connect_backend m_connect m_init new_socket
connect_backend-Balanced k i g =
    after_connect-Balanced k i
      (is_open i.answers.socket
        && i.answers.address
        && wait_connected i.answers i.answers.connecting)
      i.answers.socket g

-- Whatever the kernel answers, no descriptor is lost or kept twice when the gateway connects to the
-- backends of the registry: of each descriptor, those closed and those of the backends are together
-- those that the kernel opened and those of the backends before.
pub descriptors_kept :
    (k : ℕ) (is : List Instance) (g : Gateway)
    → count k (connect_backends is g).0 + count k (fds (connect_backends is g).1.backends)
      ≡ count k (opened is) + count k (fds g.backends)
unfolding connect_backends opened count
descriptors_kept k [] g = refl
descriptors_kept k (i ∷ is) g = omega (
  arith,
  connect_backend-Balanced k i g,
  descriptors_kept k is (connect_backend i g).1,
  count-join k (connect_backend i g).0 (connect_backends is (connect_backend i g).1).0,
  count-join k (close_fd i.answers.socket) (opened is),
)
