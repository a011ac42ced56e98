-- ===== src/Reactor/Acceptor.antt =====
-- src/Reactor/Acceptor.cpp: the loop that accepts connections until the kernel has no more.
use echo_net.Base.{ℕ, List, [], ◌∷◌, Bool, if◌then◌else◌, Option, none, some, ◌>>=◌}

-- What `accept4` answers: a descriptor, that there are no more, that a signal came, or another error.
pub data Accepted : Type 0 where
  got : ℕ → Accepted
  no_more interrupted failed : Accepted

-- `handleAccept`, where `callback` tells whether one is set: the descriptors that it is given. `none`
-- is a loop that goes on when the answers are used up.
unfoldable pub handle_accept : Bool → List Accepted → Option (List ℕ)
handle_accept callback [] = none
handle_accept callback (no_more ∷ answers) = some []
handle_accept callback (failed ∷ answers) = some []
handle_accept callback (interrupted ∷ answers) = handle_accept callback answers
handle_accept callback (got fd ∷ answers) =
    handle_accept callback answers >>= λ fds. some (if callback then fd ∷ fds else fds)
