-- ===== src/Net/Buffer/Queue.antt =====
-- The buffer against its specification: a queue of bytes.
use mathlib.Core.Option
use echo_net.Base.{
  ℕ, ◌≡◌, refl, sym, ap, List, [], ◌∷◌, ◌++◌, Option, some, none, length, drop, Bool-cases, inl,
  inr, leb, leb→le, if◌then◌else◌,
}
use echo_net.Net.Buffer.{Buffer, readable, enable_write, buffer_append, move_read_ptr}
use echo_net.Net.Buffer.Bounds.{
  IsValid, enable_write-IsValid, buffer_append-IsValid, advance-IsValid,
}
use echo_net.Net.Buffer.Contents.{
  contents, length-contents, contents-enable_write, contents-buffer_append, contents-advance,
}

-- The calls of a client of the buffer.
pub data Op : Type 0 where
  append : List ℕ → Op
  reserve : ℕ → Op
  consume : ℕ → Op

-- `none` is a failed assertion.
unfoldable pub step : Buffer → Op → Option Buffer
step b (append msg) = some (buffer_append b msg)
step b (reserve n) = some (enable_write b n)
step b (consume n) = move_read_ptr b n

unfoldable pub run : Buffer → List Op → Option Buffer
run b [] = some b
run b (o ∷ os) = Option.bind (step b o) (λ c. run c os)

-- The same calls on the queue of unread bytes.
unfoldable pub spec_step : List ℕ → Op → Option (List ℕ)
spec_step q (append msg) = some (q ++ msg)
spec_step q (reserve n) = some q
spec_step q (consume n) = if leb n (length q) then some (drop n q) else none

unfoldable pub spec_run : List ℕ → List Op → Option (List ℕ)
spec_run q [] = some q
spec_run q (o ∷ os) = Option.bind (spec_step q o) (λ r. spec_run r os)

-- One call: both fail, or both succeed and the buffer holds the queue of the specification.
abbrev pub Agrees : Option Buffer → Option (List ℕ) → Type 0
Agrees (some b) r = IsValid b × (r ≡ some (contents b))
Agrees none r = r ≡ none

step-Agrees : (b : Buffer) (o : Op) → IsValid b → Agrees (step b o) (spec_step (contents b) o)
unfolding step spec_step move_read_ptr readable
step-Agrees b (append msg) v =
    (buffer_append-IsValid b msg v, ap some (sym (contents-buffer_append b msg v)))
step-Agrees b (reserve n) v =
    (enable_write-IsValid b n v, ap some (sym (contents-enable_write b n v)))
step-Agrees b (consume n) v = elim (Bool-cases (leb n (readable b))) [
  | inl e ↦
      rw (e, length-contents b v, e)
        (
          advance-IsValid b n v (leb→le _ _ e),
          ap some (sym (contents-advance b n v (leb→le _ _ e))),
        )
  | inr e ↦ rw (e, length-contents b v, e)
]

bind-Agrees :
    (os : List Op) (r : Option Buffer) (q : Option (List ℕ))
    → ((c : Buffer) → IsValid c → Agrees (run c os) (spec_run (contents c) os))
    → Agrees r q
    → Agrees (Option.bind r (λ c. run c os)) (Option.bind q (λ c. spec_run c os))
unfolding Option.bind
bind-Agrees os none q rest e = rw e refl
bind-Agrees os (some c) q rest (w, e) = rw e (rest c w)

-- Any sequence of appends, reservations and reads on a well-formed buffer fails exactly where the
-- byte queue of its contents does, and otherwise leaves a well-formed buffer that holds the bytes
-- which the queue holds then.
pub run_refines :
    (os : List Op) (b : Buffer) → IsValid b → Agrees (run b os) (spec_run (contents b) os)
unfolding run spec_run
run_refines [] b v = (v, refl)
run_refines (o ∷ os) b v =
    bind-Agrees os (step b o) (spec_step (contents b) o) (run_refines os) (step-Agrees b o v)
