-- ===== src/Protocol/MyProtocol/Stream.antt =====
-- The parse loop of `Connection::read` (src/Net/Connection.cpp) over this protocol, and what it
-- delivers from a stream that arrives in pieces.
use echo_net.Base.{
  ℕ, zero, suc, ◌<◌, ◌≡◌, refl, sym, ap, ◌∙◌, List, [], ◌∷◌, ◌++◌, arith, length, length-append,
  append_assoc, ◌⊎◌, inl, inr,
}
use echo_net.Protocol.MyProtocol.Message.{Message, encode}
use echo_net.Protocol.MyProtocol.Frames.{Outcome, incomplete, malformed, frame, spec}
use echo_net.Protocol.MyProtocol.RoundTrip.{Fits, extend, spec-encode, spec-append, spec-shorter}

-- How a round of the loop ends: it waits for more bytes, or it closes the connection.
pub data Tail : Type 0 where
  waits fails : List ℕ → Tail

abbrev pub Batch : Type 0
Batch = List Message × Tail

abbrev pub put : Message → Batch → Batch
put m (ms, t) = (m ∷ ms, t)

-- One round, by what stands at the front of the stream `q`.
abbrev pub round : Outcome → List ℕ → (List ℕ → Batch) → Batch
round incomplete q next = ([], waits q)
round (malformed r) q next = ([], fails r)
round (frame m r) q next = put m (next r)

-- The frames of a stream, in order, up to the first that is incomplete or malformed.
unfoldable pub frames : ℕ → List ℕ → Batch
frames zero q = ([], waits q)
frames (suc fuel) q = round (spec q) q (λ r. frames fuel r)

pub Outcome-cases :
    (o : Outcome)
    → (o ≡ incomplete)
      ⊎ ((r : List ℕ) × (o ≡ malformed r))
      ⊎ ((m : Message) × (r : List ℕ) × (o ≡ frame m r))
Outcome-cases incomplete = inl refl
Outcome-cases (malformed r) = inr (inl (r, refl))
Outcome-cases (frame m r) = inr (inr (m, r, refl))

-- A frame takes bytes, so fuel for each byte and one round more is enough.
pub frames-fuel : (f g : ℕ) (q : List ℕ) → length q < f → length q < g → frames f q ≡ frames g q
unfolding frames
frames-fuel zero g q h k = elim h [ ]
frames-fuel (suc f) zero q h k = elim k [ ]
frames-fuel (suc f) (suc g) q h k = elim (Outcome-cases (spec q)) [
  | inl e ↦ rw (e, frames) refl
  | inr (inl (r, e)) ↦ rw (e, frames) refl
  | inr (inr (m, r, e)) ↦
      let less = spec-shorter q m r e in
      rw (e, frames) (ap (put m) (frames-fuel f g r (omega arith) (omega arith)))
]

unfoldable pub all_frames : List ℕ → Batch
all_frames q = frames (suc (length q)) q

-- What a batch becomes when the bytes `x` arrive behind the stream that gave it.
unfoldable pub resume : Batch → List ℕ → Batch
resume (ms, waits r) x = let (more, t) = all_frames (r ++ x) in (ms ++ more, t)
resume (ms, fails r) x = (ms, fails (r ++ x))

resume-put : (m : Message) (b : Batch) (x : List ℕ) → resume (put m b) x ≡ put m (resume b x)
unfolding resume
resume-put m (ms, waits r) x = refl
resume-put m (ms, fails r) x = refl

frames-append :
    (f g : ℕ) (q x : List ℕ)
    → length (q ++ x) < f
    → length q < g
    → frames f (q ++ x) ≡ resume (frames g q) x
unfolding frames resume all_frames extend
frames-append zero g q x h k = elim h [ ]
frames-append (suc f) zero q x h k = elim k [ ]
frames-append (suc f) (suc g) q x h k = elim (Outcome-cases (spec q)) [
  | inl e ↦
      frames-fuel (suc f) (suc (length (q ++ x))) (q ++ x) h (omega arith) ∙ rw (e, frames) refl
  | inr (inl (r, e)) ↦ rw (spec-append q x (λ i. clash r (sym e ∙ i)), e, frames) refl
  | inr (inr (m, r, e)) ↦
      let less = spec-shorter q m r e in
      rw (spec-append q x (λ i. other m r (sym e ∙ i)), e, frames)
        (ap (put m) (
            frames-append f g r x (omega (arith, length-append q x, length-append r x))
              (omega arith))
          ∙ sym (resume-put m (frames g r) x))
]
  where
    clash : (r : List ℕ) → malformed r ≡ incomplete → ⊥
    clash r e = cc

    other : (m : Message) (r : List ℕ) → frame m r ≡ incomplete → ⊥
    other m r e = cc

-- The frames of a stream do not depend on where it was cut: parsing it whole is parsing the first
-- part and going on, from the bytes that were left over, when the second part arrives.
pub all_frames-append : (q x : List ℕ) → all_frames (q ++ x) ≡ resume (all_frames q) x
unfolding all_frames
all_frames-append q x =
    frames-append (suc (length (q ++ x))) (suc (length q)) q x (omega arith) (omega arith)

abbrev pub encode_all : List Message → List ℕ
encode_all [] = []
encode_all (m ∷ ms) = encode m ++ encode_all ms

abbrev pub AllFit : List Message → Type 0
AllFit [] = Unit {0}
AllFit (m ∷ ms) = Fits m × AllFit ms

frames-encode_all :
    (ms : List Message) (part : List ℕ) (f : ℕ)
    → AllFit ms
    → spec part ≡ incomplete
    → length (encode_all ms ++ part) < f
    → frames f (encode_all ms ++ part) ≡ (ms, waits part)
unfolding frames
frames-encode_all ms part zero fit e h = elim h [ ]
frames-encode_all [] part (suc f) fit e h = rw (e, frames) refl
frames-encode_all (m ∷ ms) part (suc f) fit e h =
    let whole = append_assoc (encode m) (encode_all ms) part in
    let found = spec-encode m (encode_all ms ++ part) fit.0 in
    let less = spec-shorter (encode m ++ (encode_all ms ++ part)) m (encode_all ms ++ part) found in
    rw (whole, found, frames)
      (ap (put m) (frames-encode_all ms part f fit.1 e (omega (arith, ap length whole))))

-- A stream of encoded messages that each fit into a frame, and behind them the first part of a
-- frame, gives back exactly these messages in order, and that part is kept.
pub all_frames-encode_all :
    (ms : List Message) (part : List ℕ)
    → AllFit ms
    → spec part ≡ incomplete
    → all_frames (encode_all ms ++ part) ≡ (ms, waits part)
unfolding all_frames
all_frames-encode_all ms part fit e =
    frames-encode_all ms part (suc (length (encode_all ms ++ part))) fit e (omega arith)
