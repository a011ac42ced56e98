-- ===== src/Client/Frames.antt =====
-- The loop of the two functions `parsePacket`, which are alike, against the server's parser.
use echo_net.Base.{
  Bool-cases, List, Option, Text, [], ap, append_assoc, arith, drop, drop-take, false,
  if◌then◌else◌, inl, inr, length, ltb, none, refl, some, subst, suc, take, take-take_le, zero, ℕ,
  ◌%◌, ◌++◌, ◌+◌, ◌-◌, ◌<◌, ◌^◌, ◌∙◌, ◌∷◌, ◌≡◌, ◌≤◌,
}
use echo_net.Protocol.MyProtocol.Bytes.{be}
use echo_net.Protocol.MyProtocol.Message.{Message, MyType, cast_type, encode, max_body_size}
use echo_net.Protocol.MyProtocol.Frames.{
  Outcome, incomplete, malformed, frame, typed, body_length, checked, spec, at_least,
}
use echo_net.Protocol.MyProtocol.RoundTrip.{spec-encode, spec-shorter}
use echo_net.Protocol.MyProtocol.Stream.{encode_all, AllFit}

-- What stands at the front of the received bytes: a part of a frame; a frame that is too short, of
-- which more would be read than it holds; or type, id and payload, with the bytes that stay.
pub data Front : Type 0 where
  short outside : Front
  whole : Option MyType → ℕ → Text → Text → Front

-- Type, id and payload of the bytes of a frame.
unfoldable pub cut_frame : Text → Text → Front
cut_frame one_frame rest =
    whole (cast_type (be (take 2 (drop 4 one_frame)))) (be (take 4 (drop 6 one_frame)))
      (drop 10 one_frame) rest

-- One round of the loop, up to the switch. The length is not checked; the sums are of 32 bits.
unfoldable pub next_frame : Text → Front
unfolding cut_frame
next_frame recv_buf =
    let total_len = (4 + be (take 4 recv_buf)) % 2 ^ 32 in
    if ltb (length recv_buf) 4
    then short
    else if ltb (length recv_buf % 2 ^ 32) total_len
    then short
    else if ltb total_len 10
    then outside
    else cut_frame (take total_len recv_buf) (drop total_len recv_buf)

module _ {S : Type 0} (handle : Option MyType → Text → S → S) where
  abbrev pub after_front : Front → Text → S → (Text → S → Option (Text × S)) → Option (Text × S)
  after_front short recv_buf s next = some (recv_buf, s)
  after_front outside recv_buf s next = none
  after_front (whole ty id payload rest) recv_buf s next = next rest (handle ty payload s)

  -- `none` is a read outside of a frame, or too little fuel.
  unfoldable pub frame_loop : ℕ → Text → S → Option (Text × S)
  frame_loop zero recv_buf s = none
  frame_loop (suc fuel) recv_buf s =
      after_front (next_frame recv_buf) recv_buf s λ rest t. frame_loop fuel rest t

  -- Each message handled, in order.
  unfoldable pub handle_all : List Message → S → S
  handle_all [] s = s
  handle_all (m ∷ ms) s = handle_all ms (handle (some m.type) m.payload s)

-- The client finds what the server's parser would.
abbrev pub Follows : Front → Outcome → Type 0
Follows f incomplete = f ≡ short
Follows f (malformed r) = Unit {0}
Follows f (frame m r) = f ≡ whole (some m.type) m.id m.payload r

typed-Follows :
    (t : Option MyType) (id : ℕ) (p r : Text) → Follows (whole t id p r) (typed t id p r)
unfolding typed
typed-Follows none id p r = tt
typed-Follows (some ty) id p r = refl

slice-take : (i n k : ℕ) (q : Text) → i + n ≤ k → take n (drop i (take k q)) ≡ take n (drop i q)
slice-take i n k q h =
    ap (take n) (drop-take i k q) ∙ take-take_le n (k - i) (drop i q) (omega arith)

cut_frame-Follows :
    (q : Text) (len : ℕ)
    → 6 ≤ len
    → Follows (cut_frame (take (4 + len) q) (drop (4 + len) q)) (
        typed
          (cast_type (be (take 2 (drop 4 q))))
          (be (take 4 (drop 6 q)))
          (take (len - 6) (drop 10 q))
          (drop (4 + len) q))
unfolding cut_frame
cut_frame-Follows q len h =
    rw
      (
        slice-take 4 2 (4 + len) q (omega arith),
        slice-take 6 4 (4 + len) q (omega arith),
        drop-take 10 (4 + len) q ∙ ap (λ k. take k (drop 10 q)) (shift len),
      )
      (typed-Follows _ _ _ _)
  where
    shift : (n : ℕ) → 4 + n - 10 ≡ n - 6
    shift n = omega arith

-- The rest of a round, after the length field was read.
checked-Follows :
    (q : Text) (len : ℕ)
    → length q < 2 ^ 32
    → Follows
        (if ltb (length q % 2 ^ 32) ((4 + len) % 2 ^ 32)
          then short
          else if ltb ((4 + len) % 2 ^ 32) 10
          then outside
          else cut_frame (take ((4 + len) % 2 ^ 32) q) (drop ((4 + len) % 2 ^ 32) q))
        (checked q len)
unfolding checked
checked-Follows q len h = elim (Bool-cases (ltb max_body_size len)) [
  | inl e ↦ rw e tt
  | inr small ↦ elim (Bool-cases (ltb len 6)) [
    | inl e ↦ rw (small, e) tt
    | inr low ↦
        let total = no_wrap len (at_least max_body_size len small) in
        let size = fits (length q) h in
        elim (Bool-cases (ltb (length q) (4 + len))) [
          | inl e ↦ rw (small, low, total, size, e) refl
          | inr e ↦
              rw (small, low, total, size, e, ten len (at_least len 6 low))
                (cut_frame-Follows q len (at_least len 6 low))
        ]
  ]
]
  where
    no_wrap : (n : ℕ) → n ≤ max_body_size → (4 + n) % 2 ^ 32 ≡ 4 + n
    no_wrap n h = omega arith

    fits : (n : ℕ) → n < 2 ^ 32 → n % 2 ^ 32 ≡ n
    fits n h = omega arith

    ten : (n : ℕ) → 6 ≤ n → ltb (4 + n) 10 ≡ false
    ten n h = ground arith

pub next_frame-Follows : (q : Text) → length q < 2 ^ 32 → Follows (next_frame q) (spec q)
unfolding next_frame spec
next_frame-Follows q h = elim (Bool-cases (ltb (length q) 4)) [
  | inl e ↦ rw e refl
  | inr e ↦ rw e (checked-Follows q (body_length q) h)
]

module _ {S : Type 0} (handle : Option MyType → Text → S → S) where
  -- The loop on a stream of encoded messages and a part of one more.
  pub frame_loop-encode_all :
      (ms : List Message) (part : Text) (fuel : ℕ) (s : S)
      → AllFit ms
      → spec part ≡ incomplete
      → length (encode_all ms ++ part) < fuel
      → length (encode_all ms ++ part) < 2 ^ 32
      → frame_loop handle fuel (encode_all ms ++ part) s ≡ some (part, handle_all handle ms s)
  unfolding frame_loop handle_all
  frame_loop-encode_all ms part zero s fit e h k = absurd (omega arith)
  frame_loop-encode_all [] part (suc fuel) s fit e h k =
      rw (subst (Follows (next_frame part)) e (next_frame-Follows part k)) refl
  frame_loop-encode_all (m ∷ ms) part (suc fuel) s fit e h k =
      let stream = encode_all ms ++ part in
      let split = append_assoc (encode m) (encode_all ms) part in
      let found = spec-encode m stream fit.0 in
      let less = spec-shorter (encode m ++ stream) m stream found in
      let size = ap length split in
      let front =
        subst (Follows (next_frame (encode m ++ stream))) found
          (next_frame-Follows (encode m ++ stream) (omega arith)) in
      rw (split, front)
        (frame_loop-encode_all ms part fuel (handle (some m.type) m.payload s) fit.1 e (omega arith)
          (omega arith))
