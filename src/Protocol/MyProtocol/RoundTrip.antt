-- ===== src/Protocol/MyProtocol/RoundTrip.antt =====
-- Encoding and parsing are inverse, and a stream may be cut anywhere.
use echo_net.Base.{
  ℕ, ◌+◌, ◌-◌, ◌%◌, ◌^◌, ◌≤◌, ◌<◌, ◌≡◌, refl, sym, ap, ◌∙◌, List, [], ◌++◌, Option, some, none,
  arith, length, take, drop, ltb, Bool-cases, inl, inr, length-take, length-drop, length-append,
  take_prefix, drop_prefix, take-append_le, take-take_le, append-nil, ◌≢◌, false, true,
  drop-append_le,
}
use echo_net.Protocol.MyProtocol.Bytes.{be, bytes_16, bytes_32, be-bytes_16, be-bytes_32}
use echo_net.Protocol.MyProtocol.Message.{
  Message, MyType, type_code, cast_type, is_valid_msg_type, max_body_size, encode_message, encode,
  cast_type-type_code, type_code-lt,
}
use echo_net.Protocol.MyProtocol.Frames.{
  Outcome, incomplete, malformed, frame, typed, body_length, checked, spec, at_least,
}

-- What fits into a frame that a peer accepts.
pub record Fits (m : Message) : Type 0 where
  pub small : length m.payload + 6 ≤ max_body_size
  pub word : m.id < 2 ^ 32
  pub known : is_valid_msg_type (type_code m.type) ≡ true

pub length-encode : (m : Message) → length (encode m) ≡ 10 + length m.payload
unfolding encode encode_message bytes_16 bytes_32
length-encode m = omega arith

body_length-encode :
    (m : Message) (rest : List ℕ) → Fits m → body_length (encode m ++ rest) ≡ 6 + length m.payload
unfolding encode encode_message bytes_32
body_length-encode m rest f =
    be-bytes_32 ((6 + length m.payload) % 2 ^ 32) (omega arith) ∙ omega (arith, f.small)

code-encode :
    (m : Message) (rest : List ℕ) → be (take 2 (drop 4 (encode m ++ rest))) ≡ type_code m.type
unfolding encode encode_message bytes_32 bytes_16
code-encode m rest = be-bytes_16 (type_code m.type) (type_code-lt m.type)

id-encode : (m : Message) (rest : List ℕ) → Fits m → be (take 4 (drop 6 (encode m ++ rest))) ≡ m.id
unfolding encode encode_message bytes_32 bytes_16
id-encode m rest f = be-bytes_32 m.id f.word

payload-encode :
    (m : Message) (rest : List ℕ)
    → take (6 + length m.payload - 6) (drop 10 (encode m ++ rest)) ≡ m.payload
unfolding encode encode_message bytes_32 bytes_16
payload-encode m rest = take_prefix (6 + length m.payload - 6) m.payload rest (omega arith)

-- Parsing what the encoder wrote, with any bytes behind it, gives the message back and leaves
-- exactly those bytes, if the type is one of the protocol, the
-- payload fits into the largest body and the id into 32 bits.
pub spec-encode : (m : Message) (rest : List ℕ) → Fits m → spec (encode m ++ rest) ≡ frame m rest
unfolding spec checked typed
spec-encode m rest f =
    rw
      (
        body_length-encode m rest f,
        code-encode m rest,
        id-encode m rest f,
        payload-encode m rest,
        cast_type-type_code m.type f.known,
        drop_prefix (4 + (6 + length m.payload)) (encode m) rest (omega (arith, length-encode m)),
      )
      (ground (arith, f.small, length-append (encode m) rest, length-encode m))

body_length-cut :
    (m : Message) (k : ℕ) → Fits m → 4 ≤ k → body_length (take k (encode m)) ≡ 6 + length m.payload
body_length-cut m k f h =
    ap be (take-take_le 4 k (encode m) h ∙ ap (take 4) (sym (append-nil (encode m))))
    ∙ body_length-encode m [] f

-- A proper part of a frame is never taken for a frame, nor for an error.
pub spec-take-encode :
    (m : Message) (k : ℕ)
    → Fits m
    → k < 10 + length m.payload
    → spec (take k (encode m)) ≡ incomplete
unfolding spec checked
spec-take-encode m k f h = elim (Bool-cases (ltb (length (take k (encode m))) 4)) [
  | inl e ↦ rw e
  | inr e ↦
      rw
        (
          e,
          body_length-cut m k f
              (omega (arith, at_least (length (take k (encode m))) 4 e, length-take k (encode m))),
        )
        (ground (arith, f.small, length-take k (encode m), length-encode m))
]

slice-append :
    (i n : ℕ) (q x : List ℕ) → i + n ≤ length q → take n (drop i (q ++ x)) ≡ take n (drop i q)
slice-append i n q x h =
    ap (take n) (drop-append_le i q x (omega arith))
    ∙ take-append_le n (drop i q) x (omega (arith, length-drop i q))

-- An outcome, with the bytes `x` behind those that stay.
unfoldable pub extend : Outcome → List ℕ → Outcome
extend incomplete x = incomplete
extend (malformed r) x = malformed (r ++ x)
extend (frame m r) x = frame m (r ++ x)

typed-append :
    (t : Option MyType) (id : ℕ) (p r x : List ℕ)
    → typed t id p (r ++ x) ≡ extend (typed t id p r) x
unfolding typed extend
typed-append none id p r x = refl
typed-append (some ty) id p r x = refl

longer : (n k j : ℕ) → ltb n k ≡ false → ltb (n + j) k ≡ false
longer n k j e = ground arith

checked-append :
    (q x : List ℕ) (len : ℕ)
    → checked q len ≢ incomplete
    → checked (q ++ x) len ≡ extend (checked q len) x
unfolding checked extend
checked-append q x len ne = elim (Bool-cases (ltb max_body_size len)) [
  | inl e ↦ rw e refl
  | inr small ↦ elim (Bool-cases (ltb len 6)) [
    | inl e ↦ rw (small, e) refl
    | inr low ↦ elim (Bool-cases (ltb (length q) (4 + len))) [
      | inl e ↦ absurd (ne (rw (small, low, e)))
      | inr e ↦
          let room = at_least (length q) (4 + len) e in
          let six = at_least len 6 low in
          rw
            (
              small,
              low,
              e,
              length-append q x,
              longer (length q) (4 + len) (length x) e,
              slice-append 4 2 q x (omega arith),
              slice-append 6 4 q x (omega arith),
              slice-append 10 (len - 6) q x (omega arith),
              drop-append_le (4 + len) q x room,
            )
            (typed-append _ _ _ (drop (4 + len) q) x)
    ]
  ]
]

-- What a parser has found at the front of a stream, a frame or an error, it finds there also when
-- more bytes have arrived, which then stand behind the bytes that it leaves.
pub spec-append : (q x : List ℕ) → spec q ≢ incomplete → spec (q ++ x) ≡ extend (spec q) x
unfolding spec extend
spec-append q x ne = elim (Bool-cases (ltb (length q) 4)) [
  | inl e ↦ absurd (ne (rw e))
  | inr e ↦
      rw
        (
          e,
          length-append q x,
          longer (length q) 4 (length x) e,
          ap be (slice-append 0 4 q x (omega (arith, at_least (length q) 4 e))),
        )
        (checked-append q x (body_length q) (λ h. ne (rw e h)))
]

typed-frame :
    (t : Option MyType) (id : ℕ) (p r : List ℕ) (m : Message) (s : List ℕ)
    → typed t id p r ≡ frame m s
    → s ≡ r
unfolding typed
typed-frame none id p r m s e = cc
typed-frame (some ty) id p r m s e = cc

-- A frame takes ten bytes at least.
pub spec-shorter :
    (q : List ℕ) (m : Message) (r : List ℕ) → spec q ≡ frame m r → length r + 10 ≤ length q
unfolding spec checked
spec-shorter q m r h = ground (
  arith,
  typed-frame (cast_type (be (take 2 (drop 4 q)))) (be (take 4 (drop 6 q)))
      (take (body_length q - 6) (drop 10 q)) (drop (4 + body_length q) q) m r,
  length-drop (4 + body_length q) q,
)
