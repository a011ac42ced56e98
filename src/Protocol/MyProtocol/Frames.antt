-- ===== src/Protocol/MyProtocol/Frames.antt =====
-- The specification of the parser on a sequence of bytes, and the proof that the parser, with the
-- pointers of its buffer, meets it. The assertions of the buffer never fail under the parser.
use echo_net.Base.{
  ℕ, ◌+◌, ◌-◌, ◌%◌, ◌^◌, ◌≤◌, ◌≡◌, refl, sym, ap, ◌∙◌, List, [], Option, some, none, arith, length,
  take, drop, if◌then◌else◌, ltb, Bool-cases, inl, inr, length-drop, drop-drop, subst, false, zero,
  suc,
}
use echo_net.Net.Buffer.{Buffer, readable, peek, move_read_ptr, advance}
use echo_net.Net.Buffer.Bounds.{IsValid, advance-IsValid, move_read_ptr-eq}
use echo_net.Net.Buffer.Contents.{contents, length-contents, contents-advance, take-peek}
use echo_net.Protocol.{ParseResult, ok, need_more, error}
use echo_net.Protocol.MyProtocol.Bytes.{be}
use echo_net.Protocol.MyProtocol.Message.{Message, MyType, cast_type, max_body_size}
use echo_net.Protocol.MyProtocol.Parse.{MyProtocol, accept, read_frame, parse}

-- What a parser finds at the front of a stream, with the bytes that stay.
pub data Outcome : Type 0 where
  incomplete : Outcome
  malformed : List ℕ → Outcome
  frame : Message → List ℕ → Outcome

unfoldable pub typed : Option MyType → ℕ → List ℕ → List ℕ → Outcome
typed none id payload rest = malformed rest
typed (some ty) id payload rest = frame (record { type = ty; id = id; payload = payload }) rest

abbrev pub body_length : List ℕ → ℕ
body_length q = be (take 4 q)

-- The checks of a length field.
unfoldable pub checked : List ℕ → ℕ → Outcome
checked q len =
    if ltb max_body_size len
    then malformed q
    else if ltb len 6
    then malformed q
    else if ltb (length q) (4 + len)
    then incomplete
    else typed (cast_type (be (take 2 (drop 4 q)))) (be (take 4 (drop 6 q)))
        (take (len - 6) (drop 10 q)) (drop (4 + len) q)

unfoldable pub spec : List ℕ → Outcome
spec q = if ltb (length q) 4 then incomplete else checked q (body_length q)

-- The result of the parser shows what the specification says.
abbrev pub Shows :
    MyProtocol → Buffer → Option (ParseResult × MyProtocol × Buffer) → Outcome → Type 0
Shows p b r incomplete = r ≡ some (need_more, p, b)
Shows p b r (malformed rest) =
    (c : Buffer) × (r ≡ some (error, p, c)) × IsValid c × (contents c ≡ rest)
Shows p b r (frame m rest) =
    (c : Buffer) × (r ≡ some (ok, record { current = m }, c)) × IsValid c × (contents c ≡ rest)

-- A buffer that has lost its first bytes.
record After (b : Buffer) (n : ℕ) (c : Buffer) : Type 0 where
  valid : IsValid c
  left : contents c ≡ drop n (contents b)
  size : readable c ≡ readable b - n

advance-After :
    (b : Buffer) (n k : ℕ) (c : Buffer)
    → After b n c
    → n + k ≤ readable b
    → (move_read_ptr c k ≡ some (advance c k)) × After b (n + k) (advance c k)
advance-After b n k c a h = (
  move_read_ptr-eq c k (omega (arith, a.size)),
  record {
    valid = valid;
    left = left;
    size = omega (
      arith,
      sym (length-contents (advance c k) valid),
      ap length left,
      length-drop (n + k) (contents b),
      length-drop n (contents b),
      ap length a.left,
      length-contents c a.valid,
      a.size,
    );
  },
)
  where
    valid : IsValid (advance c k)
    valid = advance-IsValid c k a.valid (omega (arith, a.size))

    left : contents (advance c k) ≡ drop (n + k) (contents b)
    left =
        contents-advance c k a.valid (omega (arith, a.size))
        ∙ ap (drop k) a.left
        ∙ drop-drop k n (contents b)

peek-After :
    (b : Buffer) (n k : ℕ) (c : Buffer)
    → After b n c
    → n + k ≤ readable b
    → take k (peek c) ≡ take k (drop n (contents b))
peek-After b n k c a h = take-peek c k (omega (arith, a.size)) ∙ ap (take k) a.left

consume-After :
    (b : Buffer) (n k : ℕ) (c : Buffer)
    → After b n c
    → n + k ≤ readable b
    → (d : Buffer) × ((if ltb 0 k then move_read_ptr c k else some c) ≡ some d) × After b (n + k) d
consume-After b n k c a h = elim (Bool-cases (ltb 0 k)) [
  | inl e ↦ rw e (advance c k, (advance-After b n k c a h).0, (advance-After b n k c a h).1)
  | inr e ↦ rw e (c, refl, subst (λ j. After b j c) (zero_more n k e) a)
]
  where
    zero_more : (n k : ℕ) → ltb 0 k ≡ false → n ≡ n + k
    zero_more n k e = ground arith

read_frame-payload :
    (b : Buffer) (n k : ℕ) (c : Buffer)
    → After b n c
    → n + k ≤ readable b
    → (if ltb 0 k then take k (peek c) else []) ≡ take k (drop n (contents b))
read_frame-payload b n k c a h = elim (Bool-cases (ltb 0 k)) [
  | inl e ↦ rw e (peek-After b n k c a h)
  | inr e ↦ rw e (none_taken k (drop n (contents b)) e)
]
  where
    none_taken : (k : ℕ) (xs : List ℕ) → ltb 0 k ≡ false → [] ≡ take k xs
    none_taken zero xs e = refl
    none_taken (suc k) xs e = absurd (ground arith)

-- `typed` with the buffer in the place of its bytes.
accept-Shows :
    (p : MyProtocol) (b c : Buffer) (t : Option MyType) (id : ℕ) (payload rest : List ℕ)
    → IsValid c
    → contents c ≡ rest
    → Shows p b (some (accept p t id payload c)) (typed t id payload rest)
unfolding accept typed
accept-Shows p b c none id payload rest v e = (c, refl, v, e)
accept-Shows p b c (some ty) id payload rest v e = (c, refl, v, e)

read_frame-Shows :
    (p : MyProtocol) (b : Buffer) (len : ℕ)
    → IsValid b
    → 6 ≤ len
    → 4 + len ≤ readable b
    → Shows p b (read_frame p b len) (
        typed
          (cast_type (be (take 2 (drop 4 (contents b)))))
          (be (take 4 (drop 6 (contents b))))
          (take (len - 6) (drop 10 (contents b)))
          (drop (4 + len) (contents b)))
unfolding read_frame
read_frame-Shows p b len v low whole =
    let a0 : After b 0 b = record { valid = v; left = refl; size = omega arith } in
    let s1 = advance-After b 0 4 b a0 (omega arith) in
    let s2 = advance-After b 4 2 (advance b 4) s1.1 (omega arith) in
    let s3 = advance-After b 6 4 (advance (advance b 4) 2) s2.1 (omega arith) in
    let c = advance (advance (advance b 4) 2) 4 in
    let s4 = consume-After b 10 (len - 6) c s3.1 (omega arith) in
    rw (s1.0, s2.0, s3.0, s4.1)
      (rw
        (
          peek-After b 4 2 (advance b 4) s1.1 (omega arith),
          peek-After b 6 4 (advance (advance b 4) 2) s2.1 (omega arith),
          read_frame-payload b 10 (len - 6) c s3.1 (omega arith),
        )
        (accept-Shows p b s4.0 _ _ _ _ s4.2.valid
          (s4.2.left ∙ ap (λ k. drop k (contents b)) (omega arith))))

header : (b : Buffer) → 4 ≤ readable b → be (take 4 (peek b)) ≡ body_length (contents b)
header b h = ap be (take-peek b 4 h)

pub at_least : (m n : ℕ) → ltb m n ≡ false → n ≤ m
at_least m n e = ground arith

checked-Shows :
    (p : MyProtocol) (b : Buffer) (len : ℕ)
    → IsValid b
    → Shows p b
        (if ltb max_body_size len
          then some (error, p, b)
          else if ltb len 6
          then some (error, p, b)
          else if ltb (readable b) ((4 + len) % 2 ^ 32)
          then some (need_more, p, b)
          else read_frame p b len)
        (checked (contents b) len)
unfolding checked
checked-Shows p b len v = elim (Bool-cases (ltb max_body_size len)) [
  | inl e ↦ rw e (b, refl, v, refl)
  | inr small ↦ elim (Bool-cases (ltb len 6)) [
    | inl e ↦ rw (small, e) (b, refl, v, refl)
    | inr low ↦ rw (length-contents b v) (elim (Bool-cases (ltb (readable b) (4 + len))) [
      | inl e ↦ rw (small, low, no_wrap len (at_least max_body_size len small), e) refl
      | inr e ↦
          rw (small, low, no_wrap len (at_least max_body_size len small), e)
            (read_frame-Shows p b len v (at_least len 6 low) (at_least (readable b) (4 + len) e))
    ])
  ]
]
  where
    no_wrap : (n : ℕ) → n ≤ max_body_size → (4 + n) % 2 ^ 32 ≡ 4 + n
    no_wrap n h = omega arith

-- On every well-formed buffer the parser never trips an assertion. It reports what the
-- specification finds at the front of the unread bytes, stores that message, consumes exactly the
-- bytes of the frame, and consumes none where the frame is incomplete or its length is refused.
pub parse_refines :
    (p : MyProtocol) (b : Buffer) → IsValid b → Shows p b (parse p b) (spec (contents b))
unfolding parse spec
parse_refines p b v = rw (length-contents b v) (elim (Bool-cases (ltb (readable b) 4)) [
  | inl e ↦ rw e refl
  | inr e ↦
      rw (e, header b (at_least (readable b) 4 e)) (checked-Shows p b (body_length (contents b)) v)
])
