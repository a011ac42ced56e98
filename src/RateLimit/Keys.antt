-- ===== src/RateLimit/Keys.antt =====
-- The answers for a key do not depend on the other keys.
use echo_net.Base.{
  Bool-cases, List, Option, Text, [], ap, arith, false, if◌then◌else◌, inl, inr, none, refl,
  same_text, same_text-eq, some, sym, true, ℕ, ◌-◌, ◌∙◌, ◌∷◌, ◌≡◌,
}
use echo_net.RateLimit.TokenBucket.{
  Double, Bucket, TokenBucket, find_key, put_key, erase_key, serve, try_acquire, remove_key,
  new_bucket, refill, find_or_full, take_token,
}

same_text_sym : (s t : Text) → same_text s t ≡ same_text t s
unfolding same_text
same_text_sym [] [] = refl
same_text_sym [] (y ∷ ys) = refl
same_text_sym (x ∷ xs) [] = refl
same_text_sym (x ∷ xs) (y ∷ ys) = ground (arith, same_text_sym xs ys)

-- Two texts that are not the same are not both the same as a third.
same_text_clash :
    (i k j : Text) → same_text i k ≡ false → same_text i j ≡ true → same_text k j ≡ false
same_text_clash i k j e f =
    ap (λ t. same_text k t) (sym (same_text-eq i j f)) ∙ same_text_sym k i ∙ e

module _ {V : Type 0} where
  find-put_key :
      (k j : Text) (v : V) (m : List (Text × V))
      → find_key j (put_key k v m) ≡ (if same_text k j then some v else find_key j m)
  unfolding find_key put_key
  find-put_key k j v [] = refl
  find-put_key k j v ((i, w) ∷ m) = elim (Bool-cases (same_text i k)) [
    | inl e ↦ elim (Bool-cases (same_text k j)) [
      | inl f ↦ rw (e, f) refl
      | inr f ↦ rw (e, f, same_text-eq i k e) (rw f refl)
    ]
    | inr e ↦ elim (Bool-cases (same_text i j)) [
      | inl f ↦ rw (e, f, same_text_clash i k j e f) refl
      | inr f ↦ rw (e, f) (find-put_key k j v m)
    ]
  ]

  find-erase_key :
      (k j : Text) (m : List (Text × V))
      → find_key j (erase_key k m) ≡ (if same_text k j then none else find_key j m)
  unfolding find_key erase_key
  find-erase_key k j [] = elim (Bool-cases (same_text k j)) [
    | inl f ↦ rw f refl
    | inr f ↦ rw f refl
  ]
  find-erase_key k j ((i, w) ∷ m) = elim (Bool-cases (same_text i k)) [
    | inl e ↦ elim (Bool-cases (same_text k j)) [
      | inl f ↦ rw (e, f) (find-erase_key k j m ∙ rw f refl)
      | inr f ↦ rw (e, f, same_text-eq i k e) (rw f (find-erase_key k j m ∙ rw f refl))
    ]
    | inr e ↦ elim (Bool-cases (same_text i j)) [
      | inl f ↦ rw (e, f, same_text_clash i k j e f) refl
      | inr f ↦ rw (e, f) (find-erase_key k j m)
    ]
  ]

-- A call, with the two readings of the clock, or the end of a key.
pub data Event : Type 0 where
  acquires : Text → ℕ → ℕ → Event
  removes : Text → Event

module _ (d : Double) where
  unfoldable pub step : TokenBucket d → Event → TokenBucket d
  step t (acquires key made now) = (try_acquire d key made now t).1
  step t (removes key) = remove_key d key t

  unfoldable pub run : TokenBucket d → List Event → TokenBucket d
  unfolding step
  run t [] = t
  run t (e ∷ es) = run (step t e) es

  -- What a bucket holds at a call: what it held at the last one, or all that it can hold, with what
  -- has come in since at the rate, and never more than its capacity.
  abbrev pub level : d.R → d.R → ℕ → ℕ → Option (Bucket d) → d.R
  level rate capacity made now none =
      d.min capacity (d.add capacity (d.mul (d.seconds (now - made)) rate))
  level rate capacity made now (some b) =
      d.min capacity (d.add b.tokens (d.mul (d.seconds (now - b.last_refill)) rate))

  -- What a bucket with this level holds after the call.
  abbrev pub left_over : d.R → ℕ → Bucket d
  left_over n now = record {
    tokens = if d.at_least n d.one then d.sub n d.one else n;
    last_refill = now;
  }

  -- The bucket of one key, with the events of this key only.
  unfoldable pub alone : d.R → d.R → Text → Option (Bucket d) → List Event → Option (Bucket d)
  alone rate capacity key b [] = b
  alone rate capacity key b (acquires k made now ∷ es) =
      alone rate capacity key
        (if same_text k key then some (left_over (level rate capacity made now b) now) else b) es
  alone rate capacity key b (removes k ∷ es) =
      alone rate capacity key (if same_text k key then none else b) es

  -- A call takes a token exactly where the level is one at least.
  serve-level :
      (rate capacity : d.R) (made now : ℕ) (o : Option (Bucket d))
      → serve d rate capacity made now o ≡ (
        d.at_least (level rate capacity made now o) d.one,
        left_over (level rate capacity made now o) now,
      )
  unfolding serve refill find_or_full take_token
  serve-level rate capacity made now none = ground arith
  serve-level rate capacity made now (some b) = ground arith

  served :
      (t : TokenBucket d) (key k : Text) (made now : ℕ)
      → find_key key (step t (acquires k made now)).buckets ≡ (
          if same_text k key
          then some (left_over (level t.rate t.capacity made now (find_key key t.buckets)) now)
          else find_key key t.buckets)
  unfolding step try_acquire
  served t key k made now = elim (Bool-cases (same_text k key)) [
    | inl e ↦
        find-put_key k key (serve d t.rate t.capacity made now (find_key k t.buckets)).1 t.buckets
        ∙ rw e (
            ap (λ j. some (serve d t.rate t.capacity made now (find_key j t.buckets)).1)
              (same_text-eq k key e)
            ∙ ap (λ p. some p.1) (serve-level t.rate t.capacity made now (find_key key t.buckets)))
    | inr e ↦
        find-put_key k key (serve d t.rate t.capacity made now (find_key k t.buckets)).1 t.buckets
        ∙ rw e refl
  ]

  run-alone :
      (t : TokenBucket d) (key : Text) (es : List Event)
      → find_key key (run t es).buckets ≡ alone t.rate t.capacity key (find_key key t.buckets) es
  unfolding run alone step try_acquire remove_key
  run-alone t key [] = refl
  run-alone t key (acquires k made now ∷ es) =
      run-alone (step t (acquires k made now)) key es
      ∙ ap (λ b. alone t.rate t.capacity key b es) (served t key k made now)
  run-alone t key (removes k ∷ es) =
      run-alone (step t (removes k)) key es
      ∙ ap (λ b. alone t.rate t.capacity key b es) (find-erase_key k key t.buckets)

  run-numbers :
      (t : TokenBucket d) (es : List Event)
      → ((run t es).rate ≡ t.rate) × ((run t es).capacity ≡ t.capacity)
  unfolding run step try_acquire remove_key
  run-numbers t [] = (refl, refl)
  run-numbers t (acquires k made now ∷ es) = run-numbers (step t (acquires k made now)) es
  run-numbers t (removes k ∷ es) = run-numbers (step t (removes k)) es

  -- Whatever was asked for the other keys, and whichever of them were removed, a call for a key is
  -- answered by the level of a bucket of its own, which has seen only the calls for this key, in their
  -- order: it holds the capacity at the first one and at the first one after each removal, fills up to
  -- the capacity at the rate, and gives one token to each call that finds one.
  pub keys_apart :
      (rate capacity : d.R) (es : List Event) (key : Text) (made now : ℕ)
      → (try_acquire d key made now (run (new_bucket d rate capacity) es)).0
        ≡ d.at_least (level rate capacity made now (alone rate capacity key none es)) d.one
  unfolding try_acquire new_bucket find_key
  keys_apart rate capacity es key made now =
      let t = run (new_bucket d rate capacity) es in
      let same = run-numbers (new_bucket d rate capacity) es in
      ap (λ b. (serve d t.rate t.capacity made now b).0)
        (run-alone (new_bucket d rate capacity) key es)
      ∙ ap (λ r. (serve d r t.capacity made now (alone rate capacity key none es)).0) same.0
      ∙ ap (λ c. (serve d rate c made now (alone rate capacity key none es)).0) same.1
      ∙ ap (λ p. p.0) (serve-level rate capacity made now (alone rate capacity key none es))
