-- ===== src/Net/Buffer/Contents.antt =====
-- The unread bytes of the buffer, and what each operation does to them.
use echo_net.Base.{
  ℕ, ◌+◌, ◌-◌, ◌≤◌, ◌≡◌, refl, sym, ap, ◌∙◌, List, [], ◌++◌, arith, length, take, drop, replicate,
  length-append, length-take, length-drop, append_assoc, take-append_le, drop-append_le,
  take_prefix, drop-drop, drop-take, take-take_le, take_all, Bool-cases, inl, inr, ltb, leb, ◌≡⟨◌⟩◌,
  ◌∎, ==_iff, ◌==◌,
}
use echo_net.Net.Buffer.{
  Buffer, resize, poke, set_size, new_buffer, readable, peek, grow, enable_write, write_at_end,
  buffer_append, advance,
}
use echo_net.Net.Buffer.Bounds.{IsValid, grow-room, enable_write-IsValid}

-- `[read_ptr, write_ptr)` of the store.
abbrev pub contents : Buffer → List ℕ
contents b = take (b.write_ptr - b.read_ptr) (drop b.read_ptr b.store)

pub length-contents : (b : Buffer) → IsValid b → length (contents b) ≡ readable b
unfolding readable
length-contents b v = omega (
  arith,
  length-take (b.write_ptr - b.read_ptr) (drop b.read_ptr b.store),
  length-drop b.read_ptr b.store,
)

-- What stands before the written place is kept, and the written bytes follow it.
pub take-poke :
    (xs : List ℕ) (at : ℕ) (msg : List ℕ)
    → at ≤ length xs
    → take (at + length msg) (poke xs at msg) ≡ take at xs ++ msg
unfolding poke
take-poke xs at msg h =
    ap (take (at + length msg)) (sym (append_assoc (take at xs) msg (drop (at + length msg) xs)))
    ∙ take_prefix (at + length msg) (take at xs ++ msg) (drop (at + length msg) xs)
        (omega (arith, length-append (take at xs) msg, length-take at xs))

-- A window that ends where the write starts is extended by the written bytes.
window-poke :
    (xs msg : List ℕ) (r w : ℕ)
    → r ≤ w
    → w ≤ length xs
    → take (w + length msg - r) (drop r (poke xs w msg)) ≡ take (w - r) (drop r xs) ++ msg
window-poke xs msg r w h k =
    take (w + length msg - r) (drop r (poke xs w msg))
    ≡⟨ sym (drop-take r (w + length msg) (poke xs w msg)) ⟩
      drop r (take (w + length msg) (poke xs w msg))
    ≡⟨ ap (drop r) (take-poke xs w msg k) ⟩ drop r (take w xs ++ msg)
    ≡⟨ drop-append_le r (take w xs) msg (omega (arith, length-take w xs)) ⟩
      drop r (take w xs) ++ msg
    ≡⟨ ap (λ t. t ++ msg) (drop-take r w xs) ⟩ take (w - r) (drop r xs) ++ msg ∎

pub contents-write_at_end :
    (b : Buffer) (msg : List ℕ) → IsValid b → contents (write_at_end b msg) ≡ contents b ++ msg
unfolding write_at_end
contents-write_at_end b msg v = window-poke b.store msg b.read_ptr b.write_ptr v.ordered v.inside

window-resize :
    (xs : List ℕ) (r w n : ℕ)
    → w ≤ length xs
    → length xs ≤ n
    → r ≤ w
    → take (w - r) (drop r (resize xs n)) ≡ take (w - r) (drop r xs)
unfolding resize
window-resize xs r w n h k o =
    ap (λ t. take (w - r) (drop r (t ++ replicate (n - length xs) 0))) (take_all n xs k)
    ∙ ap (take (w - r)) (drop-append_le r xs (replicate (n - length xs) 0) (omega arith))
    ∙ take-append_le (w - r) (drop r xs) (replicate (n - length xs) 0)
        (omega (arith, length-drop r xs))

window-compact :
    (xs : List ℕ) (r w : ℕ)
    → r ≤ w
    → w ≤ length xs
    → take (w - r - 0) (drop 0 (poke xs 0 (take (w - r) (drop r xs)))) ≡ take (w - r) (drop r xs)
unfolding poke
window-compact xs r w h k =
    take_prefix (w - r - 0) (take (w - r) (drop r xs)) _
      (omega (arith, length-take (w - r) (drop r xs), length-drop r xs))

-- Making room moves or copies the unread bytes and loses none of them.
pub contents-enable_write :
    (b : Buffer) (len : ℕ) → IsValid b → contents (enable_write b len) ≡ contents b
unfolding enable_write set_size
contents-enable_write b len v = elim (Bool-cases (ltb (length b.store - b.write_ptr) len)) [
  | inl full ↦ elim (Bool-cases (leb len (length b.store - b.write_ptr + b.read_ptr))) [
    | inl fits ↦ rw (full, fits) (window-compact b.store b.read_ptr b.write_ptr v.ordered v.inside)
    | inr short ↦
        rw (full, short)
          (window-resize b.store b.read_ptr b.write_ptr
            (grow (b.write_ptr + len) (length b.store) b.write_ptr len) v.inside
            (grow-room (b.write_ptr + len) (length b.store) b.write_ptr len v.nonempty v.inside
              (omega arith)).1
            v.ordered)
  ]
  | inr room ↦ rw room refl
]

pub contents-buffer_append :
    (b : Buffer) (msg : List ℕ) → IsValid b → contents (buffer_append b msg) ≡ contents b ++ msg
unfolding buffer_append
contents-buffer_append b msg v =
    contents-write_at_end (enable_write b (length msg)) msg (enable_write-IsValid b (length msg) v)
    ∙ ap (λ t. t ++ msg) (contents-enable_write b (length msg) v)

window_empty : (k : ℕ) (xs : List ℕ) → k ≡ 0 → take k xs ≡ []
window_empty k xs h = ap (λ n. take n xs) h

-- Consuming bytes drops them from the front, also where the pointers go back to the start.
pub contents-advance :
    (b : Buffer) (n : ℕ) → IsValid b → n ≤ readable b → contents (advance b n) ≡ drop n (contents b)
unfolding advance readable
contents-advance b n v h = elim (Bool-cases (b.read_ptr + n == b.write_ptr)) [
  | inl e ↦ rw e (
      sym (
        drop-take n (b.write_ptr - b.read_ptr) (drop b.read_ptr b.store)
        ∙ window_empty _ _ (omega (arith, (==_iff (b.read_ptr + n) b.write_ptr).0 e))))
  | inr e ↦ rw e (
      sym (
        drop-take n (b.write_ptr - b.read_ptr) (drop b.read_ptr b.store)
        ∙ ap (take (b.write_ptr - b.read_ptr - n)) (drop-drop n b.read_ptr b.store)
        ∙ ap (λ k. take k (drop (b.read_ptr + n) b.store)) (regroup b.write_ptr b.read_ptr n)))
]
  where
    regroup : (w r n : ℕ) → w - r - n ≡ w - (r + n)
    regroup w r n = omega arith

-- Bytes in the readable part are those that `peek` points to.
pub take-peek : (b : Buffer) (n : ℕ) → n ≤ readable b → take n (peek b) ≡ take n (contents b)
unfolding peek readable
take-peek b n h = sym (take-take_le n (b.write_ptr - b.read_ptr) (drop b.read_ptr b.store) h)

pub new_buffer-contents : contents new_buffer ≡ []
unfolding new_buffer set_size
new_buffer-contents = refl
