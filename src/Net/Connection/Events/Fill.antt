-- ===== src/Net/Connection/Events/Fill.antt =====
-- Filling the input buffer: what the socket delivered stands behind what was there.
use echo_net.Base.{
  ℕ, ◌+◌, ◌≤◌, ◌<◌, ◌≡◌, ap, ◌∙◌, List, ◌++◌, true, false, some, arith, length, length-take, leb,
  Bool-cases, inl, inr, take, drop, take-append-drop, append_assoc, Returns, subst, leb→le,
}
use echo_net.Net.Buffer.{Buffer, writable_bytes, write_at_end, move_write_ptr, poke}
use echo_net.Net.Buffer.Bounds.{
  length-poke, IsValid, enable_write-IsValid, enable_write_room, write_at_end-IsValid,
  buffer_append-IsValid,
}
use echo_net.Net.Buffer.Contents.{
  contents, contents-enable_write, contents-write_at_end, contents-buffer_append,
}
use echo_net.Net.Connection.Read.{extra_buf_size, make_room, take_in}

-- Each round starts with room for a byte, and with the bytes that were there.
pub make_room_lem :
    (b : Buffer)
    → IsValid b
    → IsValid (make_room b)
      × (contents (make_room b) ≡ contents b)
      × (0 < writable_bytes (make_room b))
unfolding make_room
make_room_lem b v = ground (
  arith,
  enable_write-IsValid b extra_buf_size v,
  contents-enable_write b extra_buf_size v,
  enable_write_room b extra_buf_size v,
)

-- The store is written first and the pointer moved next; together they are `write_at_end`.
stored :
    (b : Buffer) (msg : List ℕ)
    → IsValid b
    → length msg ≤ writable_bytes b
    → move_write_ptr (record b { store = poke b.store b.write_ptr msg }) (length msg)
      ≡ some (write_at_end b msg)
unfolding move_write_ptr write_at_end writable_bytes
stored b msg v h = ground (arith, length-poke b.store b.write_ptr msg)

-- Both blocks of `readv` end up behind what a well-formed buffer holds, in order, for any number of
-- bytes that fit into the blocks, and the buffer stays well formed.
pub take_in_lem :
    (b : Buffer) (bytes : List ℕ)
    → IsValid b
    → length bytes ≤ writable_bytes b + extra_buf_size
    → Returns (λ c. IsValid c × (contents c ≡ contents b ++ bytes)) (take_in b bytes)
unfolding take_in
take_in_lem b bytes v h = elim (Bool-cases (leb (length bytes) (writable_bytes b))) [
  | inl fits ↦
      rw (fits, stored b bytes v (leb→le _ _ fits))
        (write_at_end-IsValid b bytes v (leb→le _ _ fits), contents-write_at_end b bytes v)
  | inr over ↦
      let n = writable_bytes b in
      let front = take n bytes in
      let full : length front ≡ n = omega (arith, length-take n bytes, more n bytes over) in
      let w = write_at_end-IsValid b front v (omega arith) in
      let back = drop n bytes in
      rw
        (
          over,
          allowed (length bytes) (n + extra_buf_size) h,
          subst
              (λ k.
                move_write_ptr (record b { store = poke b.store b.write_ptr front }) k
                ≡ some (write_at_end b front))
              full (stored b front v (omega arith)),
        )
        (
          buffer_append-IsValid (write_at_end b front) back w,
          contents-buffer_append (write_at_end b front) back w
              ∙ ap (λ t. t ++ back) (contents-write_at_end b front v)
              ∙ append_assoc (contents b) front back
              ∙ ap (◌++◌ (contents b)) (take-append-drop n bytes),
        )
]
  where
    more : (n : ℕ) (xs : List ℕ) → leb (length xs) n ≡ false → n ≤ length xs
    more n xs e = ground arith

    allowed : (n m : ℕ) → n ≤ m → leb n m ≡ true
    allowed n m h = ground arith
