-- ===== src/Net/Buffer/Bounds.antt =====
-- The pointers of the buffer stay in order and inside the store, and there is room when asked for.
use echo_net.Base.{
  ℕ, zero, suc, ◌+◌, ◌-◌, ◌*◌, ◌/◌, ◌≤◌, ◌≡◌, List, [], ◌++◌, some, arith, length, take, drop,
  replicate, length-append, length-take, length-drop, length-replicate,
}
use echo_net.Net.Buffer.{
  Buffer, resize, poke, set_size, new_buffer, readable, writable_bytes, grow, enable_write,
  write_at_end, buffer_append, advance, move_read_ptr,
}

-- The store never shrinks below its first size, so growing by half makes progress.
pub record IsValid (b : Buffer) : Type 0 where
  pub ordered : b.read_ptr ≤ b.write_ptr
  pub inside : b.write_ptr ≤ length b.store
  pub nonempty : 2 ≤ length b.store

pub length-resize : (xs : List ℕ) (n : ℕ) → length (resize xs n) ≡ n
unfolding resize
length-resize xs n = omega (
  arith,
  length-append (take n xs) (replicate (n - length xs) 0),
  length-take n xs,
  length-replicate {A = ℕ} (n - length xs) 0,
)

pub length-poke :
    (xs : List ℕ) (at : ℕ) (msg : List ℕ)
    → at + length msg ≤ length xs
    → length (poke xs at msg) ≡ length xs
unfolding poke
length-poke xs at msg h = omega (
  arith,
  length-append (take at xs) (msg ++ drop (at + length msg) xs),
  length-append msg (drop (at + length msg) xs),
  length-take at xs,
  length-drop (at + length msg) xs,
)

-- With enough fuel the loop of `enableWrite` ends by its own test, at a size with room for `len`.
pub grow-room :
    (fuel size at len : ℕ)
    → 2 ≤ size
    → at ≤ size
    → at + len ≤ size + fuel
    → (at + len ≤ grow fuel size at len) × (size ≤ grow fuel size at len)
unfolding grow
grow-room zero size at len h a k = omega arith
grow-room (suc fuel) size at len h a k =
    ground (arith, grow-room fuel (size * 3 / 2) at len (omega arith))

-- After `enableWrite` the buffer is well formed and has room for `len` more bytes.
pub enable_write-IsValid : (b : Buffer) (len : ℕ) → IsValid b → IsValid (enable_write b len)
unfolding enable_write set_size
enable_write-IsValid b len v = ground (
  arith,
  grow-room (b.write_ptr + len) (length b.store) b.write_ptr len,
  length-resize b.store (grow (b.write_ptr + len) (length b.store) b.write_ptr len),
  length-poke b.store 0 (take (b.write_ptr - b.read_ptr) (drop b.read_ptr b.store)),
  length-take (b.write_ptr - b.read_ptr) (drop b.read_ptr b.store),
  length-drop b.read_ptr b.store,
)

pub enable_write_room :
    (b : Buffer) (len : ℕ) → IsValid b → len ≤ writable_bytes (enable_write b len)
unfolding enable_write set_size writable_bytes
enable_write_room b len v = ground (
  arith,
  grow-room (b.write_ptr + len) (length b.store) b.write_ptr len,
  length-resize b.store (grow (b.write_ptr + len) (length b.store) b.write_ptr len),
  length-poke b.store 0 (take (b.write_ptr - b.read_ptr) (drop b.read_ptr b.store)),
  length-take (b.write_ptr - b.read_ptr) (drop b.read_ptr b.store),
  length-drop b.read_ptr b.store,
)

pub write_at_end-IsValid :
    (b : Buffer) (msg : List ℕ)
    → IsValid b
    → length msg ≤ writable_bytes b
    → IsValid (write_at_end b msg)
unfolding write_at_end writable_bytes
write_at_end-IsValid b msg v h = ground (arith, length-poke b.store b.write_ptr msg)

pub buffer_append-IsValid : (b : Buffer) (msg : List ℕ) → IsValid b → IsValid (buffer_append b msg)
unfolding buffer_append
buffer_append-IsValid b msg v =
    write_at_end-IsValid (enable_write b (length msg)) msg (enable_write-IsValid b (length msg) v)
      (enable_write_room b (length msg) v)

pub advance-IsValid : (b : Buffer) (n : ℕ) → IsValid b → n ≤ readable b → IsValid (advance b n)
unfolding advance readable
advance-IsValid b n v h = ground arith

pub move_read_ptr-eq :
    (b : Buffer) (n : ℕ) → n ≤ readable b → move_read_ptr b n ≡ some (advance b n)
unfolding move_read_ptr readable
move_read_ptr-eq b n h = ground arith

pub new_buffer-IsValid : IsValid new_buffer
unfolding new_buffer set_size
new_buffer-IsValid = omega (arith, length-resize [] 4096)

pub readable-advance :
    (b : Buffer) (n : ℕ) → IsValid b → n ≤ readable b → readable (advance b n) ≡ readable b - n
unfolding advance readable
readable-advance b n v h = ground arith
