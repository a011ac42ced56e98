-- ===== src/Net/Buffer.antt =====
-- include/Net/Buffer.h and src/Net/Buffer.cpp: the byte buffer of a connection.
-- A byte is a number; the store of the vector is a list, its unwritten part included. A size stays
-- far below 2^53, so the product of `size_t` and the double 1.5 is exact before it is truncated.
pub mod Bounds
pub mod Contents
pub mod Queue
use echo_net.Base.{
  ℕ, zero, suc, ◌+◌, ◌-◌, ◌*◌, ◌/◌, List, [], ◌++◌, Option, none, some, if◌then◌else◌, ltb, leb,
  ◌==◌, length, take, drop, replicate,
}

pub record Buffer : Type 0 where
  pub store : List ℕ
  pub read_ptr : ℕ
  pub write_ptr : ℕ

-- `std::vector::resize`: new elements are zero.
unfoldable pub resize : List ℕ → ℕ → List ℕ
resize xs n = take n xs ++ replicate (n - length xs) 0

-- `memcpy` of `msg` to offset `at`.
unfoldable pub poke : List ℕ → ℕ → List ℕ → List ℕ
poke xs at msg = take at xs ++ (msg ++ drop (at + length msg) xs)

unfoldable pub set_size : Buffer → ℕ → Buffer
unfolding resize
set_size b n = record b { store = resize b.store n }

unfoldable pub new_buffer : Buffer
unfolding set_size
new_buffer = set_size (record { store = []; read_ptr = 0; write_ptr = 0 }) 4096

unfoldable pub readable : Buffer → ℕ
readable b = b.write_ptr - b.read_ptr

unfoldable pub writable_bytes : Buffer → ℕ
writable_bytes b = length b.store - b.write_ptr

-- What `peek` points to, as far as the store reaches.
unfoldable pub peek : Buffer → List ℕ
peek b = drop b.read_ptr b.store

-- `while (new_size - write_ptr_ < len) new_size = new_size * 1.5`, with fuel.
pub grow : ℕ → ℕ → ℕ → ℕ → ℕ
grow zero size at len = size
grow (suc fuel) size at len =
    let bigger = grow fuel (size * 3 / 2) at len in if ltb (size - at) len then bigger else size

-- Each round adds at least one byte, so `write_ptr + len` rounds are enough.
pub enable_write : Buffer → ℕ → Buffer
unfolding set_size
enable_write b len =
    if ltb (length b.store - b.write_ptr) len
    then if leb len (length b.store - b.write_ptr + b.read_ptr)
      then record {
        store = poke b.store 0 (take (b.write_ptr - b.read_ptr) (drop b.read_ptr b.store));
        read_ptr = 0;
        write_ptr = b.write_ptr - b.read_ptr;
      }
      else set_size b (grow (b.write_ptr + len) (length b.store) b.write_ptr len)
    else b

-- Bytes that are stored at the write pointer, which then moves past them.
unfoldable pub write_at_end : Buffer → List ℕ → Buffer
write_at_end b msg = record b {
  store = poke b.store b.write_ptr msg;
  write_ptr = b.write_ptr + length msg;
}

unfoldable pub buffer_append : Buffer → List ℕ → Buffer
unfolding write_at_end
buffer_append b msg = write_at_end (enable_write b (length msg)) msg

-- The body of `moveReadPtr` behind its assertion.
unfoldable pub advance : Buffer → ℕ → Buffer
advance b len =
    if b.read_ptr + len == b.write_ptr
    then record b { read_ptr = 0; write_ptr = 0 }
    else record b { read_ptr = b.read_ptr + len }

-- `none` is a failed assertion, which aborts.
unfoldable pub move_read_ptr : Buffer → ℕ → Option Buffer
unfolding advance
move_read_ptr b len = if leb len (b.write_ptr - b.read_ptr) then some (advance b len) else none

unfoldable pub move_write_ptr : Buffer → ℕ → Option Buffer
move_write_ptr b len =
    if leb len (length b.store - b.write_ptr)
    then some (record b { write_ptr = b.write_ptr + len })
    else none
