-- ===== src/Buffer.antt =====
-- src/buffer.c and include/buffer.h: a byte buffer with a read and a write pointer.
-- A pointer is its offset from `data`, and `mem` is the array that `data` points to. A failed
-- `assert` and an access outside the array are `none`.
pub mod Window
pub mod Valid
pub mod Fifo
pub mod Drain
use proyecto_protos.Buffer.Window.{window, overwrite}
use proyecto_protos.Prelude.{
  ℕ, suc, ◌+◌, ◌-◌, Bool, true, false, Option, none, some, List, ◌∷◌, [], length, get_elem?, ltb,
  leb, ◌==◌, if◌then◌else◌, ◌>>=◌, ◌>>◌, assert, ℤ, pos, negsuc,
}

-- `struct buffer`; `limit` is an offset too.
pub record Buffer : Type 0 where
  pub mem : List ℕ
  pub limit : ℕ
  pub read : ℕ
  pub write : ℕ

-- Bytes copied into the array at an offset.
unfoldable pub store_at : List ℕ → ℕ → List ℕ → Option (List ℕ)
store_at mem i bs = if leb (i + length bs) (length mem) then some (overwrite i bs mem) else none

unfoldable pub reset : Buffer → Buffer
reset b = record b { read = 0; write = 0 }

unfoldable pub init : ℕ → List ℕ → Buffer
init n storage = record { mem = storage; limit = n; read = 0; write = 0 }

unfoldable pub can_write : Buffer → Bool
can_write b = ltb b.write b.limit

-- The pointer where to write, and how many bytes fit.
unfoldable pub write_ptr : Buffer → Option (ℕ × ℕ)
write_ptr b = do assert (leb b.write b.limit); some (b.write, b.limit - b.write)

unfoldable pub can_read : Buffer → Bool
can_read b = ltb b.read b.write

-- The pointer where to read, and how many bytes wait.
unfoldable pub read_ptr : Buffer → Option (ℕ × ℕ)
read_ptr b = do assert (leb b.read b.write); some (b.read, b.write - b.read)

unfoldable pub write_adv : Buffer → ℤ → Option Buffer
write_adv b (negsuc n) = some b
write_adv b (pos n) = do assert (leb (b.write + n) b.limit); some (record b { write = b.write + n })

-- `memmove(b->data, b->read, n)` in the last branch.
unfoldable pub compact : Buffer → Buffer
compact b =
    if b.read == 0
    then b
    else if b.read == b.write
    then record b { read = 0; write = 0 }
    else record b {
      mem = overwrite 0 (window b.read b.write b.mem) b.mem;
      read = 0;
      write = b.write - b.read;
    }

-- The end of `buffer_read_adv`: an empty buffer starts again at the front.
unfoldable pub compact_if_empty : Buffer → Buffer
unfolding compact
compact_if_empty b = if b.read == b.write then compact b else b

unfoldable pub read_adv : Buffer → ℤ → Option Buffer
unfolding compact_if_empty
read_adv b (negsuc n) = some b
read_adv b (pos n) = do
  assert (leb (b.read + n) b.write)
  some (compact_if_empty (record b { read = b.read + n }))

-- The byte, or 0 where there is none to read.
unfoldable pub read : Buffer → Option (ℕ × Buffer)
unfolding read_adv can_read
read b =
    if can_read b
    then (do c ← get_elem? b.mem b.read; b' ← read_adv b (pos 1); some (c, b'))
    else some (0, b)

-- A full buffer drops the byte.
unfoldable pub write : Buffer → ℕ → Option Buffer
unfolding write_adv can_write store_at
write b c =
    if can_write b
    then (do mem' ← store_at b.mem b.write (c ∷ []); write_adv (record b { mem = mem' }) (pos 1))
    else some b

-- How the callers put bytes in: they are stored at `write_ptr`, then `write_adv` counts them.
unfoldable pub put : Buffer → List ℕ → Option Buffer
unfolding write_adv store_at
put b bs = do
  mem' ← store_at b.mem b.write bs
  write_adv (record b { mem = mem' }) (pos (length bs))

-- The bytes that wait to be read, oldest first.
abbrev pub contents : Buffer → List ℕ
contents b = window b.read b.write b.mem

-- How many bytes fit without compacting.
abbrev pub space : Buffer → ℕ
space b = b.limit - b.write
