-- ===== src/Buffer/Valid.antt =====
-- The invariant of include/buffer.h, `R <= W <= limit`: each operation of src/buffer.c keeps it,
-- and within it no `assert` fails.
use proyecto_protos.Buffer.Window.{overwrite, window, length-overwrite}
use proyecto_protos.Buffer.{
  compact_if_empty, Buffer, reset, init, can_write, compact, read_adv, write, put, space,
}
use proyecto_protos.Prelude.{
  ℕ, ◌+◌, ◌≤◌, ◌≡◌, List, [], ◌∷◌, some, length, pos, if◌then◌else◌, arith,
}

pub record IsValid (b : Buffer) : Type 0 where
  pub read_le : b.read ≤ b.write
  pub write_le : b.write ≤ b.limit
  pub storage : b.limit ≤ length b.mem

pub init-IsValid : (n : ℕ) (storage : List ℕ) → n ≤ length storage → IsValid (init n storage)
unfolding init
init-IsValid n storage h = omega arith

pub reset-IsValid : {b : Buffer} → IsValid b → IsValid (reset b)
unfolding reset
reset-IsValid v = omega arith

pub compact-IsValid : {b : Buffer} → IsValid b → IsValid (compact b)
unfolding compact
compact-IsValid {b} v = ground (arith, length-overwrite 0 (window b.read b.write b.mem) b.mem)

pub compact_if_empty-IsValid : {b : Buffer} → IsValid b → IsValid (compact_if_empty b)
unfolding compact_if_empty
compact_if_empty-IsValid {b} v = ground (arith, compact-IsValid v)

-- `read_adv` within what waits passes its `assert`.
pub read_adv_lem :
    (b : Buffer) (n : ℕ)
    → b.read + n ≤ b.write
    → read_adv b (pos n) ≡ some (compact_if_empty (record b { read = b.read + n }))
unfolding read_adv
read_adv_lem b n h = ground arith

-- `read_adv` within what waits keeps the invariant.
pub read_adv-IsValid :
    (b : Buffer) (n : ℕ)
    → IsValid b
    → b.read + n ≤ b.write
    → IsValid (compact_if_empty (record b { read = b.read + n }))
read_adv-IsValid b n v h = compact_if_empty-IsValid (omega arith)

-- What `put` leaves, of bytes that fit.
abbrev pub filled : Buffer → List ℕ → Buffer
filled b bs = record b { mem = overwrite b.write bs b.mem; write = b.write + length bs }

-- `put` of what fits passes its `assert` and stays inside the array.
pub put_lem :
    (b : Buffer) (bs : List ℕ) → IsValid b → length bs ≤ space b → put b bs ≡ some (filled b bs)
unfolding put
put_lem b bs v h = ground arith

pub filled-IsValid :
    (b : Buffer) (bs : List ℕ) → IsValid b → length bs ≤ space b → IsValid (filled b bs)
filled-IsValid b bs v h = ground (arith, length-overwrite b.write bs b.mem)

-- Every `write` keeps the invariant: it appends the byte where there is room, and drops it where not.
pub write-IsValid :
    (b : Buffer) (c : ℕ)
    → IsValid b
    → write b c ≡ some (if can_write b then filled b (c ∷ []) else b)
unfolding write
write-IsValid b c v = ground arith
