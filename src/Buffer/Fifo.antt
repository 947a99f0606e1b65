-- ===== src/Buffer/Fifo.antt =====
-- A buffer of src/buffer.c is a queue of bytes: what each operation does to its contents.
use proyecto_protos.Buffer.Window.{
  window, length-window, window-empty, window-cons, drop-window, window-overwrite,
  window-overwrite_front,
}
use proyecto_protos.Buffer.Valid.{IsValid, filled, read_adv_lem, compact_if_empty-IsValid}
use proyecto_protos.Buffer.{
  Buffer, can_read, compact, compact_if_empty, reset, read, read_adv, contents, space,
}
use proyecto_protos.Prelude.{
  ℕ, suc, ◌+◌, ◌-◌, ◌≤◌, ◌≡◌, sym, ◌∙◌, ap, List, [], ◌∷◌, ◌++◌, some, true, length, drop,
  get_elem?_total, arith,
}

pub length-contents : (b : Buffer) → IsValid b → length (contents b) ≡ b.write - b.read
length-contents b v = omega (arith, length-window b.read b.write b.mem)

-- Compacting keeps the waiting bytes and frees all the room that they do not take.
pub compact_lem :
    (b : Buffer)
    → IsValid b
    → (contents (compact b) ≡ contents b) × (space (compact b) + length (contents b) ≡ b.limit)
unfolding compact
compact_lem b v = ground (
  arith,
  length-contents b v,
  window-empty b.read b.write b.mem,
  window-empty 0 0 b.mem,
  window-overwrite_front (contents b) b.mem,
)

-- The end of `buffer_read_adv` does not touch the waiting bytes.
pub settled :
    (b : Buffer)
    → IsValid b
    → (contents (compact_if_empty b) ≡ contents b) × ((compact_if_empty b).limit ≡ b.limit)
unfolding compact_if_empty compact
settled b v = ground (arith, window-empty b.read b.write b.mem, window-empty 0 0 b.mem)

-- The first byte goes out, the others wait on.
pub read_lem :
    (b : Buffer)
    → IsValid b
    → can_read b ≡ true
    → (c : ℕ) × (b' : Buffer) × (read b ≡ some (c, b'))
      × (contents b ≡ c ∷ contents b')
      × IsValid b'
      × (b'.limit ≡ b.limit)
unfolding read can_read
read_lem b v h =
    let (c, e) = get_elem?_total b.mem b.read (ground arith) in
    let within : b.read + 1 ≤ b.write = ground arith in
    let next : Buffer = record b { read = b.read + 1 } in
    let nv : IsValid next = omega arith in
    (
      c,
      compact_if_empty next,
      ground (arith, e, read_adv_lem b 1 within),
      window-cons b.read b.write b.mem (omega arith) e
          ∙ ap (λ l. c ∷ l)
              (ap (λ k. window k b.write b.mem) (omega arith) ∙ sym (settled next nv).0),
      compact_if_empty-IsValid nv,
      (settled next nv).1,
    )

pub contents-filled :
    (b : Buffer) (bs : List ℕ)
    → IsValid b
    → length bs ≤ space b
    → contents (filled b bs) ≡ contents b ++ bs
contents-filled b bs v h = window-overwrite b.read b.write bs b.mem v.read_le (omega arith)

-- What `buffer_read_adv` counts goes out from the front.
pub contents-read_adv :
    (b : Buffer) (n : ℕ)
    → IsValid b
    → b.read + n ≤ b.write
    → contents (compact_if_empty (record b { read = b.read + n })) ≡ drop n (contents b)
contents-read_adv b n v h =
    (settled (record b { read = b.read + n }) (omega arith)).0
    ∙ sym (drop-window n b.read b.write b.mem)

-- The last byte that waits is read, and leaves the buffer with all its room.
pub read_last : (b : Buffer) (x : ℕ) → IsValid b → contents b ≡ x ∷ [] → read b ≡ some (x, reset b)
unfolding read read_adv compact_if_empty compact reset can_read
read_last b x v e =
    let one : b.write - b.read ≡ 1 = omega (arith, length-contents b v, ap length e) in
    let (c, q) = get_elem?_total b.mem b.read (omega (arith, v.write_le, v.storage)) in
    let front : contents b ≡ c ∷ window (suc b.read) b.write b.mem =
      window-cons b.read b.write b.mem (omega arith) q in
    ground (arith, q, front, v.read_le)
