-- ===== src/Selector/Capacity.antt =====
-- `next_capacity` and `ensure_capacity` of src/selector.c: the table gets room for the descriptor
-- asked for, and no more than `select` can watch.
use native.Mathlib.Nat.{pow-suc, zero-add}
use proyecto_protos.Selector.{items_max_size, count_bits, next_capacity}
use proyecto_protos.Prelude.{
  ℕ, zero, suc, ◌+◌, ◌*◌, ◌/◌, ◌^◌, ◌≤◌, ◌<◌, ◌≡◌, ◌⊎◌, some, ltb, if◌then◌else◌, arith,
}

-- What is known of the number of bits of `tmp`.
abbrev BitLength : ℕ → ℕ → Type 0
BitLength tmp k = (tmp < 2 ^ k) × ((tmp ≡ 0) × (k ≡ 0) ⊎ (2 ^ k ≤ 2 * tmp))

BitLength-suc : (t k : ℕ) → BitLength (suc t / 2) k → BitLength (suc t) (suc k)
BitLength-suc t zero h = omega (arith, pow-suc 2 0)
BitLength-suc t (suc k) h = omega (arith, pow-suc 2 (suc k))

-- The loop counts the bits of `tmp`: enough for it, and one more would be too many.
count_bits_lem :
    (fuel tmp bits : ℕ)
    → tmp < 2 ^ fuel
    → (k : ℕ) × (count_bits fuel tmp bits ≡ bits + k) × BitLength tmp k
unfolding count_bits
count_bits_lem zero tmp bits h = (0, omega arith, omega arith)
count_bits_lem (suc fuel) zero bits h = (0, ground arith, omega arith)
count_bits_lem (suc fuel) (suc t) bits h =
    let (k, e, l) = count_bits_lem fuel (suc t / 2) (bits + 1) (omega (arith, pow-suc 2 fuel)) in
    (suc k, ground (arith, e), BitLength-suc t k l)

-- `next_capacity` passes its `assert` on every `n` that `select` can watch, and its result lies
-- above `n` and at most at 1025; it is at most 2n + 1 too, unless `n` is 0.
pub next_capacity_bounds :
    (n : ℕ)
    → n ≤ items_max_size
    → (c : ℕ) × (next_capacity n ≡ some c)
      × (n < c)
      × (c ≤ items_max_size + 1)
      × ((n ≡ 0) ⊎ (c ≤ 2 * n + 1))
unfolding next_capacity
next_capacity_bounds n h =
    let (k, e, l) = count_bits_lem 64 n 0 (omega arith) in
    (
      (if ltb items_max_size (2 ^ k) then items_max_size else 2 ^ k) + 1,
      rw (e, zero-add k) (ground (arith, l)),
      ground (arith, l),
      ground arith,
      ground (arith, l),
    )
