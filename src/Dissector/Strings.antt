-- ===== src/Dissector/Strings.antt =====
-- The strings of src/password_dissector/dissec_parser.c, which `checkSize` lets grow by five bytes.
use proyecto_protos.Bytes.{set_byte}
use proyecto_protos.Dissector.{check_size, store_char}
use proyecto_protos.Users.{cstr}
use proyecto_protos.Prelude.{
  ℕ, zero, suc, ◌+◌, ◌*◌, ◌%◌, ◌/◌, ◌≤◌, ◌<◌, ◌≡◌, refl, ◌⊎◌, inl, inr, true, Bool-cases, Option,
  some, List, [], ◌∷◌, ◌++◌, length, length-set, length-append, length-replicate, length-take, set,
  replicate, take, ltb, ◌==◌, arith,
}

-- An array that has been given in steps of five bytes, for `i` of them.
pub record Grown (i : ℕ) (buffer : Option (List ℕ)) : Type 0 where
  pub array : List ℕ
  pub set_up : buffer ≡ some array
  pub steps : ℕ
  pub reaches : i ≤ 5 * steps
  pub tight : 5 * steps < i + 5
  pub capacity : 5 * steps ≤ length array

-- A string of `i` bytes so far: before the first its pointer may be anything.
abbrev pub Room : ℕ → Option (List ℕ) → Type 0
Room i buffer = (i ≡ 0) ⊎ Grown i buffer

-- A C string that ends.
abbrev pub Text : Option (List ℕ) → Type 0
Text buffer = (array : List ℕ) × (s : List ℕ) × (buffer ≡ some array) × (cstr array ≡ some s)

pub cstr-set : (a : List ℕ) (i : ℕ) → i < length a → (s : List ℕ) × (cstr (set a i 0) ≡ some s)
unfolding cstr
cstr-set [] i h = elim h [ ]
cstr-set (x ∷ a) zero h = ([], refl)
cstr-set (zero ∷ a) (suc i) h = ([], refl)
cstr-set (suc x ∷ a) (suc i) h = let (s, e) = cstr-set a i (omega arith) in (suc x ∷ s, rw e)

-- What `checkSize` gives has room for the next byte.
pub record Fits (i : ℕ) (array : List ℕ) : Type 0 where
  pub steps : ℕ
  pub above : i < 5 * steps
  pub tight : 5 * steps < i + 6
  pub capacity : 5 * steps ≤ length array

check_size-Fits :
    (buffer : Option (List ℕ)) (i : ℕ)
    → Room i buffer
    → (a : List ℕ) × (check_size buffer i ≡ some a) × Fits i a
unfolding check_size
check_size-Fits buffer i (inl e) = (
  replicate 5 0,
  rw e,
  record { steps = 1; above = omega (arith, e); tight = omega arith; capacity = omega arith },
)
check_size-Fits buffer i (inr g) = elim (Bool-cases (i % 5 == 0)) [
  | inl m ↦ elim (Bool-cases (i == 0)) [
    | inl z ↦ (
      replicate 5 0,
      rw (m, z),
      record { steps = 1; above = ground (arith, z); tight = omega arith; capacity = omega arith },
    )
    | inr nz ↦ (
      take (i + 5) (g.array ++ replicate (i + 5) 0),
      rw (m, nz, g.set_up),
      record {
        steps = i / 5 + 1;
        above = omega arith;
        tight = ground (arith, m);
        capacity = omega (
          arith,
          length-take (i + 5) (g.array ++ replicate (i + 5) 0),
          length-append g.array (replicate (i + 5) 0),
          length-replicate {A = ℕ} (i + 5) 0,
        );
      },
    )
  ]
  | inr o ↦ (
    g.array,
    rw o g.set_up,
    record {
      steps = g.steps;
      above = ground (arith, o, g.tight, g.reaches);
      tight = omega (arith, g.tight);
      capacity = g.capacity;
    },
  )
]

-- A byte of a string that grows finds its place.
pub store_char_lem :
    (buffer : Option (List ℕ)) (i b : ℕ)
    → Room i buffer
    → (a : List ℕ) × (store_char buffer i b ≡ some (set a i b))
      × (i < length a)
      × Grown (i + 1) (some (set a i b))
unfolding store_char set_byte
store_char_lem buffer i b room =
    let (a, e, f) = check_size-Fits buffer i room in
    let inside : i < length a = omega (arith, f.above, f.capacity) in
    let test : ltb i (length a) ≡ true = ground (arith, inside) in
    (
      a,
      rw (e, test),
      inside,
      record {
        array = set a i b;
        set_up = refl;
        steps = f.steps;
        reaches = omega (arith, f.above);
        tight = omega (arith, f.tight);
        capacity = omega (arith, f.capacity, length-set a i b);
      },
    )
