-- ===== src/Mng/Listing.antt =====
-- What the replies of src/Etapas/mng_request.c hold.
use proyecto_protos.Buffer.{Buffer, contents, space, write_ptr, put}
use proyecto_protos.Buffer.Valid.{IsValid, filled, put_lem, filled-IsValid}
use proyecto_protos.Buffer.Fifo.{contents-filled}
use proyecto_protos.Mng.Marshal.{bytes_of, uint_marshall, measured, rows, list_users_marshall}
use proyecto_protos.Users.{User, Users, entry}
use proyecto_protos.Users.Table.{entries, Holds, length-free, get_elem?-entries, snoc}
use proyecto_protos.Prelude.{
  ℕ, ◌+◌, ◌-◌, ◌*◌, ◌%◌, ◌≤◌, ◌<◌, ◌≡◌, refl, ◌∙◌, ap, true, Option, none, some, List, [], ◌∷◌,
  ◌++◌, length, length-append, leb, if◌then◌else◌, arith,
}

-- The number that bytes stand for, lowest first.
abbrev pub value_of : List ℕ → ℕ
value_of [] = 0
value_of (x ∷ xs) = x + 256 * value_of xs

value_of-bytes_of : (v : ℕ) → v < 4294967296 → value_of (bytes_of v) ≡ v
value_of-bytes_of v h = omega arith

-- Where five bytes fit, a metric is replied as 0 and four bytes that stand for it modulo 2^32.
pub uint_roundtrip :
    (b : Buffer) (value : ℕ)
    → IsValid b
    → 5 ≤ space b
    → (b' : Buffer) × (xs : List ℕ) × (uint_marshall b value ≡ some b')
      × (contents b' ≡ contents b ++ (0x00 ∷ xs))
      × (length xs ≡ 4)
      × (value_of xs ≡ value % 4294967296)
      × IsValid b'
unfolding uint_marshall write_ptr
uint_roundtrip b value v h =
    let xs : List ℕ = bytes_of (value % 4294967296) in
    (
      filled b (0x00 ∷ xs),
      xs,
      ground (arith, put_lem b (0x00 ∷ xs) v h),
      contents-filled b (0x00 ∷ xs) v h,
      refl,
      value_of-bytes_of (value % 4294967296) (omega arith),
      filled-IsValid b (0x00 ∷ xs) v h,
    )

-- How long the names are together.
abbrev pub total : List User → ℕ
total [] = 0
total (u ∷ us) = length u.name + total us

measured_lem :
    (suf pre : List User) (free : List (Option User)) (i aux : ℕ)
    → i ≡ length pre
    → measured (entries pre ++ (entries suf ++ free)) i (length suf) aux
      ≡ some (if leb (total suf) aux then some suf else none)
unfolding measured entry
measured_lem [] pre free i aux e = ground arith
measured_lem (u ∷ suf) pre free i aux e =
    let rest : measured (entries pre ++ (some u ∷ (entries suf ++ free))) (i + 1) (length suf)
          (aux - length u.name)
        ≡ some (if leb (total suf) (aux - length u.name) then some suf else none) =
      rw (snoc pre u (entries suf ++ free)) (
        measured_lem suf (pre ++ (u ∷ [])) free (i + 1) (aux - length u.name)
          (omega (arith, e, length-append pre (u ∷ [])))) in
    let here : entry (entries pre ++ (some u ∷ (entries suf ++ free))) i ≡ some u =
      rw (e, get_elem?-entries pre (some u) (entries suf ++ free)) in
    rw (here, rest) (ground arith)

pub length-rows : (us : List User) → length (rows us) ≡ total us + length us
unfolding rows
length-rows [] = refl
length-rows (u ∷ us) = omega (arith, length-append u.name (rows us), length-rows us)

put-none : (b : Buffer) (bs : List ℕ) → IsValid b → space b < length bs → put b bs ≡ none
unfolding put
put-none b bs v h = ground arith

-- What `list_users_mng_request_marshall` does where the names alone fit.
listed :
    (b : Buffer) (t : Users) (us : List User)
    → IsValid b
    → Holds t us
    → 2 + total us ≤ space b
    → space b < 18446744073709551616
    → list_users_marshall b t ≡ put b (0x00 ∷ length us ∷ rows us)
unfolding list_users_marshall write_ptr
listed b t us v h fits big =
    let count : length us ≤ 255 =
      omega (arith, ap length h.filled ∙ length-free us h.free, h.capacity) in
    let aux : (space b + 18446744073709551614) % 18446744073709551616 ≡ space b - 2 = omega arith in
    let small : length us % 256 ≡ length us = omega arith in
    let found : measured t.slots 0 t.nusers (space b - 2) ≡ some (some us) =
      rw (h.filled, h.count) (measured_lem us [] h.free 0 (space b - 2) refl ∙ ground arith) in
    let open' : leb b.write b.limit ≡ true = ground (arith, v.write_le) in
    rw (open', aux, found, h.count, small)

-- Where the whole reply fits, it is 0, the number of users, and each name behind its length.
pub list_users_fits :
    (b : Buffer) (t : Users) (us : List User)
    → IsValid b
    → Holds t us
    → 2 + total us + length us ≤ space b
    → space b < 18446744073709551616
    → (b' : Buffer) × (list_users_marshall b t ≡ some b')
      × (contents b' ≡ contents b ++ (0x00 ∷ length us ∷ rows us))
      × IsValid b'
list_users_fits b t us v h fits big =
    let bytes : List ℕ = 0x00 ∷ length us ∷ rows us in
    let k : length bytes ≤ space b = omega (arith, length-rows us) in
    (
      filled b bytes,
      listed b t us v h (omega arith) big ∙ put_lem b bytes v k,
      contents-filled b bytes v k,
      filled-IsValid b bytes v k,
    )

-- Where the names fit and their lengths do not, the check lets the reply pass, which does not fit:
-- the code writes behind the buffer or stops at the `assert` of `buffer_write_adv`.
pub list_users_overflow :
    (b : Buffer) (t : Users) (us : List User)
    → IsValid b
    → Holds t us
    → 2 + total us ≤ space b
    → space b < 2 + total us + length us
    → space b < 18446744073709551616
    → list_users_marshall b t ≡ none
list_users_overflow b t us v h fits short big =
    listed b t us v h fits big
    ∙ put-none b (0x00 ∷ length us ∷ rows us) v (omega (arith, length-rows us))
