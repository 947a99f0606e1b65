-- ===== src/Bytes.antt =====
-- Bytes written one after the other into an array, as the parsers do.
use proyecto_protos.Prelude.{
  ℕ, zero, suc, ◌≤◌, ◌≡◌, refl, ◌∙◌, ap, List, [], ◌∷◌, ◌++◌, append-nil, Option, none, some,
  length, set, drop, replicate, length-replicate, ltb, if◌then◌else◌, arith,
}

-- `a[i] = b`; outside the array it is `none`.
unfoldable pub set_byte : List ℕ → ℕ → ℕ → Option (List ℕ)
set_byte l i b = if ltb i (length l) then some (set l i b) else none

-- Bytes stored one after the other from an index on.
abbrev pub store : ℕ → List ℕ → List ℕ → List ℕ
store i [] bytes = bytes
store i (b ∷ bs) bytes = store (suc i) bs (set bytes i b)

store-cons : (i x : ℕ) (bs xs : List ℕ) → store (suc i) bs (x ∷ xs) ≡ x ∷ store i bs xs
store-cons i x [] xs = refl
store-cons i x (b ∷ bs) xs = store-cons (suc i) x bs (set xs i b)

pub store_lem : (bs xs : List ℕ) → length bs ≤ length xs → store 0 bs xs ≡ bs ++ drop (length bs) xs
store_lem [] xs h = refl
store_lem (b ∷ bs) [] h = elim h [ ]
store_lem (b ∷ bs) (x ∷ xs) h =
    store-cons 0 b bs xs ∙ ap (λ l. b ∷ l) (store_lem bs xs (omega arith))

pub drop-set : (k v : ℕ) (xs : List ℕ) → drop (suc k) (set xs k v) ≡ drop (suc k) xs
drop-set k v [] = refl
drop-set zero v (x ∷ xs) = refl
drop-set (suc k) v (x ∷ xs) = drop-set k v xs

pub drop_all : (xs : List ℕ) → drop (length xs) xs ≡ []
drop_all [] = refl
drop_all (x ∷ xs) = drop_all xs

pub exact : (bs base : List ℕ) → length base ≡ length bs → bs ++ drop (length bs) base ≡ bs
exact bs base e = rw (← e, drop_all base) (append-nil bs)

pub set-append_self {ℓ} :
    {A : Type ℓ} (xs ys : List A) (y v : A) → set (xs ++ (y ∷ ys)) (length xs) v ≡ xs ++ (v ∷ ys)
set-append_self [] ys y v = refl
set-append_self (x ∷ xs) ys y v = ap (λ l. x ∷ l) (set-append_self xs ys y v)

pub set-set {ℓ} : {A : Type ℓ} (xs : List A) (i : ℕ) (v w : A) → set (set xs i v) i w ≡ set xs i w
set-set [] i v w = refl
set-set (x ∷ xs) zero v w = refl
set-set (x ∷ xs) (suc i) v w = ap (λ l. x ∷ l) (set-set xs i v w)

drop-replicate : (n : ℕ) → drop {A = ℕ} n (replicate (suc n) 0) ≡ 0 ∷ []
drop-replicate zero = refl
drop-replicate (suc n) = drop-replicate n

-- Bytes stored into a fresh array with one place more, and a terminator behind them.
pub stored_string :
    (bs : List ℕ) (n : ℕ)
    → length bs ≡ n
    → set (store 0 bs (replicate (suc n) 0)) n 0 ≡ bs ++ (0 ∷ [])
stored_string bs n e =
    rw
      (
        store_lem bs (replicate (suc n) 0) (omega (arith, length-replicate {A = ℕ} (suc n) 0)),
        e,
        drop-replicate n,
        ← e,
      )
      (set-append_self bs [] 0 0)
