-- ===== src/Buffer/Window.antt =====
-- The part of an array between two offsets, and a block copied into an array.
use proyecto_protos.Prelude.{
  ℕ, zero, suc, ◌+◌, ◌-◌, ◌≤◌, ◌<◌, ◌≡◌, refl, ap, List, [], ◌∷◌, ◌++◌, some, length, get_elem?,
  drop, ◌∙◌, arith,
}

abbrev pub window : ℕ → ℕ → List ℕ → List ℕ
window r w [] = []
window r zero (x ∷ xs) = []
window zero (suc w) (x ∷ xs) = x ∷ window zero w xs
window (suc r) (suc w) (x ∷ xs) = window r w xs

-- `overwrite i bs mem` is `mem` with `bs` from index `i` on; what would fall outside is lost.
abbrev pub overwrite : ℕ → List ℕ → List ℕ → List ℕ
overwrite i bs [] = []
overwrite zero [] (x ∷ mem) = x ∷ mem
overwrite zero (b ∷ bs) (x ∷ mem) = b ∷ overwrite zero bs mem
overwrite (suc i) bs (x ∷ mem) = x ∷ overwrite i bs mem

pub length-overwrite : (i : ℕ) (bs mem : List ℕ) → length (overwrite i bs mem) ≡ length mem
length-overwrite i bs [] = refl
length-overwrite zero [] (x ∷ mem) = refl
length-overwrite zero (b ∷ bs) (x ∷ mem) = ap suc (length-overwrite zero bs mem)
length-overwrite (suc i) bs (x ∷ mem) = ap suc (length-overwrite i bs mem)

pub window-empty : (r w : ℕ) (mem : List ℕ) → w ≤ r → window r w mem ≡ []
window-empty r w [] h = refl
window-empty r zero (x ∷ mem) h = refl
window-empty zero (suc w) (x ∷ mem) h = elim h [ ]
window-empty (suc r) (suc w) (x ∷ mem) h = window-empty r w mem (omega arith)

pub length-window : (r w : ℕ) (mem : List ℕ) → w ≤ length mem → length (window r w mem) ≡ w - r
length-window r w [] h = omega arith
length-window r zero (x ∷ mem) h = omega arith
length-window zero (suc w) (x ∷ mem) h = omega (arith, length-window zero w mem)
length-window (suc r) (suc w) (x ∷ mem) h = omega (arith, length-window r w mem)

pub window-cons :
    (r w : ℕ) (mem : List ℕ) {c : ℕ}
    → r < w
    → get_elem? mem r ≡ some c
    → window r w mem ≡ c ∷ window (suc r) w mem
window-cons r w [] h e = absurd (ground arith)
window-cons r zero (x ∷ mem) h e = elim h [ ]
window-cons zero (suc w) (x ∷ mem) {c} h e =
    ap {B = List ℕ} (λ k. k ∷ window zero w mem) (ground arith)
window-cons (suc r) (suc w) (x ∷ mem) h e = window-cons r w mem (omega arith) e

drop-nil : (n : ℕ) → drop {A = ℕ} n [] ≡ []
drop-nil zero = refl
drop-nil (suc n) = refl

drop-window_at : (n r w s : ℕ) (mem : List ℕ) → s ≡ r + n → drop n (window r w mem) ≡ window s w mem
drop-window_at n r w s [] e = drop-nil n
drop-window_at n r zero s (x ∷ mem) e = drop-nil n
drop-window_at zero zero (suc w) zero (x ∷ mem) e = refl
drop-window_at zero zero (suc w) (suc s) (x ∷ mem) e = absurd (omega arith)
drop-window_at (suc n) zero (suc w) zero (x ∷ mem) e = absurd (omega arith)
drop-window_at (suc n) zero (suc w) (suc s) (x ∷ mem) e =
    drop-window_at n zero w s mem (omega arith)
drop-window_at n (suc r) (suc w) zero (x ∷ mem) e = absurd (omega arith)
drop-window_at n (suc r) (suc w) (suc s) (x ∷ mem) e = drop-window_at n r w s mem (omega arith)

-- Moving the left end drops bytes.
pub drop-window : (n r w : ℕ) (mem : List ℕ) → drop n (window r w mem) ≡ window (r + n) w mem
drop-window n r w mem = drop-window_at n r w (r + n) mem refl

window-nil : (r w : ℕ) (mem : List ℕ) → length mem ≤ r → window r w mem ≡ []
window-nil r w [] h = refl
window-nil zero w (x ∷ mem) h = elim h [ ]
window-nil (suc r) zero (x ∷ mem) h = refl
window-nil (suc r) (suc w) (x ∷ mem) h = window-nil r w mem (omega arith)

window-overwrite_at :
    (r w e : ℕ) (bs mem : List ℕ)
    → r ≤ w
    → e ≡ w + length bs
    → e ≤ length mem
    → window r e (overwrite w bs mem) ≡ window r w mem ++ bs
window-overwrite_at r w e [] [] h k l = refl
window-overwrite_at r w e (b ∷ bs) [] h k l = absurd (omega arith)
window-overwrite_at zero zero zero [] (x ∷ mem) h k l = refl
window-overwrite_at zero zero zero (b ∷ bs) (x ∷ mem) h k l = absurd (omega arith)
window-overwrite_at zero zero (suc e) [] (x ∷ mem) h k l = absurd (omega arith)
window-overwrite_at zero zero (suc e) (b ∷ bs) (x ∷ mem) h k l =
    ap {B = List ℕ} (λ t. b ∷ t)
      (window-overwrite_at zero zero e bs mem h (omega arith) (omega arith)
        ∙ ap (λ t. t ++ bs) (window-empty zero zero mem h))
window-overwrite_at zero (suc w) zero bs (x ∷ mem) h k l = absurd (omega arith)
window-overwrite_at zero (suc w) (suc e) bs (x ∷ mem) h k l =
    ap {B = List ℕ} (λ t. x ∷ t)
      (window-overwrite_at zero w e bs mem (omega arith) (omega arith) (omega arith))
window-overwrite_at (suc r) zero e bs (x ∷ mem) h k l = elim h [ ]
window-overwrite_at (suc r) (suc w) zero bs (x ∷ mem) h k l = absurd (omega arith)
window-overwrite_at (suc r) (suc w) (suc e) bs (x ∷ mem) h k l =
    window-overwrite_at r w e bs mem (omega arith) (omega arith) (omega arith)

-- Bytes stored at the right end, which then moves over them.
pub window-overwrite :
    (r w : ℕ) (bs mem : List ℕ)
    → r ≤ w
    → w + length bs ≤ length mem
    → window r (w + length bs) (overwrite w bs mem) ≡ window r w mem ++ bs
window-overwrite r w bs mem h k = window-overwrite_at r w (w + length bs) bs mem h refl k

-- A block copied to the front is what the front then holds.
pub window-overwrite_front :
    (bs mem : List ℕ) → length bs ≤ length mem → window 0 (length bs) (overwrite 0 bs mem) ≡ bs
window-overwrite_front [] [] h = refl
window-overwrite_front [] (x ∷ mem) h = refl
window-overwrite_front (b ∷ bs) [] h = elim h [ ]
window-overwrite_front (b ∷ bs) (x ∷ mem) h =
    ap (λ l. b ∷ l) (window-overwrite_front bs mem (omega arith))
