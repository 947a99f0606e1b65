-- ===== src/Client/Arrays.antt =====
-- What `strcpy` in src/client/clientUtils.c does to an array.
use proyecto_protos.Bytes.{set_byte, set-append_self}
use proyecto_protos.Client.{strcpy}
use proyecto_protos.Prelude.{
  ℕ, zero, suc, ◌+◌, ◌≤◌, ◌<◌, ◌≡◌, ◌∙◌, sym, ap, List, [], ◌∷◌, ◌++◌, append_assoc, none, some,
  length, length-append, length-set, drop, set, arith,
}

pub set_at :
    (pre old : List ℕ) (o v i : ℕ)
    → i ≡ length pre
    → set_byte (pre ++ (o ∷ old)) i v ≡ some (pre ++ (v ∷ old))
unfolding set_byte
set_at pre old o v i e =
    rw (e, set-append_self pre old o v) (ground (arith, length-append pre (o ∷ old)))

-- Behind what stands there comes the text, its terminator, and the rest of the array.
pub strcpy_at :
    (s pre old : List ℕ) (i : ℕ)
    → i ≡ length pre
    → length s < length old
    → strcpy (pre ++ old) i s ≡ some (pre ++ (s ++ (0 ∷ drop (suc (length s)) old)))
unfolding strcpy
strcpy_at s pre [] i e h = absurd (omega arith)
strcpy_at [] pre (o ∷ old) i e h = set_at pre old o 0 i e
strcpy_at (c ∷ cs) pre (o ∷ old) i e h =
    rw (set_at pre old o c i e, ← append_assoc pre (c ∷ []) old)
      (strcpy_at cs (pre ++ (c ∷ [])) old (suc i) (omega (arith, e, length-append pre (c ∷ [])))
          (omega arith)
        ∙ ap some (append_assoc pre (c ∷ []) (cs ++ (0 ∷ drop (suc (length cs)) old))))

-- The same behind one byte more.
pub strcpy_behind :
    (s pre old : List ℕ) (v i : ℕ)
    → i ≡ suc (length pre)
    → length s < length old
    → strcpy (pre ++ (v ∷ old)) i s ≡ some (pre ++ (v ∷ (s ++ (0 ∷ drop (suc (length s)) old))))
strcpy_behind s pre old v i e h =
    ap (λ l. strcpy l i s) (sym (append_assoc pre (v ∷ []) old))
    ∙ strcpy_at s (pre ++ (v ∷ [])) old i (omega (arith, e, length-append pre (v ∷ []))) h
    ∙ ap some (append_assoc pre (v ∷ []) (s ++ (0 ∷ drop (suc (length s)) old)))

-- A text that reaches the end of the array leaves no place for its terminator.
pub strcpy-none : (s array : List ℕ) (i : ℕ) → length array ≤ i + length s → strcpy array i s ≡ none
unfolding strcpy set_byte
strcpy-none [] array i h = ground arith
strcpy-none (c ∷ cs) array i h = ground (
  arith,
  length-set array i c,
  strcpy-none cs (set array i c) (suc i) (omega (arith, length-set array i c)),
)

pub length-drop : (n : ℕ) (xs : List ℕ) → n ≤ length xs → n + length (drop n xs) ≡ length xs
length-drop zero xs h = omega arith
length-drop (suc n) [] h = absurd (omega arith)
length-drop (suc n) (x ∷ xs) h = omega (arith, length-drop n xs (omega arith))
