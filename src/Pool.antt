-- ===== src/Pool.antt =====
-- The pool of `struct socks5` in src/socks5nio.c; src/mng_nio.c has one of its own, with the same code.
-- Objects are told apart by number. `malloc` is outside: what it gives is an argument.
pub mod Reuse
use proyecto_protos.Prelude.{
  ℕ, ◌+◌, ◌-◌, Option, none, some, List, [], ◌∷◌, ltb, ◌==◌, if◌then◌else◌,
}

-- `pool` and `pool_size`. The size is what the code counts, not the length of the list.
pub record Pool : Type 0 where
  pub objects : List ℕ
  pub size : ℕ

-- `max_pool`
abbrev pub max_pool : ℕ
max_pool = 50

-- How `socks5_new` gets its object: from the pool if that is not empty, else from `malloc`.
unfoldable pub take : Pool → Option ℕ → Option ℕ × Pool
take p fresh = elim p.objects [ [] ↦ (fresh, p) | x ∷ xs ↦ (some x, record p { objects = xs }) ]

-- `socks5_destroy` of an object with so many references; the first part is what they become.
unfoldable pub destroy : Pool → ℕ → ℕ → ℕ × Pool
destroy p object references =
    if references == 1
    then (
      references,
      if ltb p.size max_pool then record { objects = object ∷ p.objects; size = p.size + 1 } else p,
    )
    else (references - 1, p)
