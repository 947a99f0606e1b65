-- ===== src/Server/Balance.antt =====
-- What the end of src/main.c gives back.
use proyecto_protos.Pool.{Pool}
use proyecto_protos.Pool as Pools
use proyecto_protos.Selector.{Selector, Item, Status, used, items_max_size}
use proyecto_protos.Selector.Ending.{told, destroy_lem}
use proyecto_protos.Server.{Masters}
use proyecto_protos.Server.Finish.{TwoPools, Finished, close, close_all, ended, finish}
use proyecto_protos.Prelude.{
  ℕ, suc, ◌≤◌, ◌<◌, ◌≡◌, refl, ◌∙◌, ap, ◌-◌, Bool, Bool-cases, inl, inr, true, some, List, [], ◌∷◌,
  length, get_elem?, min, ◌==◌, if◌then◌else◌, arith,
}

-- How often a number stands in a list.
abbrev pub count : ℕ → List ℕ → ℕ
count y [] = 0
count y (x ∷ xs) = if y == x then suc (count y xs) else count y xs

-- Each object that is told has as many references as it is told times.
abbrev pub IsBalanced : (ℕ → ℕ) → List ℕ → Type 0
IsBalanced references xs = (y : ℕ) → 1 ≤ count y xs → references y ≡ count y xs

left_lem :
    (is_mng : Bool) (object references : ℕ) (pools : TwoPools)
    → (close is_mng object references pools).0
      ≡ (if references == 1 then references else references - 1)
unfolding close Pools.destroy
left_lem is_mng object references pools = ground arith

-- The references of an object that is told.
head_lem :
    (references : ℕ → ℕ) (x y : ℕ) (xs : List ℕ)
    → IsBalanced references (x ∷ xs)
    → y == x ≡ true
    → references x ≡ suc (count y xs)
head_lem references x y xs balanced same =
    let e : x ≡ y = ground (arith, same) in
    ap references e ∙ ground (arith, same, balanced y (ground (arith, same)))

tail_lem :
    (references : ℕ → ℕ) (x left : ℕ) (xs : List ℕ)
    → IsBalanced references (x ∷ xs)
    → left ≡ (if references x == 1 then references x else references x - 1)
    → IsBalanced (λ z. if z == x then left else references z) xs
tail_lem references x left xs balanced became y some_left = elim (Bool-cases (y == x)) [
  | inl same ↦ ground (arith, same, became, head_lem references x y xs balanced same, some_left)
  | inr other ↦ ground (arith, other, balanced y (ground (arith, other, some_left)))
]

given_once :
    (is_mng : ℕ → Bool) (xs : List ℕ) (references : ℕ → ℕ) (pools : TwoPools)
    → IsBalanced references xs
    → (y : ℕ) → count y (close_all is_mng xs references pools).1 ≡ min 1 (count y xs)
unfolding close_all
given_once is_mng [] references pools balanced y = refl
given_once is_mng (x ∷ xs) references pools balanced y =
    let next = close (is_mng x) x (references x) pools in
    let rest =
      given_once is_mng xs (λ z. if z == x then next.0 else references z) next.1
        (tail_lem references x next.0 xs balanced (left_lem (is_mng x) x (references x) pools)) y in
    elim (Bool-cases (y == x)) [
      | inl same ↦ ground (arith, same, rest, head_lem references x y xs balanced same)
      | inr other ↦ ground (arith, other, rest)
    ]

-- Where each object has as many references as registered descriptors with a callback for their end, and
-- the descriptors in use can be watched, the end of `main` gives each of these objects back exactly once,
-- to its pool or to `free`, and no other object.
pub given_back_once :
    (ss : Status) (message : Bool) (s : Selector) (is_mng : ℕ → Bool) (references : ℕ → ℕ)
    (pools : TwoPools) (socks : Masters)
    → s.allocated ≡ true
    → s.fd_size ≡ length s.fds
    → ((n : ℕ) (it : Item) → get_elem? s.fds n ≡ some it → used it ≡ true → n < items_max_size)
    → IsBalanced references (told s.fds)
    → (e : Finished) × (finish ss message (some s) is_mng references pools socks ≡ some e)
      × ((y : ℕ) → count y e.given ≡ min 1 (count y (told s.fds)))
unfolding finish ended
given_back_once ss message s is_mng references pools socks made size watchable balanced = (
  ended ss message is_mng references pools socks (told s.fds),
  rw (destroy_lem s made size watchable) refl,
  given_once is_mng (told s.fds) references pools balanced,
)
