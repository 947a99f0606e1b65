-- ===== src/Prelude/Partial.antt =====
-- C code that can stop: `none` is a failed `assert`, an `abort`, or an access out of range.
-- `do` blocks chain such steps.
use mathlib.Core.Path.{◌≡◌, refl}
use mathlib.Core.Bool.{Bool, true, false}
use mathlib.Core.Option.{Option, none, some}

infixl 5 ◌>>=◌ ◌>>◌
abbrev pub ◌>>=◌ {ℓ κ} : {A : Type ℓ} {B : Type κ} → Option A → (A → Option B) → Option B
none >>= f = none
some a >>= f = f a

abbrev pub ◌>>◌ {ℓ} : {B : Type ℓ} → Option (Unit {0}) → Option B → Option B
m >> k = m >>= λ _. k

-- `assert(test)`
abbrev pub assert : Bool → Option (Unit {0})
assert true = some tt
assert false = none

-- A chain that comes to an end has passed each of its steps.
pub >>=-eq-some {ℓ κ} :
    {A : Type ℓ} {B : Type κ} (m : Option A) (f : A → Option B) {b : B}
    → (m >>= f) ≡ some b
    → (a : A) × (m ≡ some a) × (f a ≡ some b)
>>=-eq-some none f h = cc
>>=-eq-some (some a) f h = (a, refl, h)

pub assert-eq-some : (test : Bool) {u : Unit {0}} → assert test ≡ some u → test ≡ true
assert-eq-some true h = refl
assert-eq-some false h = cc

pub the_some {ℓ} : {A : Type ℓ} {a b : A} → some a ≡ some b → a ≡ b
the_some e = cc
