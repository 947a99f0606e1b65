-- ===== src/Users/Table.antt =====
-- The table of users as a list of users, and `addUser` of src/Etapas/mng_request.c on it.
use proyecto_protos.Bytes.{set-append_self}
use proyecto_protos.Users.{User, Users, max_users, cstr, add_user}
use proyecto_protos.Prelude.{
  ℕ, suc, ◌+◌, ◌≤◌, ◌<◌, ◌≡◌, refl, ◌∙◌, ap, ◌⊎◌, inl, inr, Bool-cases, Option, some, List, [], ◌∷◌,
  ◌++◌, append_assoc, length, length-append, length-set, get_elem?, set, leb, arith,
}

-- The entries of a list of users.
abbrev pub entries : List User → List (Option User)
entries [] = []
entries (u ∷ us) = some u ∷ entries us

-- The table holds these users, in this order, in its first entries.
pub record Holds (t : Users) (us : List User) : Type 0 where
  pub free : List (Option User)
  pub filled : t.slots ≡ entries us ++ free
  pub count : t.nusers ≡ length us
  pub capacity : length t.slots ≡ max_users

length-entries : (us : List User) → length (entries us) ≡ length us
length-entries [] = refl
length-entries (u ∷ us) = ap suc (length-entries us)

entries-append : (us vs : List User) → entries (us ++ vs) ≡ entries us ++ entries vs
entries-append [] vs = refl
entries-append (u ∷ us) vs = ap (λ l. some u ∷ l) (entries-append us vs)

pub get_elem?-append_self {ℓ} :
    {A : Type ℓ} (xs ys : List A) (y : A) → get_elem? (xs ++ (y ∷ ys)) (length xs) ≡ some y
get_elem?-append_self [] ys y = refl
get_elem?-append_self (x ∷ xs) ys y = get_elem?-append_self xs ys y

-- The entry behind the first users.
pub get_elem?-entries :
    (us : List User) (o : Option User) (rest : List (Option User))
    → get_elem? (entries us ++ (o ∷ rest)) (length us) ≡ some o
get_elem?-entries us o rest = rw (← length-entries us) (get_elem?-append_self (entries us) rest o)

pub set-entries :
    (us : List User) (o v : Option User) (rest : List (Option User))
    → set (entries us ++ (o ∷ rest)) (length us) v ≡ entries us ++ (v ∷ rest)
set-entries us o v rest = rw (← length-entries us) (set-append_self (entries us) rest o v)

pub snoc :
    (us : List User) (u : User) (rest : List (Option User))
    → entries us ++ (some u ∷ rest) ≡ entries (us ++ (u ∷ [])) ++ rest
snoc us u rest = rw (entries-append us (u ∷ []), append_assoc (entries us) (some u ∷ []) rest)

pub length-free :
    (us : List User) (free : List (Option User))
    → length (entries us ++ free) ≡ length us + length free
length-free us free = rw (length-append, length-entries us)

-- Where an entry is free, `addUser` fills it.
pub added :
    (t : Users) (us : List User) (u : User) (free : List (Option User))
    → t.slots ≡ entries us ++ free
    → t.nusers ≡ length us
    → length t.slots ≡ max_users
    → length us < max_users
    → (old : Option User) × (get_elem? t.slots t.nusers ≡ some old)
      × Holds
          (record { slots = set t.slots t.nusers (some u); nusers = t.nusers + 1 })
          (us ++ (u ∷ []))
added t us u [] f c k l = absurd (omega (arith, ap length f ∙ length-free us []))
added t us u (o ∷ free) f c k l = (
  o,
  rw (f, c) (get_elem?-entries us o free),
  record {
    free = free;
    filled = rw (f, c) (set-entries us o (some u) free ∙ snoc us u free);
    count = rw c (omega (arith, length-append us (u ∷ [])));
    capacity = length-set t.slots t.nusers (some u) ∙ k;
  },
)

-- `addUser` of what fits appends the user; with 255 users it changes nothing.
pub add_user_lem :
    (t : Users) (us : List User) (username password : List ℕ) {name pass : List ℕ}
    → Holds t us
    → cstr username ≡ some name
    → cstr password ≡ some pass
    → (t' : Users) × (add_user t username password ≡ some t')
      × ((length us < max_users) × Holds t' (us ++ (record { name = name; pass = pass } ∷ []))
          ⊎ (length us ≡ max_users) × (t' ≡ t))
unfolding add_user
add_user_lem t us username password {name} {pass} h n p =
    let room : length us ≤ max_users =
      omega (arith, ap length h.filled ∙ length-free us h.free, h.capacity) in
    elim (Bool-cases (leb max_users t.nusers)) [
      | inl full ↦ (t, rw full, inr (ground (arith, h.count, room), refl))
      | inr open' ↦
          (let fits : length us < max_users = ground (arith, h.count) in
            let u : User = record { name = name; pass = pass } in
            let (old, e, h') = added t us u h.free h.filled h.count h.capacity fits in
            (
              record { slots = set t.slots t.nusers (some u); nusers = t.nusers + 1 },
              rw (open', n, p, e),
              inl (fits, h'),
            ))
    ]
