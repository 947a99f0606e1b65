-- ===== src/Users/Lookup.antt =====
-- `checkCredentials` and `checkMngCredentials` of src/Etapas/authentication.c on the table as a list.
use proyecto_protos.Users.Table.{entries, Holds, get_elem?-entries, snoc}
use proyecto_protos.Users.{
  User, Users, cstr, same_text, str_same, entry, matches, find_user, check_credentials,
  check_mng_credentials,
}
use proyecto_protos.Prelude.{
  ℕ, zero, suc, ◌+◌, ◌≡◌, refl, ◌∙◌, sym, ap, ◌⊎◌, inl, inr, Bool, true, false, Bool-cases, ◌&&◌,
  Option, none, some, List, [], ◌∷◌, ◌++◌, get_elem?, the_some, ◌==◌, length, length-append,
  if◌then◌else◌, arith,
}

-- What C takes a string of those bytes for.
abbrev pub until_zero : List ℕ → List ℕ
until_zero [] = []
until_zero (zero ∷ bs) = []
until_zero (suc b ∷ bs) = suc b ∷ until_zero bs

pub cstr-terminated : (bs : List ℕ) → cstr (bs ++ (0 ∷ [])) ≡ some (until_zero bs)
unfolding cstr
cstr-terminated [] = refl
cstr-terminated (zero ∷ bs) = refl
cstr-terminated (suc b ∷ bs) = rw (cstr-terminated bs)

-- The index, from `i` on, of the first user of that name and that password.
abbrev pub index_of : List ℕ → List ℕ → ℕ → List User → Option ℕ
index_of name pass i [] = none
index_of name pass i (u ∷ us) =
    if same_text name u.name && same_text pass u.pass then some i else index_of name pass (i + 1) us

match_lem :
    (u : User) (username password : List ℕ) {name pass : List ℕ}
    → cstr username ≡ some name
    → cstr password ≡ some pass
    → matches u username password ≡ some (same_text name u.name && same_text pass u.pass)
unfolding matches str_same
match_lem u username password n p = ground (arith, n, p)

find_lem :
    (suf pre : List User) (free : List (Option User)) (username password : List ℕ)
    {name pass : List ℕ} (i : ℕ)
    → cstr username ≡ some name
    → cstr password ≡ some pass
    → i ≡ length pre
    → find_user (entries pre ++ (entries suf ++ free)) username password i (length suf)
      ≡ some (index_of name pass i suf)
unfolding find_user entry
find_lem [] pre free username password i n p e = refl
find_lem (u ∷ suf) pre free username password {name} {pass} i n p e =
    let rest : find_user (entries pre ++ (some u ∷ (entries suf ++ free))) username password (i + 1)
          (length suf)
        ≡ some (index_of name pass (i + 1) suf) =
      rw (snoc pre u (entries suf ++ free)) (
        find_lem suf (pre ++ (u ∷ [])) free username password (i + 1) n p
          (omega (arith, e, length-append pre (u ∷ [])))) in
    let here : entry (entries pre ++ (some u ∷ (entries suf ++ free))) i ≡ some u =
      rw (e, get_elem?-entries pre (some u) (entries suf ++ free)) in
    rw (here, match_lem u username password n p, rest) (ground arith)

same_text_self : (xs : List ℕ) → same_text xs xs ≡ true
unfolding same_text
same_text_self [] = refl
same_text_self (x ∷ xs) = ground (arith, same_text_self xs)

both : (x y : Bool) → (x && y) ≡ true → (x ≡ true) × (y ≡ true)
both true y h = (refl, h)
both false y h = cc

same_text-eq : (xs ys : List ℕ) → same_text xs ys ≡ true → xs ≡ ys
unfolding same_text
same_text-eq [] [] h = refl
same_text-eq [] (y ∷ ys) h = cc
same_text-eq (x ∷ xs) [] h = cc
same_text-eq (x ∷ xs) (y ∷ ys) h =
    let (e, k) = both (x == y) (same_text xs ys) h in
    let q : x ≡ y = ground (arith, e) in rw (q, same_text-eq xs ys k)

-- A user that the search finds.
abbrev Found : List ℕ → List ℕ → ℕ → List User → Option ℕ → Type 0
Found name pass i us r =
    (n : ℕ) × (u : User) × (r ≡ some (i + n))
    × (get_elem? us n ≡ some u)
    × (u.name ≡ name)
    × (u.pass ≡ pass)

-- No user has that name and that password.
abbrev pub Absent : List ℕ → List ℕ → List User → Type 0
Absent name pass us =
    (n : ℕ) (u : User) → get_elem? us n ≡ some u → u.name ≡ name → ¬ (u.pass ≡ pass)

later :
    (name pass : List ℕ) (i : ℕ) (v : User) (us : List User) (r : Option ℕ)
    → Found name pass (i + 1) us r
    → Found name pass i (v ∷ us) r
later name pass i v us r (n, u, e, f, g, h) = (suc n, u, e ∙ ap some (omega arith), f, g, h)

Absent-cons :
    (name pass : List ℕ) (v : User) (us : List User)
    → (same_text name v.name && same_text pass v.pass) ≡ false
    → Absent name pass us
    → Absent name pass (v ∷ us)
Absent-cons name pass v us o h zero u e n p =
    let named : v.name ≡ name = ap (λ w. w.name) (the_some e) ∙ n in
    let known : v.pass ≡ pass = ap (λ w. w.pass) (the_some e) ∙ p in
    let agrees : (same_text name v.name && same_text pass v.pass) ≡ true =
      rw (named, known, same_text_self name, same_text_self pass) in
    absurd (cc (o, agrees))
Absent-cons name pass v us o h (suc k) u e n p = h k u e n p

-- What the search finds, and what it says of the list when it finds nothing.
index_of-cases :
    (name pass : List ℕ) (i : ℕ) (us : List User)
    → Found name pass i us (index_of name pass i us)
      ⊎ (index_of name pass i us ≡ none) × Absent name pass us
index_of-cases name pass i [] = inr (refl, λ n u e. cc)
index_of-cases name pass i (v ∷ us) =
    elim (Bool-cases (same_text name v.name && same_text pass v.pass)) [
      | inl here ↦
          (let (x, y) = both (same_text name v.name) (same_text pass v.pass) here in
            inl (
              zero,
              v,
              rw here (ap some (omega arith)),
              refl,
              sym (same_text-eq name v.name x),
              sym (same_text-eq pass v.pass y),
            ))
      | inr other ↦ elim (index_of-cases name pass (i + 1) us) [
        | inl f ↦ inl (rw other (later name pass i v us (index_of name pass (i + 1) us) f))
        | inr (e, a) ↦ inr (rw other e, Absent-cons name pass v us other a)
      ]
    ]

-- How the loop of both checks ends.
search_lem :
    (t : Users) (us : List User) (username password : List ℕ) {name pass : List ℕ}
    → Holds t us
    → cstr username ≡ some name
    → cstr password ≡ some pass
    → find_user t.slots username password 0 t.nusers ≡ some (index_of name pass 0 us)
search_lem t us username password h n p =
    rw (h.filled, h.count) (find_lem us [] h.free username password 0 n p refl)

-- On a table that holds a list of users, `checkCredentials` answers 0 and gives the place of a user
-- with that name and that password, or it answers 1, keeps the place, and no user has both.
pub check_credentials_lem :
    (t : Users) (us : List User) (username password : List ℕ) (user_index : ℕ) {name pass : List ℕ}
    → Holds t us
    → cstr username ≡ some name
    → cstr password ≡ some pass
    → ((n : ℕ) × (u : User) × (check_credentials t username password user_index ≡ some (0x00, n))
        × (get_elem? us n ≡ some u)
        × (u.name ≡ name)
        × (u.pass ≡ pass))
      ⊎ (check_credentials t username password user_index ≡ some (0x01, user_index))
        × Absent name pass us
unfolding check_credentials
check_credentials_lem t us username password user_index {name} {pass} h n p =
    let found = search_lem t us username password h n p in
    elim (index_of-cases name pass 0 us) [
      | inl (k, u, e, f, g, q) ↦
          inl (k, u, rw (found, e) (ap (λ j. some (0x00, j)) (omega arith)), f, g, q)
      | inr (e, a) ↦ inr (rw (found, e), a)
    ]

-- `checkMngCredentials` answers 0, and there is an administrator with that name and that password, or it
-- answers 1, and there is none.
pub check_mng_credentials_lem :
    (t : Users) (us : List User) (username password : List ℕ) {name pass : List ℕ}
    → Holds t us
    → cstr username ≡ some name
    → cstr password ≡ some pass
    → ((n : ℕ) × (u : User) × (check_mng_credentials t username password ≡ some 0x00)
        × (get_elem? us n ≡ some u)
        × (u.name ≡ name)
        × (u.pass ≡ pass))
      ⊎ (check_mng_credentials t username password ≡ some 0x01) × Absent name pass us
unfolding check_mng_credentials
check_mng_credentials_lem t us username password {name} {pass} h n p =
    let found = search_lem t us username password h n p in
    elim (index_of-cases name pass 0 us) [
      | inl (k, u, e, f, g, q) ↦ inl (k, u, rw (found, e) refl, f, g, q)
      | inr (e, a) ↦ inr (rw (found, e) refl, a)
    ]
