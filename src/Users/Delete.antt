-- ===== src/Users/Delete.antt =====
-- `deleteUser` of src/Etapas/mng_request.c on the table as a list: the first user of that name goes and
-- the later ones move up.
use proyecto_protos.Users.Table.{entries, Holds, get_elem?-entries, set-entries, snoc}
use proyecto_protos.Users.{
  User, Users, cstr, same_text, str_same, entry, delete_round, delete_loop, delete_user,
}
use proyecto_protos.Prelude.{
  ℕ, zero, suc, ◌+◌, ◌-◌, ◌≡◌, refl, ◌∙◌, sym, ap, Bool, true, false, Bool-cases, Option, none,
  some, List, [], ◌∷◌, ◌++◌, append_assoc, append-nil, inl, inr, the_some, length, length-append,
  length-set, get_elem?, set, if◌then◌else◌, ◌>>=◌, >>=-eq-some, arith,
}

-- The first user of that name is left out.
abbrev pub remove_first : List ℕ → List User → List User
remove_first name [] = []
remove_first name (u ∷ us) = if same_text name u.name then us else u ∷ remove_first name us

get_elem?-behind :
    (us : List User) (x y : Option User) (rest : List (Option User))
    → get_elem? (entries us ++ (x ∷ y ∷ rest)) (suc (length us)) ≡ some y
get_elem?-behind [] x y rest = refl
get_elem?-behind (u ∷ us) x y rest = get_elem?-behind us x y rest

move_up :
    (pre : List User) (x : Option User) (u : User) (rest : List (Option User)) (username : List ℕ)
    → delete_round (entries pre ++ (x ∷ some u ∷ rest)) username (suc (length pre)) true
      ≡ some (entries pre ++ (some u ∷ some u ∷ rest), true)
unfolding delete_round
move_up pre x u rest username =
    let back : suc (length pre) - 1 ≡ length pre = omega arith in
    rw (get_elem?-behind pre x (some u) rest, back, set-entries pre x (some u) (some u ∷ rest))

-- The rounds of `deleteUser` after the entry was found: what stands behind it moves up over `x`.
shift_lem :
    (suf pre : List User) (x : Option User) (free : List (Option User)) (username : List ℕ) (i : ℕ)
    → i ≡ suc (length pre)
    → (free' : List (Option User)) × (delete_loop
          (entries pre ++ (x ∷ (entries suf ++ free)))
          username
          i
          (length suf)
          true
        ≡ some (entries (pre ++ suf) ++ free', true))
unfolding delete_loop
shift_lem [] pre x free username i e = (x ∷ free, rw (append-nil pre))
shift_lem (u ∷ suf) pre x free username i e =
    let (free', q) =
      shift_lem suf (pre ++ (u ∷ [])) (some u) free username (i + 1)
        (omega (arith, length-append pre (u ∷ []))) in
    (
      free',
      ap (λ o. o >>= λ r. delete_loop r.0 username (i + 1) (length suf) r.1)
            (ap
                (λ k.
                  delete_round (entries pre ++ (x ∷ some u ∷ (entries suf ++ free))) username k
                    true)
                e
              ∙ move_up pre x u (entries suf ++ free) username)
          ∙ ap (λ l. delete_loop l username (i + 1) (length suf) true)
              (snoc pre u (some u ∷ (entries suf ++ free)))
          ∙ q
          ∙ ap (λ l. some (entries l ++ free', true)) (append_assoc pre (u ∷ []) suf),
    )

examine :
    (pre : List User) (u : User) (rest : List (Option User)) (username : List ℕ) {name : List ℕ}
    (i : ℕ)
    → cstr username ≡ some name
    → i ≡ length pre
    → delete_round (entries pre ++ (some u ∷ rest)) username i false
      ≡ some (
          if same_text name u.name
          then (entries pre ++ (none ∷ rest), true)
          else (entries pre ++ (some u ∷ rest), false))
unfolding delete_round entry str_same
examine pre u rest username i n e =
    rw (e, get_elem?-entries pre (some u) rest, n, set-entries pre (some u) none rest)

examine_same :
    (pre : List User) (u : User) (rest : List (Option User)) (username : List ℕ) {name : List ℕ}
    (i : ℕ)
    → cstr username ≡ some name
    → i ≡ length pre
    → same_text name u.name ≡ true
    → delete_round (entries pre ++ (some u ∷ rest)) username i false
      ≡ some (entries pre ++ (none ∷ rest), true)
examine_same pre u rest username i n e same = rw (examine pre u rest username i n e, same)

examine_other :
    (pre : List User) (u : User) (rest : List (Option User)) (username : List ℕ) {name : List ℕ}
    (i : ℕ)
    → cstr username ≡ some name
    → i ≡ length pre
    → same_text name u.name ≡ false
    → delete_round (entries pre ++ (some u ∷ rest)) username i false
      ≡ some (entries pre ++ (some u ∷ rest), false)
examine_other pre u rest username i n e other = rw (examine pre u rest username i n e, other)

-- How many entries the loop of `deleteUser` takes away.
abbrev gone : Bool → ℕ
gone found = if found then 1 else 0

-- The rounds before: the users passed so far do not have the name.
search_lem :
    (suf pre : List User) (free : List (Option User)) (username : List ℕ) {name : List ℕ} (i : ℕ)
    → cstr username ≡ some name
    → i ≡ length pre
    → (slots : List (Option User)) × (found : Bool) × (free' : List (Option User)) × (delete_loop
          (entries pre ++ (entries suf ++ free))
          username
          i
          (length suf)
          false
        ≡ some (slots, found))
      × (slots ≡ entries (pre ++ remove_first name suf) ++ free')
      × (length (remove_first name suf) + gone found ≡ length suf)
unfolding delete_loop
search_lem [] pre free username i n e = (
  entries pre ++ free,
  false,
  free,
  refl,
  ap (λ l. entries l ++ free) (sym (append-nil pre)),
  omega arith,
)
search_lem (u ∷ suf) pre free username {name} i n e = elim (Bool-cases (same_text name u.name)) [
  | inl same ↦
      (let (free', q) = shift_lem suf pre none free username (i + 1) (omega arith) in
        (
          entries (pre ++ suf) ++ free',
          true,
          free',
          ap (λ o. o >>= λ r. delete_loop r.0 username (i + 1) (length suf) r.1)
                (examine_same pre u (entries suf ++ free) username i n e same)
              ∙ q,
          rw same,
          rw same (omega arith),
        ))
  | inr other ↦
      (let (slots, found, free', q, f, k) =
          search_lem suf (pre ++ (u ∷ [])) free username (i + 1) n
            (omega (arith, length-append pre (u ∷ []))) in
        (
          slots,
          found,
          free',
          ap (λ o. o >>= λ r. delete_loop r.0 username (i + 1) (length suf) r.1)
                (examine_other pre u (entries suf ++ free) username i n e other)
              ∙ ap (λ l. delete_loop l username (i + 1) (length suf) false)
                  (snoc pre u (entries suf ++ free))
              ∙ q,
          rw other (
              f ∙ ap (λ l. entries l ++ free') (append_assoc pre (u ∷ []) (remove_first name suf))),
          rw other (omega (arith, k)),
        ))
]

same_length :
    (slots : List (Option User)) (i : ℕ) (found : Bool)
    → length
        (if◌then◌else◌ {A = List (Option User) × Bool} found
          (set slots i none, true)
          (slots, false)).0
      ≡ length slots
same_length slots i true = length-set slots i none
same_length slots i false = refl

round-length :
    (slots : List (Option User)) (username : List ℕ) (i : ℕ) (deleted : Bool)
    {r : List (Option User) × Bool}
    → delete_round slots username i deleted ≡ some r
    → length r.0 ≡ length slots
unfolding delete_round
round-length slots username i true q =
    let (o, e, e') = >>=-eq-some (get_elem? slots i) _ q in
    sym (ap (λ p. length p.0) (the_some e')) ∙ length-set slots (i - 1) o
round-length slots username i false q =
    let (u, e, q') = >>=-eq-some (entry slots i) _ q in
    let (found, e', q'') = >>=-eq-some (str_same username u.name) _ q' in
    sym (ap (λ p. length p.0) (the_some q'')) ∙ same_length slots i found

loop-length :
    (left : ℕ) (slots : List (Option User)) (username : List ℕ) (i : ℕ) (deleted : Bool)
    {r : List (Option User) × Bool}
    → delete_loop slots username i left deleted ≡ some r
    → length r.0 ≡ length slots
unfolding delete_loop
loop-length zero slots username i deleted q = sym (ap (λ p. length p.0) (the_some q))
loop-length (suc left) slots username i deleted q =
    let (r, e, q') = >>=-eq-some (delete_round slots username i deleted) _ q in
    loop-length left r.0 username (i + 1) r.1 q' ∙ round-length slots username i deleted e

fewer :
    (found : Bool) (kept total : ℕ)
    → kept + gone found ≡ total
    → (if found then total - 1 else total) ≡ kept
fewer true kept total k = omega (arith, k)
fewer false kept total k = omega (arith, k)

-- `deleteUser` removes the first user of that name, if there is one, keeps the order of the others,
-- and never reads outside the table.
pub delete_user_lem :
    (t : Users) (us : List User) (username : List ℕ) {name : List ℕ}
    → Holds t us
    → cstr username ≡ some name
    → (t' : Users) × (delete_user t username ≡ some t') × Holds t' (remove_first name us)
unfolding delete_user
delete_user_lem t us username {name} h n =
    let (slots, found, free', q, f, k) = search_lem us [] h.free username 0 n refl in
    (
      record { slots = slots; nusers = if found then t.nusers - 1 else t.nusers },
      rw (h.filled, h.count, q),
      record {
        free = free';
        filled = f;
        count = rw h.count (fewer found (length (remove_first name us)) (length us) k);
        capacity =
            loop-length t.nusers t.slots username 0 false {r = (slots, found)}
              (rw (h.filled, h.count, q))
            ∙ h.capacity;
      },
    )
