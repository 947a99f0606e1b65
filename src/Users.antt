-- ===== src/Users.antt =====
-- The table of users: `struct users` of include/socks5nio.h, `checkCredentials` and
-- `checkMngCredentials` of src/Etapas/authentication.c, `addUser`, `deleteUser` of
-- src/Etapas/mng_request.c. An access outside the table, a string with no end and a use of NULL are
-- `none`; `malloc` is not checked there, and is taken to succeed.
pub mod Table
pub mod Delete
pub mod Lookup
use proyecto_protos.Prelude.{
  ℕ, zero, suc, ◌+◌, ◌-◌, Bool, true, false, not, ◌&&◌, Option, none, some, List, [], ◌∷◌,
  get_elem?, set, leb, ◌==◌, if◌then◌else◌, ◌>>=◌,
}

-- MAX_USERS
abbrev pub max_users : ℕ
max_users = 255

-- A name and a password, each without its terminator.
pub record User : Type 0 where
  pub name : List ℕ
  pub pass : List ℕ

-- `users` and `nusers`; the pointers of an entry are NULL together.
pub record Users : Type 0 where
  pub slots : List (Option User)
  pub nusers : ℕ

-- The C string in an array.
unfoldable pub cstr : List ℕ → Option (List ℕ)
cstr [] = none
cstr (zero ∷ bs) = some []
cstr (suc b ∷ bs) = do s ← cstr bs; some (suc b ∷ s)

unfoldable pub same_text : List ℕ → List ℕ → Bool
same_text [] [] = true
same_text [] (y ∷ ys) = false
same_text (x ∷ xs) [] = false
same_text (x ∷ xs) (y ∷ ys) = x == y && same_text xs ys

-- `strcmp(array, text) == 0`
unfoldable pub str_same : List ℕ → List ℕ → Option Bool
str_same array text = do s ← cstr array; some (same_text s text)

-- An entry that is used as a string.
unfoldable pub entry : List (Option User) → ℕ → Option User
entry slots i = do o ← get_elem? slots i; o

-- The test of one user in `checkCredentials`: the password is compared only if the name agrees.
unfoldable pub matches : User → List ℕ → List ℕ → Option Bool
matches u username password = do
  named ← str_same username u.name
  let known : Option Bool = str_same password u.pass
  if named then known else some false

-- The loop of `checkCredentials` and of `checkMngCredentials`, from entry `i` on for so many entries:
-- the index of the first that agrees.
unfoldable pub find_user : List (Option User) → List ℕ → List ℕ → ℕ → ℕ → Option (Option ℕ)
find_user slots username password i zero = some none
find_user slots username password i (suc left) = do
  u ← entry slots i
  found ← matches u username password
  let rest = find_user slots username password (i + 1) left
  if found then some (some i) else rest

-- `checkCredentials`: its answer, and `userIndex` after it.
unfoldable pub check_credentials : Users → List ℕ → List ℕ → ℕ → Option (ℕ × ℕ)
check_credentials t username password user_index = do
  found ← find_user t.slots username password 0 t.nusers
  some (elim found [ none ↦ (0x01, user_index) | some i ↦ (0x00, i) ])

-- `checkMngCredentials`, on the table of administrators.
unfoldable pub check_mng_credentials : Users → List ℕ → List ℕ → Option ℕ
check_mng_credentials t username password = do
  found ← find_user t.slots username password 0 t.nusers
  some (elim found [ none ↦ 0x01 | some i ↦ 0x00 ])

unfoldable pub add_user : Users → List ℕ → List ℕ → Option Users
add_user t username password =
    let added : Option Users = (do
      name ← cstr username
      pass ← cstr password
      old ← get_elem? t.slots t.nusers
      some (record {
        slots = set t.slots t.nusers (some (record { name = name; pass = pass }));
        nusers = t.nusers + 1;
      })) in
    if leb max_users t.nusers then some t else added

-- One round of the loop of `deleteUser`, at entry `i`: once an entry is `deleted` the later ones move
-- up.
unfoldable pub delete_round :
    List (Option User) → List ℕ → ℕ → Bool → Option (List (Option User) × Bool)
delete_round slots username i true = do o ← get_elem? slots i; some (set slots (i - 1) o, true)
delete_round slots username i false = do
  u ← entry slots i
  found ← str_same username u.name
  some (if found then (set slots i none, true) else (slots, false))

-- The loop of `deleteUser`.
unfoldable pub delete_loop :
    List (Option User) → List ℕ → ℕ → ℕ → Bool → Option (List (Option User) × Bool)
delete_loop slots username i zero deleted = some (slots, deleted)
delete_loop slots username i (suc left) deleted = do
  (slots', deleted') ← delete_round slots username i deleted
  delete_loop slots' username (i + 1) left deleted'

unfoldable pub delete_user : Users → List ℕ → Option Users
delete_user t username = do
  (slots', deleted) ← delete_loop t.slots username 0 t.nusers false
  some (record { slots = slots'; nusers = if deleted then t.nusers - 1 else t.nusers })
