-- ===== src/Mng/Marshal.antt =====
-- The replies of src/Etapas/mng_request.c. The bytes of a `uint32_t` are taken in the order of the
-- memory, lowest first, as on the processors the program is built for.
use proyecto_protos.Buffer.{Buffer, write_ptr, put}
use proyecto_protos.Mng.{Status, code}
use proyecto_protos.Users.{User, Users, entry}
use proyecto_protos.Prelude.{
  ℕ, zero, suc, ◌+◌, ◌-◌, ◌%◌, ◌/◌, Option, none, some, List, [], ◌∷◌, ◌++◌, length, ltb,
  if◌then◌else◌, ◌>>=◌,
}

-- How the replies are written: nothing where there is less room than the test asks for.
abbrev pub reply : Buffer → ℕ → List ℕ → Option Buffer
reply b need bytes = do
  (p, n) ← write_ptr b
  let written : Option Buffer = put b bytes
  if ltb n need then some b else written

-- `status_mng_marshal`
unfoldable pub status_marshal : Buffer → Status → Option Buffer
status_marshal b status = reply b 1 (code status ∷ [])

-- The bytes of a `uint32_t`.
abbrev pub bytes_of : ℕ → List ℕ
bytes_of v = v % 256 ∷ v / 256 % 256 ∷ v / 65536 % 256 ∷ v / 16777216 % 256 ∷ []

-- `uint_mng_request_marshall`: a `size_t` loses its upper half.
unfoldable pub uint_marshall : Buffer → ℕ → Option Buffer
uint_marshall b value = reply b 5 (0x00 ∷ bytes_of (value % 4294967296))

-- `supported_indexes_mng_request_marshall`
unfoldable pub supported_indexes_marshall : Buffer → Option Buffer
supported_indexes_marshall b = reply b 18 (
    0x00 ∷ 0x0E ∷ 0x00 ∷ 0x01 ∷ 0x02 ∷ 0x03 ∷ 0x04 ∷ 0x05 ∷ 0x06 ∷ 0x07 ∷ 0x08 ∷ 0x09 ∷ 0x0A ∷ 0x0B
    ∷ 0x0C ∷ 0x0D ∷ [])

-- The first loop of `list_users_mng_request_marshall`, from user `i` on, with so many users `left`
-- and `aux` bytes: the users, or nothing where a name is longer than what is left of `aux`.
unfoldable pub measured : List (Option User) → ℕ → ℕ → ℕ → Option (Option (List User))
measured slots i zero aux = some (some [])
measured slots i (suc left) aux = do
  u ← entry slots i
  let rest : Option (Option (List User)) = (do
    us ← measured slots (i + 1) left (aux - length u.name)
    some (elim us [ none ↦ none | some us' ↦ some (u ∷ us') ]))
  if ltb aux (length u.name) then some none else rest

-- What the second loop writes.
unfoldable pub rows : List User → List ℕ
rows [] = []
rows (u ∷ us) = length u.name % 256 ∷ (u.name ++ rows us)

-- `list_users_mng_request_marshall`; `aux` is a `size_t`.
unfoldable pub list_users_marshall : Buffer → Users → Option Buffer
list_users_marshall b t = do
  (p, n) ← write_ptr b
  listed ← measured t.slots 0 t.nusers ((n + 18446744073709551614) % 18446744073709551616)
  elim listed [ none ↦ some b | some us ↦ put b (0x00 ∷ t.nusers % 256 ∷ rows us) ]
