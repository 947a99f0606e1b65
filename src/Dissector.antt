-- ===== src/Dissector.antt =====
-- src/password_dissector/dissec_parser.c: the automaton that looks for a POP3 login in the bytes that
-- pass. A pointer that was freed or never set is `none`, and so is any fault. `malloc` is not checked
-- there, and is taken to succeed; the memory that it gives is written before it is read, so that it
-- holds 0 here. Of the line that is printed, the time and the addresses are left out. The name of the
-- proxy's user, which is printed without a test, is an argument, and is `none` where it is NULL.
pub mod Strings
pub mod Safety
use proyecto_protos.Bytes.{set_byte}
use proyecto_protos.Users.{cstr}
use proyecto_protos.Prelude.{
  ℕ, ◌+◌, ◌%◌, Bool, true, false, not, ◌&&◌, Option, none, some, List, [], ◌∷◌, ◌++◌, get_elem?,
  replicate, take, ltb, leb, ◌==◌, if◌then◌else◌, ◌>>=◌,
}

-- `enum dissec_parser_state`
pub data State : Type 0 where
  user_word_search user_read pass_word_search pass_read : State

-- `struct dissec_parser`, with the lines printed so far, the last one first.
pub record Dissector : Type 0 where
  pub current : State
  pub current_index : ℕ
  pub last : Bool
  pub username : Option (List ℕ)
  pub password : Option (List ℕ)
  pub printed : List (List ℕ × List ℕ × List ℕ)

-- "user "
abbrev pub user_word : List ℕ
user_word = 0x75 ∷ 0x73 ∷ 0x65 ∷ 0x72 ∷ 0x20 ∷ []

-- "+OK\r\npass "
abbrev pub pass_word : List ℕ
pass_word = 0x2B ∷ 0x4F ∷ 0x4B ∷ 0x0D ∷ 0x0A ∷ 0x70 ∷ 0x61 ∷ 0x73 ∷ 0x73 ∷ 0x20 ∷ []

-- `dissec_parser_init`; the pointers are not set.
unfoldable pub init : Dissector → Dissector
init d = record d { current = user_word_search; current_index = 0; last = false }

-- `checkSize`
unfoldable pub check_size : Option (List ℕ) → ℕ → Option (List ℕ)
check_size buffer size =
    let more : Option (List ℕ) = (do
      array ← buffer
      some (take (size + 5) (array ++ replicate (size + 5) 0))) in
    if size % 5 == 0 then (if size == 0 then some (replicate 5 0) else more) else buffer

-- How each reset ends: the byte may begin the word for the user.
unfoldable pub restart : Dissector → ℕ → Dissector
restart d b = record d {
  current = user_word_search;
  current_index = if 0x75 == b then 1 else 0;
  last = false;
}

-- `user_read_reset`: the index is 0 before it is tested, so that nothing is freed.
unfoldable pub user_read_reset : Dissector → ℕ → Option Dissector
user_read_reset d b = some (restart d b)

-- `pass_read_reset`
unfoldable pub pass_read_reset : Dissector → ℕ → Option Dissector
pass_read_reset d b = do
  let freed : Option Dissector = (do array ← d.password; some (record d { password = none }))
  d' ← if d.current_index == 0 then some d else freed
  array ← d'.username
  some (restart (record d' { username = none }) b)

-- A byte at the end of a string that grows.
unfoldable pub store_char : Option (List ℕ) → ℕ → ℕ → Option (List ℕ)
store_char buffer i b = do array ← check_size buffer i; set_byte array i b

-- `isascii2`, of a byte.
unfoldable pub is_ascii : ℕ → Bool
is_ascii b = leb b 127

-- `user_read_handler`
unfoldable pub user_read_handler : Dissector → ℕ → Option Dissector
user_read_handler d b =
    let ended : Option Dissector = (do
      array ← store_char d.username d.current_index 0
      some (record d {
        username = some array;
        current_index = 0;
        last = false;
        current = pass_word_search;
      })) in
    let more : Option Dissector = (do
      array ← store_char d.username d.current_index b
      some (record d {
        username = some array;
        current_index = d.current_index + 1;
        current = user_read;
      })) in
    if leb 255 d.current_index
    then user_read_reset d b
    else if d.last && not (b == 0x0A)
    then user_read_reset d b
    else if b == 0x0D
    then some (record d { last = true; current = user_read })
    else if b == 0x0A
    then ended
    else if is_ascii b
    then more
    else user_read_reset d b

-- `pass_read_handler`, with `users[*p->userIndex].name`.
unfoldable pub pass_read_handler : Option (List ℕ) → Dissector → ℕ → Option Dissector
pass_read_handler active d b =
    let ended : Option Dissector = (do
      array ← store_char d.password d.current_index 0
      name ← active
      stored ← d.username
      username ← cstr stored
      password ← cstr array
      pass_read_reset
          (record d { password = some array; printed = (name, username, password) ∷ d.printed })
          b) in
    let more : Option Dissector = (do
      array ← store_char d.password d.current_index b
      some (record d {
        password = some array;
        current_index = d.current_index + 1;
        current = pass_read;
      })) in
    let reset : Option Dissector = pass_read_reset d b in
    if leb 255 d.current_index
    then reset
    else if d.last && not (b == 0x0A)
    then reset
    else if b == 0x0D
    then some (record d { last = true; current = pass_read })
    else if b == 0x0A
    then ended
    else if is_ascii b
    then more
    else user_read_reset d b

-- `pass_word_search_handler`
unfoldable pub pass_word_search_handler : Dissector → ℕ → Option Dissector
pass_word_search_handler d b = do
  c ← get_elem? pass_word d.current_index
  let i : ℕ = d.current_index + 1
  let reset : Option Dissector = (do
    array ← d.username
    some (restart (record d { username = none }) b))
  if c == b
      then some (
          if i == 10
          then record d { current_index = 0; current = pass_read }
          else record d { current_index = i; current = pass_word_search })
      else reset

-- `user_word_search_handler`
unfoldable pub user_word_search_handler : Dissector → ℕ → Option Dissector
user_word_search_handler d b = do
  c ← get_elem? user_word d.current_index
  let i : ℕ = d.current_index + 1
  let begun : ℕ = if 0x75 == b then 1 else 0
  some (
      if c == b
      then (if i == 5
          then record d { current_index = 0; current = user_read }
          else record d { current_index = i; current = user_word_search })
      else record d { current_index = begun; current = user_word_search })

-- The `switch` of `dissec_parser_feed`.
unfoldable pub dispatch : Option (List ℕ) → State → Dissector → ℕ → Option Dissector
dispatch active user_word_search d b = user_word_search_handler d b
dispatch active user_read d b = user_read_handler d b
dispatch active pass_word_search d b = pass_word_search_handler d b
dispatch active pass_read d b = pass_read_handler active d b

-- `dissec_parser_feed`
unfoldable pub feed : Option (List ℕ) → Dissector → ℕ → Option Dissector
feed active d b = dispatch active d.current d b

-- `dissec_consume`
unfoldable pub consume : Option (List ℕ) → List ℕ → Dissector → Option Dissector
consume active [] d = some d
consume active (b ∷ bs) d = do d' ← feed active d b; consume active bs d'
