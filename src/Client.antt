-- ===== src/Client.antt =====
-- src/client/clientUtils.c: the messages of the management client. What the user types, what `recv`
-- gives and what an array holds before it is written are arguments. An access outside an array, and a
-- use of a variable that has no value, are `none`.
pub mod Adding
pub mod Args
pub mod Arrays
pub mod Counting
pub mod Encode
pub mod Naming
pub mod Entering
pub mod Order
pub mod Reply
pub mod Requests
pub mod Session
use proyecto_protos.Bytes.{set_byte}
use proyecto_protos.Socket.{Incoming, broken, offered}
use proyecto_protos.Users.{User, same_text}
use proyecto_protos.Prelude.{
  ℕ, suc, ◌+◌, ◌%◌, Bool, ◌&&◌, Option, none, some, List, [], ◌∷◌, length, take, ltb, leb, ◌==◌,
  if◌then◌else◌, ◌>>=◌, ℤ, pos, negsuc,
}

-- `struct user` of include/clientArgs.h. The flag is what `malloc` left there, or set; the pointers
-- have no value until the option is given.
pub record ClientUser : Type 0 where
  pub text : Option User
  pub credentials : Bool

-- `handshake`: the bytes that are given to `send`.
unfoldable pub handshake : ClientUser → List ℕ
handshake u = if u.credentials then 0x01 ∷ 0x02 ∷ 0x00 ∷ 0x02 ∷ [] else 0x01 ∷ 0x01 ∷ 0x00 ∷ []

-- The second of two bytes that `recv` gives, or 0xFF.
unfoldable pub second_of : List ℕ → ℕ
second_of (x ∷ y ∷ []) = y
second_of _ = 0xFF

-- `handshake_response`
unfoldable pub handshake_response : Incoming → ℕ
unfolding second_of
handshake_response broken = 0xFF
handshake_response (offered bs) = second_of (take 2 bs)

-- `credentials_response`
unfoldable pub credentials_response : Incoming → ℕ
unfolding second_of
credentials_response broken = 0xFF
credentials_response (offered bs) = second_of (take 2 bs)

-- `strcpy(array + i, text)`
unfoldable pub strcpy : List ℕ → ℕ → List ℕ → Option (List ℕ)
strcpy array i [] = set_byte array i 0
strcpy array i (c ∷ cs) = do array' ← set_byte array i c; strcpy array' (suc i) cs

-- `send_credentials`, on its array of 510 bytes: the bytes that are given to `send`.
unfoldable pub send_credentials : List ℕ → ClientUser → Option (List ℕ)
send_credentials buffer user = do
  u ← user.text
  b1 ← set_byte buffer 0 0x01
  b2 ← set_byte b1 1 (length u.name % 256)
  b3 ← strcpy b2 2 u.name
  b4 ← set_byte b3 (2 + length u.name) (length u.pass % 256)
  b5 ← strcpy b4 (3 + length u.name) u.pass
  some (take (length u.name + length u.pass + 3) b5)

-- `scanf("%s")` into an array of so many bytes, with the word that is typed; `none` is the end of the
-- input.
unfoldable pub scan_word : ℕ → Option (List ℕ) → Option (List ℕ)
scan_word size word = do w ← word; if ltb (length w) size then some w else none

-- `add_user`: the array after it, and how many bytes of it are to be sent.
unfoldable pub add_user : List ℕ → Option (List ℕ) → Option (List ℕ) → Option (List ℕ × ℕ)
add_user buffer first second = do
  username ← scan_word 255 first
  password ← scan_word 255 second
  b1 ← set_byte buffer 1 (length username % 256)
  b2 ← strcpy b1 2 username
  b3 ← set_byte b2 (length username + 2) (length password % 256)
  b4 ← strcpy b3 (length username + 3) password
  some (b4, length username + length password + 3)

-- `delete_user`
unfoldable pub delete_user : List ℕ → Option (List ℕ) → Option (List ℕ × ℕ)
delete_user buffer first = do
  username ← scan_word 255 first
  b1 ← set_byte buffer 1 (length username % 256)
  b2 ← strcpy b1 2 username
  some (b2, length username + 2)

-- `tolower` in the locale that a program starts with.
unfoldable pub tolower : ℕ → ℕ
tolower c = if leb 65 c && leb c 90 then c + 32 else c

-- The loop over the word.
unfoldable pub lowered : List ℕ → List ℕ
lowered [] = []
lowered (c ∷ cs) = tolower c ∷ lowered cs

-- "on" and "off"
abbrev pub on_word : List ℕ
on_word = 111 ∷ 110 ∷ []

abbrev pub off_word : List ℕ
off_word = 111 ∷ 102 ∷ 102 ∷ []

-- `disable_enable`; the inner `none` is the -1 that it returns.
unfoldable pub disable_enable : List ℕ → Option (List ℕ) → Option (Option (List ℕ × ℕ))
disable_enable buffer first = do
  word ← scan_word 50 first
  let set_to : ℕ → Option (Option (List ℕ × ℕ)) =
      λ value. (do b ← set_byte buffer 1 value; some (some (b, 2)))
  if same_text (lowered word) on_word
      then set_to 0x00
      else if same_text (lowered word) off_word
      then set_to 0x01
      else some none

-- What the user types: the number, which has no value where it is no number, and two words.
pub record Typed : Type 0 where
  pub number : Option ℤ
  pub first : Option (List ℕ)
  pub second : Option (List ℕ)

-- The array after the `switch` of `send_request` and how many bytes are to be sent, for the number.
unfoldable pub fill_request : List ℕ → ℤ → Typed → Option (Option (List ℕ × ℕ))
fill_request buffer (negsuc n) typed = do b ← set_byte buffer 0 0xFF; some (some (b, 1))
fill_request buffer (pos n) typed =
    let plain : Option (Option (List ℕ × ℕ)) = (do
      b ← set_byte buffer 0 (if leb n 9 then n else 0xFF)
      some (some (b, 1))) in
    let adding : Option (Option (List ℕ × ℕ)) = (do
      b ← set_byte buffer 0 0x0A
      r ← add_user b typed.first typed.second
      some (some r)) in
    let deleting : Option (Option (List ℕ × ℕ)) = (do
      b ← set_byte buffer 0 0x0B
      r ← delete_user b typed.first
      some (some r)) in
    let switching : Option (Option (List ℕ × ℕ)) = (do
      b ← set_byte buffer 0 n
      disable_enable b typed.first) in
    if n == 10
    then adding
    else if n == 11
    then deleting
    else if n == 12
    then switching
    else if n == 13
    then switching
    else plain

-- `send_request`, on its array of 512 bytes: the number, and the bytes that are given to `send`, where
-- the inner `none` is a return of -1 before that.
unfoldable pub send_request : List ℕ → Typed → Option (ℤ × Option (List ℕ))
send_request buffer typed = do
  index ← typed.number
  filled ← fill_request buffer index typed
  some (index, elim filled [ none ↦ none | some (b, n) ↦ some (take n b) ])
