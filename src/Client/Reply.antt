-- ===== src/Client/Reply.antt =====
-- src/client/clientUtils.c: what the client makes of the reply to its request. A `uint32_t` is taken
-- from the order of the memory, lowest byte first.
use proyecto_protos.Mng.{code, index_not_supported, server_error, max_users_reached}
use proyecto_protos.Mng
use proyecto_protos.Socket.{Incoming, broken, offered}
use proyecto_protos.Prelude.{
  ℕ, zero, suc, ◌+◌, ◌-◌, ◌*◌, Bool, true, false, Option, none, some, List, [], ◌∷◌, ◌++◌, length,
  get_elem?, take, drop, ltb, leb, ◌==◌, if◌then◌else◌, ◌>>=◌, ℤ, pos, negsuc,
}

-- A `char` of that byte.
unfoldable pub signed : ℕ → ℤ
signed b = if ltb b 128 then pos b else negsuc (255 - b)

-- The loop of `supported_indexes`, from index `i` on for so many: the numbers that are printed.
unfoldable pub indexes_from : List ℕ → ℕ → ℕ → Option (List ℤ)
indexes_from buffer i zero = some []
indexes_from buffer i (suc left) = do
  b ← get_elem? buffer (2 + i)
  rest ← indexes_from buffer (i + 1) left
  some (signed b ∷ rest)

-- `supported_indexes`
unfoldable pub supported_indexes : List ℕ → Option (List ℤ)
supported_indexes buffer = do n ← get_elem? buffer 1; indexes_from buffer 0 n

-- `strncpy(aux, buffer + index, n)` and a terminator: the text that `aux` then holds.
unfoldable pub strncpy : List ℕ → ℕ → ℕ → Option (List ℕ)
strncpy buffer index zero = some []
strncpy buffer index (suc n) = do
  c ← get_elem? buffer index
  let rest : Option (List ℕ) = (do cs ← strncpy buffer (suc index) n; some (c ∷ cs))
  if c == 0 then some [] else rest

-- The loop of `list_users`, from `index` on, for so many users: the names that are printed.
unfoldable pub users_from : List ℕ → ℕ → ℕ → Option (List (List ℕ))
users_from buffer index zero = some []
users_from buffer index (suc left) = do
  user_len ← get_elem? buffer index
  aux ← strncpy buffer (suc index) user_len
  rest ← users_from buffer (suc index + user_len) left
  some (aux ∷ rest)

-- `list_users`
unfoldable pub list_users : List ℕ → Option (List (List ℕ))
list_users buffer = do n ← get_elem? buffer 1; users_from buffer 2 n

-- `cast_uint32`
unfoldable pub cast_uint32 : List ℕ → Option ℕ
cast_uint32 buffer = do
  b1 ← get_elem? buffer 1
  b2 ← get_elem? buffer 2
  b3 ← get_elem? buffer 3
  b4 ← get_elem? buffer 4
  some (b1 + 256 * (b2 + 256 * (b3 + 256 * b4)))

-- What is printed: an error by its status, a list, a number with its index, or that a request is done.
pub data Shown : Type 0 where
  refused : Mng.Status → Shown
  no_text : Shown
  indexes : List ℤ → Shown
  users : List (List ℕ) → Shown
  statistic : ℕ → ℕ → Shown
  finished : ℕ → Shown

-- The `switch` over an error.
unfoldable pub error_text : ℕ → Shown
error_text status =
    if status == code index_not_supported
    then refused index_not_supported
    else if status == code server_error
    then refused server_error
    else if status == code max_users_reached
    then refused max_users_reached
    else no_text

-- What `request_response` prints and returns (`true` for 0, `false` for -1), and what it appends to the
-- file, if one is open.
pub record Outcome : Type 0 where
  pub shown : Shown
  pub success : Bool
  pub appended : Option ℕ

-- The end of `request_response`: `stats` has a value where a number was read.
unfoldable pub append_stats : Bool → Shown → Option ℕ → Option Outcome
append_stats file shown stats =
    let with_file : Option Outcome = (do
      n ← stats
      some (record { shown = shown; success = true; appended = some n })) in
    if file then with_file else some (record { shown = shown; success = true; appended = none })

-- The `switch` over the index that was asked for.
unfoldable pub show_reply : List ℕ → ℤ → Bool → Option Outcome
show_reply buffer (negsuc n) file =
    some (record { shown = no_text; success = false; appended = none })
show_reply buffer (pos n) file =
    let listing : Option Outcome = (do
      l ← supported_indexes buffer
      append_stats file (indexes l) none) in
    let naming : Option Outcome = (do l ← list_users buffer; append_stats file (users l) none) in
    let counting : Option Outcome = (do
      stats ← cast_uint32 buffer
      append_stats file (statistic n stats) (some stats)) in
    if n == 0
    then listing
    else if n == 1
    then naming
    else if leb n 9
    then counting
    else if leb n 13
    then append_stats file (finished n) none
    else some (record { shown = no_text; success = false; appended = none })

-- What `recv` leaves in an array of 500 bytes; its result is not looked at.
unfoldable pub received : List ℕ → Incoming → List ℕ
received buffer broken = buffer
received buffer (offered bs) = take 500 bs ++ drop (length (take 500 bs)) buffer

-- `request_response`
unfoldable pub request_response : List ℕ → Incoming → ℤ → Bool → Option Outcome
request_response buffer incoming req_index file = do
  let buffer' : List ℕ = received buffer incoming
  status ← get_elem? buffer' 0
  let good : Option Outcome = show_reply buffer' req_index file
  if status == 0x00
      then good
      else some (record { shown = error_text status; success = false; appended = none })
