-- ===== src/Mng.antt =====
-- src/Etapas/mng_request.c and its types of include/states.h: the requests of a management client. A
-- use of NULL, an access outside an array and a failed `assert` or `abort` are `none`.
pub mod Marshal
pub mod Read
pub mod Listing
pub mod Message
pub mod Stage
pub mod Chosen
use proyecto_protos.MyParser.{Parser, Substate, Check, long_read, read_n}
use proyecto_protos.MyParser
use proyecto_protos.Prelude.{
  ℕ, Bool, true, false, Option, none, some, List, [], ◌∷◌, get_elem?, replicate, ◌==◌,
  if◌then◌else◌, ◌>>=◌,
}

-- `enum mng_reply_status`
pub data Status : Type 0 where
  succeeded server_error index_not_supported max_users_reached : Status

unfoldable pub code : Status → ℕ
code succeeded = 0x00
code server_error = 0x01
code index_not_supported = 0x02
code max_users_reached = 0x03

-- `enum mng_request_indexes`
pub data Index : Type 0 where
  supported_indexes list_users historic_connections concurrent_connections : Index
  max_concurrent_connections historic_bytes_transferred historic_auth_attempts : Index
  historic_connections_attempts average_bytes_per_read average_bytes_per_write : Index
  add_user delete_user disable_auth disable_password_disectors : Index

-- The enumerators in the order of their numbers, which are 0x00 to 0x0D.
abbrev pub indexes : List Index
indexes =
    supported_indexes ∷ list_users ∷ historic_connections ∷ concurrent_connections
    ∷ max_concurrent_connections ∷ historic_bytes_transferred ∷ historic_auth_attempts
    ∷ historic_connections_attempts ∷ average_bytes_per_read ∷ average_bytes_per_write ∷ add_user
    ∷ delete_user ∷ disable_auth ∷ disable_password_disectors ∷ []

-- The enumerator of a byte; the others run into `default`.
unfoldable pub index_of : ℕ → Option Index
index_of b = get_elem? indexes b

-- `struct mng_request_st`; its buffers are those of the connection.
pub record MngSt : Type 0 where
  pub parser : Parser
  pub status : Status
  pub index : Option Index

-- `checkIndex`
unfoldable pub check_index : Check
check_index array size error = do
  b ← get_elem? array 0
  some (elim (index_of b) [ some i ↦ (true, error) | none ↦ (false, code index_not_supported) ])

-- A sub-state for one byte, with what is checked of it.
abbrev pub byte_substate : Option Check → Substate
byte_substate check = record {
  state = long_read;
  result = some (replicate 2 0);
  check_function = check;
  size = 1;
  remaining = 1;
}

-- What `malloc` leaves in the other fields is never read.
abbrev pub size_substate : Substate
size_substate = record {
  state = read_n;
  result = none;
  check_function = none;
  size = 0;
  remaining = 0;
}

-- The parser sets the sizes before it reads them.
abbrev pub string_substate : Substate
string_substate = record {
  state = long_read;
  result = none;
  check_function = none;
  size = 0;
  remaining = 0;
}

-- The parser that runs these sub-states, before `parser_init`.
abbrev pub parser_of : ℕ → List Substate → Parser
parser_of size states = record {
  index = 0;
  size = size;
  current = long_read;
  states = states;
  error = 0;
}

-- How each function that builds a parser ends; `memory` says whether every `malloc` succeeds. What a
-- failure leaves of the parser is read by the functions that free it only.
abbrev pub with_parser : MngSt → Parser → Bool → Option MngSt
with_parser d p memory = do
  p' ← MyParser.init p
  some (record d { parser = p'; status = if memory then succeeded else server_error })

-- `mng_request_index_init`
unfoldable pub index_init : MngSt → Bool → Option MngSt
index_init d memory = with_parser d (parser_of 1 (byte_substate (some check_index) ∷ [])) memory

-- `mng_request_index_add_user_parser_init`
unfoldable pub add_user_parser_init : MngSt → Bool → Option MngSt
add_user_parser_init d memory =
    with_parser d
      (parser_of 4 (size_substate ∷ string_substate ∷ size_substate ∷ string_substate ∷ [])) memory

-- `mng_request_index_delete_user_parser_init`
unfoldable pub delete_user_parser_init : MngSt → Bool → Option MngSt
delete_user_parser_init d memory =
    with_parser d (parser_of 2 (size_substate ∷ string_substate ∷ [])) memory

-- `mng_request_index_yes_no_value`
unfoldable pub yes_no_value : MngSt → Bool → Option MngSt
yes_no_value d memory = with_parser d (parser_of 1 (byte_substate none ∷ [])) memory

-- `mng_request_init`
unfoldable pub request_init : MngSt → Bool → Option MngSt
request_init d memory = elim d.index [
  | some add_user ↦ add_user_parser_init d memory
  | some delete_user ↦ delete_user_parser_init d memory
  | some disable_auth ↦ yes_no_value d memory
  | some disable_password_disectors ↦ yes_no_value d memory
  | _ ↦ none
]
