-- ===== src/Auth.antt =====
-- src/Etapas/authentication.c: the sub-negotiation with username and password of RFC 1929. A use of NULL is `none`.
pub mod Message
pub mod Stage
pub mod Admin
use proyecto_protos.Buffer.{can_read}
use proyecto_protos.Connection.{
  Connection, Key, set_interest_key, with_read_buffer, with_write_buffer, receive, transmit,
  reply_two,
}
use proyecto_protos.Globals.{Globals, word}
use proyecto_protos.MyParser.{Parser, Substate, Check, long_read, read_n, is_done, consume}
use proyecto_protos.MyParser
use proyecto_protos.Selector.{op_read, op_write}
use proyecto_protos.Socket.{Incoming, Outgoing}
use proyecto_protos.SocksState
use proyecto_protos.Users.{check_credentials, check_mng_credentials}
use proyecto_protos.Prelude.{
  ℕ, ◌+◌, ◌%◌, Bool, true, false, not, ◌||◌, Option, none, some, List, [], ◌∷◌, get_elem?,
  replicate, ◌==◌, if◌then◌else◌, ◌>>=◌,
}

-- USERPASS_METHOD_VERSION
abbrev pub method_version : ℕ
method_version = 0x01

-- VERSION_ERROR
abbrev pub version_error : ℕ
version_error = 32

-- `enum auth_status`
pub data Status : Type 0 where
  failure success : Status

-- `struct userpass_st`; its buffers are those of the connection.
pub record UserpassSt : Type 0 where
  pub parser : Parser
  pub status : Status

-- `checkVersion`
unfoldable pub check_version : Check
check_version array size error = do
  b ← get_elem? array 0
  some (
      if not (size == 1) || not (b == method_version)
      then (false, version_error)
      else (true, error))

-- Sub-state 0.
abbrev pub version_substate : Substate
version_substate = record {
  state = long_read;
  result = some (replicate 2 0);
  check_function = some check_version;
  size = 1;
  remaining = 1;
}

-- Sub-states 1 and 3. What `malloc` leaves in the other fields is never read.
abbrev pub size_substate : Substate
size_substate = record {
  state = read_n;
  result = none;
  check_function = none;
  size = 0;
  remaining = 0;
}

-- Sub-states 2 and 4, whose sizes the parser sets before it reads them.
abbrev pub string_substate : Substate
string_substate = record {
  state = long_read;
  result = none;
  check_function = none;
  size = 0;
  remaining = 0;
}

-- The parser that `auth_read_init` builds, before `parser_init`.
abbrev pub unset_parser : Parser
unset_parser = record {
  index = 0;
  size = 5;
  current = long_read;
  states =
      version_substate ∷ size_substate ∷ string_substate ∷ size_substate ∷ string_substate ∷ [];
  error = 0;
}

-- `auth_read_init`; `memory` says whether every `malloc` succeeds. What a failure leaves of the parser
-- is read by `auth_read_close` only.
unfoldable pub read_init : Bool → Option UserpassSt
read_init memory = do
  p ← MyParser.init unset_parser
  some (record { parser = p; status = if memory then success else failure })

-- What a pointer points to: NULL is an array with nothing to read.
unfoldable pub pointed : Option (List ℕ) → List ℕ
pointed none = []
pointed (some array) = array

abbrev pub with_authentication : Key → ℕ → ℕ → Key
with_authentication k authentication user_index = record k {
  conn = record (k.conn) { authentication = authentication; user_index = user_index };
}

-- The check of the credentials in `auth_process`.
unfoldable pub authenticate : Globals → Key → List ℕ → List ℕ → Option Key
authenticate g k username password =
    let proxy : Option Key = (do
      (answer, user) ← check_credentials g.users username password k.conn.user_index
      some (with_authentication k answer user)) in
    let management : Option Key = (do
      answer ← check_mng_credentials g.admins username password
      some (with_authentication k answer k.conn.user_index)) in
    if k.conn.is_socks then proxy else management

-- `auth_process`
unfoldable pub process : Globals → Key → UserpassSt → Option (ℕ × Key × Globals)
process g k d = do
  username ← get_elem? d.parser.states 2
  password ← get_elem? d.parser.states 4
  k' ← authenticate g k (pointed username.result) (pointed password.result)
  some (
    SocksState.userpass_write,
    k',
    record g { metrics_historic_auth_attempts = (g.metrics_historic_auth_attempts + 1) % word },
  )

-- What a reading handler gives back.
abbrev pub Answer : Type 0
Answer = ℕ × UserpassSt × Key × Globals

-- `auth_read` once bytes have come and have been parsed.
unfoldable pub read_parsed : Globals → Key → UserpassSt → MyParser.State → Option Answer
read_parsed g k d st =
    let (finished, error) = is_done st in
    let answer : Key → Option Answer = λ k1. (do
      (ret, k2, g') ← process g k1 d
      some (if error then k.conn.error_state else ret, d, k2, g')) in
    let reply : Option Answer = (do
      (ok, k1) ← set_interest_key k op_write
      if ok then answer k1 else some (k.conn.error_state, d, k1, g)) in
    if finished then reply else some (SocksState.userpass_read, d, k, g)

-- `auth_read` after its first test.
unfoldable pub read_ready : Globals → Key → UserpassSt → Incoming → Option Answer
read_ready g k d incoming = do
  came ← receive k.conn.read_buffer incoming
  elim came [
    | none ↦ some (k.conn.error_state, d, k, g)
    | some b ↦ (do
      (st, p, b') ← consume b d.parser
      read_parsed g (with_read_buffer k b') (record d { parser = p }) st)
  ]

-- `auth_read`
unfoldable pub read : Globals → Key → UserpassSt → Incoming → Option Answer
read g k d incoming = elim d.status [
  | failure ↦ some (k.conn.error_state, d, k, g)
  | success ↦ read_ready g k d incoming
]

-- `auth_reply`; -1 is `none`, and leaves the buffer.
unfoldable pub reply : Key → Option Key
reply k = do
  written ← reply_two k.conn.write_buffer method_version k.conn.authentication
  some (elim written [ none ↦ k | some b ↦ with_write_buffer k b ])

-- `auth_write` once all bytes have gone out.
unfoldable pub write_done : Key → Option (ℕ × Key)
write_done k =
    let next : Option (ℕ × Key) = (do
      (ok, k1) ← set_interest_key k op_read
      some (if ok then SocksState.request_read else k.conn.error_state, k1)) in
    if not (k.conn.authentication == 0) then some (k.conn.done_state, k) else next

-- `auth_write`: it writes the reply each time that it is called.
unfoldable pub write : Key → Outgoing → Option (ℕ × Key)
write k outgoing = do
  k1 ← reply k
  went ← transmit k1.conn.write_buffer outgoing
  elim went [
    | none ↦ some (k.conn.error_state, k1)
    | some b ↦
        (let k2 = with_write_buffer k1 b in
          if can_read b then some (SocksState.userpass_write, k2) else write_done k2)
  ]
