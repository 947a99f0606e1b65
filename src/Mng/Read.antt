-- ===== src/Mng/Read.antt =====
-- The handlers of src/Etapas/mng_request.c.
use proyecto_protos.Auth.{pointed}
use proyecto_protos.Buffer.{Buffer, write_ptr, can_read}
use proyecto_protos.Connection.{
  Key, set_interest_key, with_read_buffer, with_write_buffer, receive, transmit,
}
use proyecto_protos.Globals.{Globals}
use proyecto_protos.Hello.{method_no_authentication_required, method_username_password}
use proyecto_protos.MngState
use proyecto_protos.Mng.Marshal.{
  status_marshal, uint_marshall, supported_indexes_marshall, list_users_marshall,
}
use proyecto_protos.Mng.{
  succeeded, server_error, index_not_supported, max_users_reached, Index, supported_indexes,
  list_users, historic_connections, concurrent_connections, max_concurrent_connections,
  historic_bytes_transferred, historic_auth_attempts, historic_connections_attempts,
  average_bytes_per_read, average_bytes_per_write, add_user, delete_user, disable_auth,
  disable_password_disectors, MngSt, index_of,
}
use proyecto_protos.MyParser.{is_done, consume}
use proyecto_protos.MyParser
use proyecto_protos.Selector.{Interest, op_read, op_write}
use proyecto_protos.Socket.{Incoming, broken, offered, Outgoing}
use proyecto_protos.Users.{max_users}
use proyecto_protos.Users
use proyecto_protos.Prelude.{
  ℕ, Option, none, some, List, get_elem?, take, ◌==◌, if◌then◌else◌, ◌>>=◌,
}

-- `process_mng_index`: the state to go to, and the buffer with the reply.
unfoldable pub process_index : Globals → Buffer → Option Index → Option (ℕ × Buffer)
process_index g b index =
    let sent : Option Buffer → Option (ℕ × Buffer) =
      λ o. (do b' ← o; some (MngState.request_write, b')) in
    let metric : ℕ → Option (ℕ × Buffer) = λ value. sent (uint_marshall b value) in
    elim index [
      | none ↦ some (MngState.error, b)
      | some supported_indexes ↦ sent (supported_indexes_marshall b)
      | some list_users ↦ sent (list_users_marshall b g.users)
      | some historic_connections ↦ metric g.metrics_historic_connections
      | some concurrent_connections ↦ metric g.metrics_concurrent_connections
      | some max_concurrent_connections ↦ metric g.metrics_max_concurrent_connections
      | some historic_bytes_transferred ↦ metric g.metrics_historic_byte_transfer
      | some historic_auth_attempts ↦ metric g.metrics_historic_auth_attempts
      | some historic_connections_attempts ↦ metric g.metrics_historic_connections_attempts
      | some average_bytes_per_read ↦ metric g.metrics_average_bytes_per_read
      | some average_bytes_per_write ↦ metric g.metrics_average_bytes_per_write
      | some add_user ↦ some (MngState.request_read, b)
      | some delete_user ↦ some (MngState.request_read, b)
      | some disable_auth ↦ some (MngState.request_read, b)
      | some disable_password_disectors ↦ some (MngState.request_read, b)
    ]

-- `disableAuth`
unfoldable pub set_auth : Globals → ℕ → Globals
set_auth g option = record g {
  auth_method =
      if option == 0x00 then method_username_password else method_no_authentication_required;
}

-- `disablePasswordDissectors`
unfoldable pub set_dissectors : Globals → ℕ → Globals
set_dissectors g option = record g { password_dissectors = option }

-- What a sub-state has read.
unfoldable pub result_of : MngSt → ℕ → Option (List ℕ)
unfolding pointed
result_of d i = do s ← get_elem? d.parser.states i; some (pointed s.result)

-- `process_mng_params_request`
unfoldable pub process_params : Globals → MngSt → Buffer → Option (Globals × Buffer)
process_params g d b =
    let full : Option (Globals × Buffer) = (do
      b' ← status_marshal b max_users_reached
      some (g, b')) in
    let done : Globals → Option (Globals × Buffer) =
      λ g'. (do b' ← status_marshal b succeeded; some (g', b')) in
    let added : Option (Globals × Buffer) = (do
      username ← result_of d 1
      password ← result_of d 3
      t ← Users.add_user g.users username password
      done (record g { users = t })) in
    let deleted : Option (Globals × Buffer) = (do
      username ← result_of d 1
      t ← Users.delete_user g.users username
      done (record g { users = t })) in
    let auth : Option (Globals × Buffer) = (do
      array ← result_of d 0
      option ← get_elem? array 0
      done (set_auth g option)) in
    let dissectors : Option (Globals × Buffer) = (do
      array ← result_of d 0
      option ← get_elem? array 0
      done (set_dissectors g option)) in
    let wrong : Option (Globals × Buffer) = (do b' ← status_marshal b server_error; some (g, b')) in
    elim d.index [
      | some add_user ↦ (if g.users.nusers == max_users then full else added)
      | some delete_user ↦ deleted
      | some disable_auth ↦ auth
      | some disable_password_disectors ↦ dissectors
      | _ ↦ wrong
    ]

-- Where a status is all that a handler replies: it is written and the interest goes to OP_WRITE.
unfoldable pub notify : Key → MngSt → Option (ℕ × MngSt × Key)
notify k d = do
  b ← status_marshal k.conn.write_buffer d.status
  (ok, k') ← set_interest_key (with_write_buffer k b) op_write
  some (if ok then MngState.request_write else MngState.error, d, k')

-- The end of `mng_request_index_read`: the interest that goes with the next state.
unfoldable pub index_next : Key → MngSt → ℕ → Option (ℕ × MngSt × Key)
index_next k d ret =
    let interested : Interest → Option (ℕ × MngSt × Key) =
      λ i. (do (ok, k') ← set_interest_key k i; some (if ok then ret else MngState.error, d, k')) in
    if ret == MngState.request_write
    then interested op_write
    else if ret == MngState.request_read
    then interested op_read
    else some (ret, d, k)

-- `mng_request_index_read` once the byte is parsed.
unfoldable pub index_parsed : Globals → Key → MngSt → MyParser.State → Option (ℕ × MngSt × Key)
index_parsed g k d st =
    let (finished, error) = is_done st in
    let refused : Option (ℕ × MngSt × Key) = notify k (record d { status = index_not_supported }) in
    let taken : Option (ℕ × MngSt × Key) = (do
      s ← get_elem? d.parser.states 0
      byte ← get_elem? (pointed s.result) 0
      (ret, b) ← process_index g k.conn.write_buffer (index_of byte)
      index_next (with_write_buffer k b) (record d { index = index_of byte }) ret) in
    if finished
    then (if error then refused else taken)
    else some (MngState.request_read_index, d, k)

-- `recv` of one byte.
unfoldable pub one_byte : Incoming → Incoming
one_byte broken = broken
one_byte (offered bs) = offered (take 1 bs)

-- `mng_request_index_read` after its first test.
unfoldable pub index_ready : Globals → Key → MngSt → Incoming → Option (ℕ × MngSt × Key)
index_ready g k d incoming = do
  (p, count) ← write_ptr k.conn.read_buffer
  let no_room : Option (ℕ × MngSt × Key) = notify k (record d { status = server_error })
  let room : Option (ℕ × MngSt × Key) = (do
    came ← receive k.conn.read_buffer (one_byte incoming)
    elim came [
      | none ↦ some (MngState.error, d, k)
      | some b ↦ (do
        (st, p', b') ← consume b d.parser
        index_parsed g (with_read_buffer k b') (record d { parser = p' }) st)
    ])
  if count == 0 then no_room else room

-- `mng_request_index_read`
unfoldable pub index_read : Globals → Key → MngSt → Incoming → Option (ℕ × MngSt × Key)
index_read g k d incoming = elim d.status [
  | succeeded ↦ index_ready g k d incoming
  | _ ↦ notify k d
]

-- What `mng_request_read` gives back.
abbrev pub Answer : Type 0
Answer = ℕ × MngSt × Key × Globals

-- `mng_request_read` once bytes have come and have been parsed.
unfoldable pub read_parsed : Globals → Key → MngSt → MyParser.State → Option Answer
read_parsed g k d st =
    let (finished, error) = is_done st in
    let processed : Key → Option Answer = λ k1. (do
      (g', b) ← process_params g d k1.conn.write_buffer
      some (MngState.request_write, d, with_write_buffer k1 b, g')) in
    let reply : Option Answer = (do
      (ok, k1) ← set_interest_key k op_write
      let rest = processed k1
      if ok
          then (if error then some (MngState.error, d, k1, g) else rest)
          else some (MngState.error, d, k1, g)) in
    if finished then reply else some (MngState.request_read, d, k, g)

-- `mng_request_read` after its first test.
unfoldable pub read_ready : Globals → Key → MngSt → Incoming → Option Answer
read_ready g k d incoming = do
  came ← receive k.conn.read_buffer incoming
  elim came [
    | none ↦ some (MngState.error, d, k, g)
    | some b ↦ (do
      (st, p, b') ← consume b d.parser
      read_parsed g (with_read_buffer k b') (record d { parser = p }) st)
  ]

-- `mng_request_read`
unfoldable pub read : Globals → Key → MngSt → Incoming → Option Answer
read g k d incoming = elim d.status [
  | succeeded ↦ read_ready g k d incoming
  | _ ↦ (do (ret, d', k') ← notify k d; some (ret, d', k', g))
]

-- `mng_request_write`
unfoldable pub write : Key → MngSt → Outgoing → Option (ℕ × Key)
write k d outgoing = do
  went ← transmit k.conn.write_buffer outgoing
  some (elim went [
    | none ↦ (MngState.error, k)
    | some b ↦ (if can_read b then MngState.request_write else MngState.done, with_write_buffer k b)
  ])
