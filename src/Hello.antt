-- ===== src/Hello.antt =====
-- src/Etapas/hello.c and include/hello.h: the negotiation of the authentication method.
pub mod Message
pub mod Stage
use proyecto_protos.Buffer.{Buffer, can_read}
use proyecto_protos.Buffer.Drain.{drain}
use proyecto_protos.Connection.{
  Key, set_interest_key, with_read_buffer, with_write_buffer, receive, transmit, reply_two,
}
use proyecto_protos.Selector.{op_read, op_write}
use proyecto_protos.SocksState
use proyecto_protos.Socket.{Incoming, Outgoing}
use proyecto_protos.Prelude.{
  ℕ, suc, ◌+◌, ◌-◌, ◌%◌, Bool, true, false, Option, none, some, ltb, ◌==◌, if◌then◌else◌, ◌>>=◌,
}

-- `enum hello_state`
pub data State : Type 0 where
  version nmethods methods done error_unsupported_version : State

-- `enum hello_status`
pub data Status : Type 0 where
  failure success : Status

-- `struct hello_parser`, less its callback, which is `on_hello_method`, and its `data`, which points
-- to `method` of the record below.
pub record Parser : Type 0 where
  pub protocol_version : ℕ
  pub wanted_method : ℕ
  pub state : State
  pub remaining : ℕ

-- `struct hello_st`. The buffers that it points to are those of the connection.
pub record HelloSt : Type 0 where
  pub parser : Parser
  pub method : ℕ
  pub status : Status

abbrev pub socks_version : ℕ
socks_version = 0x05

abbrev pub mng_version : ℕ
mng_version = 0x01

abbrev pub mng_auth_method : ℕ
mng_auth_method = 0x02

abbrev pub method_no_authentication_required : ℕ
method_no_authentication_required = 0x00

abbrev pub method_username_password : ℕ
method_username_password = 0x02

abbrev pub method_no_acceptable_methods : ℕ
method_no_acceptable_methods = 0xFF

unfoldable pub parser_init : Parser → Parser
parser_init p = record p { state = version; remaining = 0 }

unfoldable pub on_hello_method : HelloSt → ℕ → HelloSt
on_hello_method d m = if d.parser.wanted_method == m then record d { method = m } else d

abbrev goto : HelloSt → State → HelloSt
goto d s = record d { parser = record (d.parser) { state = s } }

-- The byte `methods` of `hello_parser_feed`: `remaining` is a `uint8_t`.
unfoldable pub feed_method : HelloSt → ℕ → HelloSt
unfolding on_hello_method
feed_method d b =
    let d' = on_hello_method d b in
    let left : ℕ = (d'.parser.remaining + 255) % 256 in
    let d'' : HelloSt = record d' { parser = record (d'.parser) { remaining = left } } in
    if left == 0 then goto d'' done else d''

-- The `switch` of `hello_parser_feed`.
unfoldable pub dispatch : State → HelloSt → ℕ → HelloSt
unfolding feed_method
dispatch version d b =
    goto d (if b == d.parser.protocol_version then nmethods else error_unsupported_version)
dispatch nmethods d b = record d {
  parser = record (d.parser) { remaining = b; state = if b == 0 then done else methods };
}
dispatch methods d b = feed_method d b
dispatch done d b = d
dispatch error_unsupported_version d b = d

unfoldable pub parser_feed : HelloSt → ℕ → HelloSt
unfolding dispatch
parser_feed d b = dispatch d.parser.state d b

-- `hello_is_done`: its result, and what it stores through `error`.
unfoldable pub is_done : State → Bool × Bool
is_done error_unsupported_version = (true, true)
is_done done = (true, false)
is_done _ = (false, false)

-- A round of `hello_consume`.
unfoldable pub consume_byte : HelloSt → ℕ → Option (HelloSt × Bool)
unfolding parser_feed is_done
consume_byte d b = let d' = parser_feed d b in some (d', (is_done d'.parser.state).0)

-- `hello_consume`. Its result is the state of the parser; `error` is set if that is an error.
unfoldable pub consume : Buffer → HelloSt → Option (HelloSt × Buffer)
unfolding consume_byte drain
consume b d = drain consume_byte (suc (b.write - b.read)) b d

unfoldable pub marshal : Buffer → ℕ → ℕ → Option (Option Buffer)
unfolding reply_two
marshal b m ver = reply_two b ver m

-- `hello_read_init`; `memory` says whether `malloc` succeeds, and `auth_method` is the global. What
-- a failure leaves in the parser is never read.
unfoldable pub read_init : Key → ℕ → Bool → HelloSt
unfolding parser_init
read_init k auth_method memory =
    let unset : Parser = record {
      protocol_version = if k.conn.is_socks then socks_version else mng_version;
      wanted_method = if k.conn.is_socks then auth_method else mng_auth_method;
      state = version;
      remaining = 0;
    } in
    record {
      parser = parser_init unset;
      method = 0xFF;
      status = if memory then success else failure;
    }

-- `hello_process`; -1 is `none`.
unfoldable pub process : Key → HelloSt → ℕ → Option (Option Key)
unfolding marshal
process k d ver = do
  written ← marshal k.conn.write_buffer d.method ver
  some (elim written [ none ↦ none | some b ↦ some (with_write_buffer k b) ])

-- `hello_read` once bytes have come and have been parsed.
unfoldable pub read_parsed : Key → HelloSt → Option (ℕ × HelloSt × Key)
unfolding process is_done set_interest_key
read_parsed k d =
    let (finished, error) = is_done d.parser.state in
    let answer : Key → Option (ℕ × HelloSt × Key) = λ k1. (do
      replied ← process k1 d (if k.conn.is_socks then socks_version else mng_version)
      some (elim replied [
        | none ↦ (k.conn.error_state, d, k1)
        | some k2 ↦ (if error then k.conn.error_state else SocksState.hello_write, d, k2)
      ])) in
    let reply : Option (ℕ × HelloSt × Key) = (do
      (ok, k1) ← set_interest_key k op_write
      if ok then answer k1 else some (k.conn.error_state, d, k1)) in
    if finished then reply else some (SocksState.hello_read, d, k)

-- `hello_read` after its first test.
unfoldable pub read_ready : Key → HelloSt → Incoming → Option (ℕ × HelloSt × Key)
read_ready k d incoming = do
  came ← receive k.conn.read_buffer incoming
  elim came [
    | none ↦ some (k.conn.error_state, d, k)
    | some b ↦ (do (d', b') ← consume b d; read_parsed (with_read_buffer k b') d')
  ]

-- `hello_read`
unfoldable pub read : Key → HelloSt → Incoming → Option (ℕ × HelloSt × Key)
read k d incoming = elim d.status [
  | failure ↦ some (k.conn.error_state, d, k)
  | success ↦ read_ready k d incoming
]

-- `hello_write` once all bytes have gone out.
unfoldable pub write_done : Key → HelloSt → Option (ℕ × HelloSt × Key)
unfolding set_interest_key
write_done k d =
    let next : Option (ℕ × HelloSt × Key) = (do
      (ok, k1) ← set_interest_key k op_read
      let ret : ℕ =
          if d.method == method_no_authentication_required
          then SocksState.request_read
          else if d.method == method_username_password
          then SocksState.userpass_read
          else SocksState.hello_write
      some (if ok then ret else k.conn.error_state, d, k1)) in
    if d.method == method_no_acceptable_methods then some (k.conn.done_state, d, k) else next

-- `hello_write`
unfoldable pub write : Key → HelloSt → Outgoing → Option (ℕ × HelloSt × Key)
unfolding write_done transmit can_read
write k d outgoing = do
  went ← transmit k.conn.write_buffer outgoing
  elim went [
    | none ↦ some (k.conn.error_state, d, k)
    | some b ↦
        (let k1 = with_write_buffer k b in
          if can_read b then some (SocksState.hello_write, d, k1) else write_done k1 d)
  ]
