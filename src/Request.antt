-- ===== src/Request.antt =====
-- src/Etapas/request.c: the handlers of the SOCKS request. `malloc` and `pthread_create` are outside;
-- their success is an argument.
pub mod Stage
pub mod Lifecycle
use proyecto_protos.Buffer.{Buffer, can_read, write_ptr, put}
use proyecto_protos.Buffer.Drain.{drain}
use proyecto_protos.Connection.{
  Key, set_interest_key, with_read_buffer, with_write_buffer, receive, transmit,
}
use proyecto_protos.RequestParser.{
  Parser, Request, consume_byte, is_done, cmd_connect, addrtype_ipv4, addrtype_ipv6,
  addrtype_domain,
}
use proyecto_protos.Selector.{op_read, op_write, op_noop, set_interest}
use proyecto_protos.SocksState
use proyecto_protos.Socket.{Incoming, Outgoing}
use proyecto_protos.Prelude.{
  ℕ, suc, ◌+◌, ◌-◌, Bool, true, false, not, Option, none, some, List, [], ◌∷◌, ltb, ◌==◌,
  if◌then◌else◌, ◌>>=◌, ◌>>◌, ℤ, pos, negsuc,
}

-- `enum socks_reply_status`
pub data Status : Type 0 where
  succeeded general_socks_server_failure connection_not_allowed_by_ruleset : Status
  network_unreachable host_unreachable connection_refused ttl_expired : Status
  command_not_supported address_type_not_supported : Status

abbrev pub code : Status → ℕ
code succeeded = 0x00
code general_socks_server_failure = 0x01
code connection_not_allowed_by_ruleset = 0x02
code network_unreachable = 0x03
code host_unreachable = 0x04
code connection_refused = 0x05
code ttl_expired = 0x06
code command_not_supported = 0x07
code address_type_not_supported = 0x08

-- AF_INET and AF_INET6
pub data Family : Type 0 where
  inet inet6 : Family

-- What the stage sets of the origin server: `origin_domain` and `origin_addr`.
pub record Origin : Type 0 where
  pub domain : Family
  pub address : List ℕ
  pub port : List ℕ

-- `struct request_st`, with the fields of the connection that the stage sets, and `orig.conn.status`.
pub record RequestSt : Type 0 where
  pub parser : Parser
  pub addr_family : ℕ
  pub status : Status
  pub origin : Option Origin
  pub conn_status : Status

-- `request_marshall`; -1 is `none`.
unfoldable pub marshall : Status → Buffer → Option (Option Buffer)
unfolding write_ptr
marshall status b = do
  (p, count) ← write_ptr b
  let bytes : List ℕ = 0x05 ∷ code status ∷ 0x00 ∷ addrtype_ipv4 ∷ 0 ∷ 0 ∷ 0 ∷ 0 ∷ 0 ∷ 0 ∷ []
  let written : Option (Option Buffer) = (do b' ← put b bytes; some (some b'))
  if ltb count 10 then some none else written

-- The key with what `request_marshall` wrote; its result is not looked at.
unfoldable pub reply : Status → Key → Option Key
reply status k = do
  written ← marshall status k.conn.write_buffer
  some (elim written [ none ↦ k | some b ↦ with_write_buffer k b ])

-- `error_handler`
unfoldable pub error_handler : Status → Key → Option (ℕ × Key)
unfolding reply set_interest_key
error_handler status k = do
  k1 ← reply status k
  (ok, k2) ← set_interest_key k1 op_write
  some (SocksState.request_write, k2)

-- `selector_set_interest` of a descriptor, its result not looked at.
unfoldable pub set_interest_of : Key → ℤ → (w : Bool) → Option Key
set_interest_of k fd true = do
  (ret, s) ← set_interest k.selector fd op_write
  some (record k { selector = s })
set_interest_of k fd false = do
  (ret, s) ← set_interest k.selector fd op_noop
  some (record k { selector = s })

abbrev is_set : ℤ → Bool
is_set (negsuc n) = not (n == 0)
is_set (pos n) = true

-- `error_handler_to_client`
unfoldable pub error_handler_to_client : Status → Key → Option (ℕ × Key)
unfolding reply set_interest_of
error_handler_to_client status k = do
  k1 ← reply status k
  k2 ← set_interest_of k1 k1.conn.client_fd true
  let quiet : Option Key = set_interest_of k2 k2.conn.origin_fd false
  k3 ← if is_set k2.conn.origin_fd then quiet else some k2
  some (SocksState.request_write, k3)

-- The FQDN branch of `request_process`: a thread resolves the name.
unfoldable pub resolve : Key → RequestSt → Bool → Bool → Option (ℕ × RequestSt × Key)
unfolding error_handler set_interest_key
resolve k d memory thread =
    let failed : Option (ℕ × RequestSt × Key) = (do
      (ret, k') ← error_handler general_socks_server_failure k
      some (ret, record d { status = general_socks_server_failure }, k')) in
    let started : Option (ℕ × RequestSt × Key) = (do
      (ok, k') ← set_interest_key k op_noop
      some (SocksState.request_resolv, d, k')) in
    if memory then (if thread then started else failed) else failed

-- The `switch` of `request_process`.
unfoldable pub process_address : Key → RequestSt → Bool → Bool → Option (ℕ × RequestSt × Key)
unfolding resolve error_handler
process_address k d memory thread =
    let r : Request = d.parser.request in
    let t : ℕ = r.dest_addr_type in
    let at : Family → RequestSt = λ f. record d {
      addr_family = t;
      origin = some (record { domain = f; address = r.address; port = r.sin_port });
    } in
    let unknown : Option (ℕ × RequestSt × Key) = (do
      (ret, k') ← error_handler address_type_not_supported k
      some (ret, record d { status = address_type_not_supported }, k')) in
    if t == addrtype_ipv4
    then some (SocksState.request_connecting, at inet, k)
    else if t == addrtype_ipv6
    then some (SocksState.request_connecting, at inet6, k)
    else if t == addrtype_domain
    then resolve k (record d { addr_family = t }) memory thread
    else unknown

-- `request_process`
unfoldable pub process : Key → RequestSt → Bool → Bool → Option (ℕ × RequestSt × Key)
unfolding process_address error_handler
process k d memory thread =
    let refuse : Option (ℕ × RequestSt × Key) = (do
      (ret, k') ← error_handler command_not_supported k
      some (ret, record d { status = command_not_supported }, k')) in
    if d.parser.request.command == cmd_connect then process_address k d memory thread else refuse

-- `request_consume`; the fuel is more than the bytes that wait.
unfoldable pub consume : Buffer → Parser → Option (Parser × Buffer)
consume b p = drain consume_byte (suc (b.write - b.read)) b p

-- `request_read` after its first test. Its `error` stays false.
unfoldable pub read_ready : Key → RequestSt → Incoming → Bool → Bool → Option (ℕ × RequestSt × Key)
read_ready k d incoming memory thread = do
  came ← receive k.conn.read_buffer incoming
  elim came [
    | none ↦ some (SocksState.error, d, k)
    | some b ↦ (do
      (p, b') ← consume b d.parser
      let k1 : Key = with_read_buffer k b'
      let d1 : RequestSt = record d { parser = p }
      if is_done p.state
          then process k1 d1 memory thread
          else some (SocksState.request_read, d1, k1))
  ]

-- `request_read`
unfoldable pub read : Key → RequestSt → Incoming → Bool → Bool → Option (ℕ × RequestSt × Key)
read k d incoming memory thread = elim d.status [
  | succeeded ↦ read_ready k d incoming memory thread
  | _ ↦ some (SocksState.request_write, d, k)
]

-- `request_write` once all bytes have gone out.
unfoldable pub write_done : Key → RequestSt → Option (ℕ × Key)
write_done k d =
    let copying : Option (ℕ × Key) = (do
      (r1, s1) ← set_interest k.selector k.conn.client_fd op_read
      (r2, s2) ← set_interest s1 k.conn.origin_fd op_read
      some (SocksState.copy, record k { selector = s2 })) in
    let closing : Option (ℕ × Key) = (do
      (r1, s1) ← set_interest k.selector k.conn.client_fd op_noop
      let k1 : Key = record k { selector = s1 }
      k2 ← if is_set k.conn.origin_fd then some k1 else set_interest_of k1 k.conn.origin_fd false
      some (SocksState.done, k2)) in
    elim d.conn_status [ succeeded ↦ copying | _ ↦ closing ]

-- `request_write`
unfoldable pub write : Key → RequestSt → Outgoing → Option (ℕ × Key)
unfolding write_done transmit can_read
write k d outgoing = do
  went ← transmit k.conn.write_buffer outgoing
  elim went [
    | none ↦ some (SocksState.error, k)
    | some b ↦
        (let k1 = with_write_buffer k b in
          if can_read b then some (SocksState.request_write, k1) else write_done k1 d)
  ]
