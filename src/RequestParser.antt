-- ===== src/RequestParser.antt =====
-- src/Etapas/request_parser.c, include/request_parser.h and the types of include/request.h: the
-- parser of a SOCKS request. A write outside an array is `none`.
pub mod Address
pub mod Message
pub mod Errors
use proyecto_protos.Bytes.{set_byte}
use proyecto_protos.Prelude.{
  ℕ, zero, suc, ◌+◌, ◌-◌, ◌%◌, Bool, true, false, Option, none, some, List, [], ◌∷◌, length, set,
  replicate, ltb, leb, ◌==◌, if◌then◌else◌, ◌>>=◌,
}

-- `enum request_state`; the four errors are `error` and the ones that begin with it.
pub data State : Type 0 where
  version cmd rsv atyp dest_addr dest_addr_fqdn dest_port done : State
  error error_unsupported_cmd error_unsupported_type error_unsupported_version : State

abbrev pub cmd_connect : ℕ
cmd_connect = 0x01

abbrev pub addrtype_ipv4 : ℕ
addrtype_ipv4 = 0x01

abbrev pub addrtype_domain : ℕ
addrtype_domain = 0x03

abbrev pub addrtype_ipv6 : ℕ
addrtype_ipv6 = 0x04

abbrev pub ipv4_len : ℕ
ipv4_len = 4

abbrev pub ipv6_len : ℕ
ipv6_len = 16

-- MAX_FQDN_SIZE
abbrev pub max_fqdn_size : ℕ
max_fqdn_size = 0xFF

-- `struct request`. Its union is the array that the address type selects: `sin_addr`, `sin6_addr` or
-- `host`; `raw` is what the memory of `host` held before. A port is its two bytes in memory.
pub record Request : Type 0 where
  pub command : ℕ
  pub dest_addr_type : ℕ
  pub raw : List ℕ
  pub address : List ℕ
  pub sin_port : List ℕ
  pub fqdn_size : ℕ
  pub dest_port_bytes : List ℕ

-- `struct request_parser`; the counters are `uint8_t`.
pub record Parser : Type 0 where
  pub request : Request
  pub state : State
  pub remaining : ℕ
  pub read : ℕ

-- `request_parser_init` on the memory that `malloc` gave.
unfoldable pub init : Request → Parser
init memory = record { request = memory; state = version; remaining = 0; read = 0 }

unfoldable pub remaining_set : Parser → ℕ → Parser
remaining_set p n = record p { remaining = n; read = 0 }

unfoldable pub remaining_is_done : Parser → Bool
remaining_is_done p = leb p.remaining p.read

unfoldable pub read_version : Parser → ℕ → Option (Parser × State)
read_version p b = some (p, if b == 0x05 then cmd else error_unsupported_version)

unfoldable pub read_cmd : Parser → ℕ → Option (Parser × State)
read_cmd p b = some (
    if b == cmd_connect
    then (record p { request = record (p.request) { command = b } }, rsv)
    else (p, error_unsupported_cmd))

-- `address_type`, with `ipv4_address_init` and `ipv6_address_init`, which zero the address.
unfoldable pub address_type : Parser → ℕ → Option (Parser × State)
unfolding remaining_set
address_type p b =
    let r : Request = record (p.request) { dest_addr_type = b } in
    some (
      if b == addrtype_ipv4
      then (
        remaining_set
            (record p { request = record r { address = replicate 4 0; sin_port = 0 ∷ 0 ∷ [] } })
            ipv4_len,
        dest_addr,
      )
      else if b == addrtype_domain
      then (record p { request = record r { address = r.raw } }, dest_addr_fqdn)
      else if b == addrtype_ipv6
      then (
        remaining_set
            (record p { request = record r { address = replicate 16 0; sin_port = 0 ∷ 0 ∷ [] } })
            ipv6_len,
        dest_addr,
      )
      else (record p { request = r }, error_unsupported_type))

-- `dest_address_fqdn`: the terminator is written at `remaining - 1`.
unfoldable pub dest_address_fqdn : Parser → ℕ → Option (Parser × State)
unfolding remaining_set set_byte
dest_address_fqdn p b =
    let size : Option (Parser × State) = (do
      host ← if b == 0 then none else set_byte p.request.address (b - 1) 0
      let p' = remaining_set p b
      some (
        record p' { request = record (p.request) { address = host; fqdn_size = b } },
        dest_addr,
      )) in
    if ltb (max_fqdn_size - 1) b then some (p, error) else size

unfoldable pub read_dest_addr : Parser → ℕ → Option (Parser × State)
unfolding remaining_set remaining_is_done set_byte
read_dest_addr p b = do
  bytes ← set_byte p.request.address p.read b
  let p' : Parser = record p {
    request = record (p.request) { address = bytes };
    read = (p.read + 1) % 256;
  }
  let p'' : Parser =
      remaining_set (record p' { request = record (p'.request) { dest_port_bytes = 0 ∷ 0 ∷ [] } }) 2
  some (if remaining_is_done p' then (p'', dest_port) else (p', dest_addr))

unfoldable pub set_port : Request → Request
set_port r =
    if (r.dest_addr_type == addrtype_domain) then r else record r { sin_port = r.dest_port_bytes }

unfoldable pub read_dest_port : Parser → ℕ → Option (Parser × State)
unfolding remaining_is_done set_byte set_port
read_dest_port p b = do
  bytes ← set_byte p.request.dest_port_bytes p.read b
  let p' : Parser = record p {
    request = record (p.request) { dest_port_bytes = bytes };
    read = (p.read + 1) % 256;
  }
  some (
      if remaining_is_done p'
      then (record p' { request = set_port p'.request }, done)
      else (p', dest_port))

-- The `switch` of `request_parser_feed`.
unfoldable pub dispatch : State → Parser → ℕ → Option (Parser × State)
unfolding read_version read_cmd address_type dest_address_fqdn read_dest_addr read_dest_port
dispatch version p b = read_version p b
dispatch cmd p b = read_cmd p b
dispatch rsv p b = some (p, atyp)
dispatch atyp p b = address_type p b
dispatch dest_addr p b = read_dest_addr p b
dispatch dest_addr_fqdn p b = dest_address_fqdn p b
dispatch dest_port p b = read_dest_port p b
dispatch done p b = some (p, done)
dispatch error p b = some (p, error)
dispatch error_unsupported_cmd p b = some (p, error_unsupported_cmd)
dispatch error_unsupported_type p b = some (p, error_unsupported_type)
dispatch error_unsupported_version p b = some (p, error_unsupported_version)

-- `request_parser_feed`
unfoldable pub feed : Parser → ℕ → Option Parser
unfolding dispatch
feed p b = do
  (p', following_state) ← dispatch p.state p b
  some (record p' { state = following_state })

-- `request_is_done` of src/Etapas/request.c. Nothing ever sets its `error`.
unfoldable pub is_done : State → Bool
is_done done = true
is_done _ = false

-- A round of `request_consume` of src/Etapas/request.c.
unfoldable pub consume_byte : Parser → ℕ → Option (Parser × Bool)
unfolding feed is_done
consume_byte p b = do p' ← feed p b; some (p', is_done p'.state)
