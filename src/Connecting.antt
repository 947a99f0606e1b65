-- ===== src/Connecting.antt =====
-- src/Etapas/connecting.c: the stage that connects to the origin server, and how it starts. What `socket`, `connect`, `getsockopt` and `getaddrinfo` answer is an argument.
-- The lines that are printed are left out.
pub mod Writing
pub mod Outcome
pub mod Fallback
pub mod Tries
pub mod AtOnce
use proyecto_protos.Connection.{Connection, Key, with_write_buffer}
use proyecto_protos.Globals.{Globals, word}
use proyecto_protos.Pool.{Pool, destroy}
use proyecto_protos.Request.{
  Status, succeeded, general_socks_server_failure, host_unreachable, network_unreachable,
  connection_refused, ttl_expired, Family, inet, inet6, Origin, RequestSt, marshall, error_handler,
  error_handler_to_client,
}
use proyecto_protos.RequestParser.{addrtype_domain}
use proyecto_protos.Selector.{
  Selector, Handler, op_noop, op_read, op_write, set_interest, register, unregister_fd,
}
use proyecto_protos.Selector
use proyecto_protos.SocksState
use proyecto_protos.Prelude.{
  ℕ, ◌+◌, ◌%◌, Bool, true, false, ◌&&◌, Option, none, some, List, [], ◌∷◌, ltb, ◌==◌, if◌then◌else◌,
  ◌>>=◌, ℤ, pos, negsuc,
}

-- The values of `errno` that the code tells apart.
pub data Errno : Type 0 where
  no_error econnrefused ehostunreach enetunreach etimedout other_error : Errno

-- What `connect` answers: 0, EINPROGRESS, or another error.
pub data Connect : Type 0 where
  connected in_progress : Connect
  failed : Errno → Connect

-- An entry of the list that `getaddrinfo` gives; another family than the two is `none`.
pub record Resolved : Type 0 where
  pub family : Option Family
  pub address : List ℕ
  pub port : List ℕ

-- The fields of `struct socks5` that the stage works on, beside those of the key and of the request.
-- A list of addresses is `[]` where the pointer is NULL; `object` is what the selector gets as `data`,
-- and `closed` holds the descriptors given to `close`, the last one first.
pub record OriginSt : Type 0 where
  pub request : RequestSt
  pub conn_client_fd : ℤ
  pub conn_origin_fd : ℤ
  pub origin_domain : Family
  pub origin_addr : Origin
  pub origin_resolution : List Resolved
  pub origin_resolution_current : List Resolved
  pub references : ℕ
  pub object : ℕ
  pub pool : Pool
  pub closed : List ℤ

-- `socks5_handler` of src/socks5nio.c.
abbrev pub socks5_handler : Handler
socks5_handler = record { on_read = true; on_write = true; on_block = true; on_close = true }

unfoldable pub errno_to_socks : Errno → Status
errno_to_socks no_error = succeeded
errno_to_socks econnrefused = connection_refused
errno_to_socks ehostunreach = host_unreachable
errno_to_socks enetunreach = network_unreachable
errno_to_socks etimedout = ttl_expired
errno_to_socks other_error = general_socks_server_failure

-- `orig.conn.status`
abbrev pub with_status : OriginSt → Status → OriginSt
with_status o s = record o { request = record (o.request) { conn_status = s } }

abbrev pub with_origin_fd : Key → ℤ → Key
with_origin_fd k fd = record k { conn = record (k.conn) { origin_fd = fd } }

-- A failure: the status is set and `error_handler_to_client` is called.
unfoldable pub fail : Status → Key → OriginSt → Option (ℕ × Key × OriginSt)
fail s k o = do (ret, k') ← error_handler_to_client s k; some (ret, k', with_status o s)

-- How `connection` goes on where the descriptors are to wait for the origin: the key's own with one
-- interest, the origin's with another.
unfoldable pub subscribe :
    Key
    → OriginSt
    → Selector.Interest
    → Selector.Interest
    → Bool
    → Bool
    → Option (Status × Key × OriginSt)
subscribe k o own waits shut memory = do
  (r1, s1) ← set_interest k.selector k.fd own
  let k1 : Key = record k { selector = s1 }
  let refused : Option (Status × Key × OriginSt) = (do
    (ret, k', o') ← fail general_socks_server_failure k1 o
    some (general_socks_server_failure, k', o'))
  let registered : Option (Status × Key × OriginSt) = (do
    (r2, s2) ← register k1.selector k1.conn.origin_fd socks5_handler waits o.object memory
    let k2 : Key = record k1 { selector = s2 }
    let taken : Option (Status × Key × OriginSt) = some (succeeded, k2, o)
    let lost : Option (Status × Key × OriginSt) = (do
      (ret, k3, o') ← fail general_socks_server_failure k2 o
      some (
          if shut
          then (
            general_socks_server_failure,
            with_origin_fd k3 (negsuc 0),
            record o' { closed = k3.conn.origin_fd ∷ o'.closed },
          )
          else (general_socks_server_failure, k3, o')))
    elim r2 [ Selector.Status.success ↦ taken | _ ↦ lost ])
  elim r1 [ Selector.Status.success ↦ registered | _ ↦ refused ]

abbrev pub count_reference : OriginSt → OriginSt
count_reference o = record o { references = o.references + 1 }

-- `connection`
unfoldable pub connection :
    Globals → Key → OriginSt → Connect → Bool → Option (Status × Globals × Key × OriginSt)
connection g k o answer memory =
    let g' : Globals = record g {
      metrics_historic_connections_attempts = (g.metrics_historic_connections_attempts + 1) % word;
    } in
    elim answer [
      | failed e ↦ (do
        let o' : OriginSt = record o { request = record (o.request) { status = errno_to_socks e } }
        (ret, k', o'') ← fail (errno_to_socks e) k o'
        some (errno_to_socks e, g', k', o''))
      | in_progress ↦ (do
        (st, k', o') ← subscribe k o op_noop op_write true memory
        some (st, g', k', elim st [ succeeded ↦ count_reference o' | _ ↦ o' ]))
      | connected ↦ (do
        (st, k', o') ← subscribe k (count_reference o) op_read op_read false memory
        some (st, g', k', o'))
    ]

-- `connecting_init`; `socket` answers a descriptor or -1, and `nio` says whether it could be made
-- non-blocking.
unfoldable pub init :
    Globals → Key → OriginSt → Option ℕ → Bool → Connect → Bool → Option (Globals × Key × OriginSt)
init g k o socket nio answer memory =
    let o1 : OriginSt = record (with_status o succeeded) {
      conn_client_fd = k.conn.client_fd;
      conn_origin_fd = negsuc 0;
    } in
    let lost : Key → Option (Globals × Key × OriginSt) =
      λ k1. (do (ret, k2, o2) ← fail general_socks_server_failure k1 o1; some (g, k2, o2)) in
    elim socket [
      | none ↦ lost (with_origin_fd k (negsuc 0))
      | some fd ↦
          (let k1 : Key = with_origin_fd k (pos fd) in
            let connecting : Option (Globals × Key × OriginSt) = (do
              (st, g', k2, o2) ← connection g k1 o1 answer memory
              some (g', k2, with_status o2 st)) in
            if nio then connecting else lost k1)
    ]
