-- ===== src/Connecting/Writing.antt =====
-- `connecting_write` of src/Etapas/connecting.c and `request_resolv_done` of src/Etapas/resolv.c. What
-- `connect`, `getsockopt` and `getaddrinfo` answer is an argument.
use proyecto_protos.Connecting.{
  Errno, Connect, Resolved, OriginSt, errno_to_socks, with_status, with_origin_fd, fail, connection,
  no_error,
}
use proyecto_protos.Connection.{Key, with_write_buffer}
use proyecto_protos.Globals.{Globals, word}
use proyecto_protos.Pool.{destroy}
use proyecto_protos.Request.{
  succeeded, general_socks_server_failure, Origin, marshall, error_handler, error_handler_to_client,
}
use proyecto_protos.RequestParser.{addrtype_domain}
use proyecto_protos.Selector.{
  Selector, Handler, op_noop, op_read, op_write, set_interest, register, unregister_fd,
}
use proyecto_protos.Selector
use proyecto_protos.SocksState
use proyecto_protos.Prelude.{
  ℕ, ◌+◌, ◌%◌, Bool, true, false, ◌&&◌, Option, none, some, List, [], ◌∷◌, ltb, ◌==◌, if◌then◌else◌,
  ◌>>=◌, negsuc,
}

-- The address of an entry; a family that is neither of the two leaves the old one.
unfoldable pub address_of : Resolved → Origin → Origin
address_of a old = elim a.family [
  | none ↦ old
  | some f ↦ record { domain = f; address = a.address; port = a.port }
]

-- The step to the next address, `a` and those behind it.
unfoldable pub advance : OriginSt → Resolved → List Resolved → OriginSt
advance o a rest = record o {
  origin_resolution_current = a ∷ rest;
  origin_addr = address_of a o.origin_addr;
}

-- What a handler of the stage gives back.
abbrev pub Answer : Type 0
Answer = ℕ × Globals × Key × OriginSt

-- The next address is tried; what `connection` returns is not looked at.
unfoldable pub try_next :
    Globals → Key → OriginSt → Resolved → List Resolved → Connect → Bool → Option Answer
try_next g k o a rest answer memory = do
  (st, g', k', o') ← connection g k (advance o a rest) answer memory
  some (SocksState.request_connecting, g', k', o')

-- `freeaddrinfo`, for a name. The dangling pointers, which nothing reads again, are `[]`.
unfoldable pub free_resolution : OriginSt → OriginSt
free_resolution o =
    if o.request.addr_family == addrtype_domain
    then record o { origin_resolution = []; origin_resolution_current = [] }
    else o

-- `socks5_destroy` of the connection's object, which the selector calls for each descriptor given back.
unfoldable pub release : OriginSt → OriginSt
release o =
    let (references, pool) = destroy o.pool o.object o.references in
    record o { references = references; pool = pool }

-- The end of an attempt that failed before: the descriptor is given back.
unfoldable pub give_up : Globals → Key → OriginSt → Option Answer
give_up g k o = do
  (r, s, object) ← unregister_fd k.selector k.conn.origin_fd
  let o1 : OriginSt = record o { closed = k.conn.origin_fd ∷ o.closed }
  let o2 : OriginSt = elim object [ none ↦ o1 | some n ↦ release o1 ]
  let k1 : Key = with_origin_fd (record k { selector = s }) (negsuc 0)
  (ret, k2) ← error_handler_to_client o.request.conn_status k1
  some (ret, g, k2, o2)

-- The first part of `connecting_write`: an earlier attempt has failed.
unfoldable pub retry : Globals → Key → OriginSt → Connect → Bool → Option Answer
retry g k o answer memory = elim o.origin_resolution_current [
  | [] ↦ give_up g k o
  | a ∷ [] ↦ give_up g k o
  | a ∷ b ∷ rest ↦ try_next g k o b rest answer memory
]

-- The metrics of a connection that stands.
unfoldable pub count_connection : Globals → Globals
count_connection g =
    let n : ℕ = (g.metrics_concurrent_connections + 1) % word in
    record g {
      metrics_historic_connections = (g.metrics_historic_connections + 1) % word;
      metrics_concurrent_connections = n;
      metrics_max_concurrent_connections =
          if ltb g.metrics_max_concurrent_connections n
          then n
          else g.metrics_max_concurrent_connections;
    }

-- The end of `connecting_write`, of a connection that stands.
unfoldable pub answer_success : Globals → Key → OriginSt → Option Answer
answer_success g k o = do
  written ← marshall o.request.conn_status k.conn.write_buffer
  let replied : Key → Option Answer = λ k1. (do
    (r1, s1) ← set_interest k1.selector o.conn_client_fd op_write
    (r2, s2) ← set_interest s1 k1.fd op_noop
    let ok : Bool =
        elim r1 [ Selector.Status.success ↦ true | _ ↦ false ]
        && elim r2 [ Selector.Status.success ↦ true | _ ↦ false ]
    some (
      if ok then SocksState.request_write else SocksState.error,
      g,
      record k1 { selector = s2 },
      o,
    ))
  elim written [
    | none ↦ some (SocksState.error, g, k, o)
    | some b ↦ replied (with_write_buffer k b)
  ]

-- The part of `connecting_write` for a connection that did not come about.
unfoldable pub refused : Globals → Key → OriginSt → Errno → Connect → Bool → Option Answer
refused g k o e answer memory =
    let lost : OriginSt → Option Answer =
      λ o1. (do (ret, k1, o2) ← fail (errno_to_socks e) k o1; some (ret, g, k1, o2)) in
    elim o.origin_resolution_current [
      | [] ↦ lost o
      | a ∷ [] ↦ lost (free_resolution o)
      | a ∷ b ∷ rest ↦ try_next g k (with_status o (errno_to_socks e)) b rest answer memory
    ]

-- `connecting_write`; `sockopt` is what `getsockopt` stores, or `none` where it fails.
unfoldable pub write : Globals → Key → OriginSt → Option Errno → Connect → Bool → Option Answer
write g k o sockopt answer memory =
    let unknown : Option Answer = (do
      (ret, k1, o1) ← fail general_socks_server_failure k o
      some (ret, g, k1, o1)) in
    let stands : Option Answer =
      answer_success (count_connection g) k
        (record (with_status (free_resolution o) succeeded) { conn_origin_fd = k.fd }) in
    elim o.request.conn_status [
      | succeeded ↦ elim sockopt [
        | none ↦ unknown
        | some no_error ↦ stands
        | some e ↦ refused g k o e answer memory
      ]
      | _ ↦ retry g k o answer memory
    ]

-- `request_resolv_done`, with the list that `getaddrinfo` left.
unfoldable pub resolv_done : Key → OriginSt → Option (ℕ × Key × OriginSt)
resolv_done k o = elim o.origin_resolution [
  | [] ↦ (do
    (ret, k') ← error_handler general_socks_server_failure k
    some (
      ret,
      k',
      record o {
        request = record (o.request) {
          status = general_socks_server_failure;
          conn_status = general_socks_server_failure;
        };
      },
    ))
  | a ∷ rest ↦ some (
    SocksState.request_connecting,
    k,
    record o {
      origin_resolution_current = a ∷ rest;
      origin_addr = address_of a o.origin_addr;
      origin_domain = elim a.family [ none ↦ o.origin_domain | some f ↦ f ];
    },
  )
]
