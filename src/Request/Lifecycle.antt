-- ===== src/Request/Lifecycle.antt =====
-- `request_init` and `request_close` of src/Etapas/request.c, with `connecting_close` of
-- src/Etapas/connecting.c, which frees the same parser. What `malloc` gives is an argument. A use of
-- NULL is `none`.
use proyecto_protos.Connection.{Key}
use proyecto_protos.Request.{RequestSt, succeeded, general_socks_server_failure, error_handler}
use proyecto_protos.RequestParser.{Parser, Request, addrtype_domain}
use proyecto_protos.RequestParser
use proyecto_protos.Prelude.{Bool, true, false, Option, none, some, ◌==◌, if◌then◌else◌, ◌>>=◌}

-- Which of the pointers `parser` and `parser->request` are set. One that dangles counts as not set.
pub record Pointers : Type 0 where
  pub parser : Bool
  pub request : Bool

-- A failed allocation of a request, which `error_handler` reports.
unfoldable pub reported : Key → RequestSt → Option (RequestSt × Key)
reported k d = do
  (ret, k') ← error_handler general_socks_server_failure k
  some (record d { status = general_socks_server_failure }, k')

-- The part of `request_init` behind the allocation of the parser: `request_parser_init` allocates a
-- request, and `request_init` another one in its place.
unfoldable pub requests_init :
    Key → RequestSt → Option Request → Option Request → Option (RequestSt × Pointers × Key)
requests_init k d first second = do
  (d1, k1) ← elim first [ none ↦ reported k d | some r ↦ some (d, k) ]
  let start : Request → RequestSt = λ r. record d1 { parser = RequestParser.init r }
  let lost : Option (RequestSt × Pointers × Key) = (do
    (d2, k2) ← reported k1 (start d.parser.request)
    some (d2, record { parser = true; request = false }, k2))
  elim second [
    | none ↦ lost
    | some r ↦ some (start r, record { parser = true; request = true }, k1)
  ]

-- `request_init`. Without memory for the parser `request_parser_init` writes through NULL.
unfoldable pub init :
    Key → RequestSt → Bool → Option Request → Option Request → Option (RequestSt × Pointers × Key)
init k d memory first second =
    let made : Option (RequestSt × Pointers × Key) =
      requests_init k (record d { status = succeeded }) first second in
    if memory then made else none

-- `request_close`
unfoldable pub close : RequestSt → Pointers → Option Pointers
close d p =
    let freed : Pointers =
      if d.parser.request.dest_addr_type == addrtype_domain
      then p
      else record { parser = false; request = false } in
    if p.parser then (if p.request then some freed else none) else none

-- `connecting_close`
unfoldable pub connecting_close : Pointers → Pointers
connecting_close p = if p.parser then record { parser = false; request = false } else p
