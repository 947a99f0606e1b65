-- ===== src/Resolver.antt =====
-- `request_resolv_blocking` of src/Etapas/resolv.c: what the thread does that resolves a name. It runs
-- between two events of the connection, whose state REQUEST_RESOLV asks for nothing. `getaddrinfo` is
-- outside: the list of addresses for a name and a service is an argument, `[]` where it fails.
use proyecto_protos.Connecting.{OriginSt, Resolved}
use proyecto_protos.Connection.{Key}
use proyecto_protos.Selector.{notify_block}
use proyecto_protos.Users.{cstr}
use proyecto_protos.Prelude.{
  ℕ, zero, suc, ◌+◌, ◌*◌, ◌/◌, ◌%◌, Bool, Option, none, some, List, [], ◌∷◌, ◌++◌, get_elem?, ltb,
  if◌then◌else◌, ◌>>=◌, pos, negsuc,
}

-- The first elements of an array, so many; `none` where it is shorter.
unfoldable pub copied : List ℕ → ℕ → Option (List ℕ)
copied array zero = some []
copied [] (suc n) = none
copied (x ∷ xs) (suc n) = do rest ← copied xs n; some (x ∷ rest)

-- `%d` of a number, on so many digits at most: a port has five.
unfoldable pub digits : ℕ → ℕ → List ℕ → List ℕ
digits zero n after = after
digits (suc fuel) n after =
    let more : List ℕ = digits fuel (n / 10) ((48 + n % 10) ∷ after) in
    if ltb n 10 then (48 + n) ∷ after else more

-- `ntohs` of the bytes of a port.
unfoldable pub port_of : List ℕ → Option ℕ
port_of bytes = do high ← get_elem? bytes 0; low ← get_elem? bytes 1; some (high * 256 + low)

-- The name as `getaddrinfo` gets it.
unfoldable pub name_of : OriginSt → Option (List ℕ)
name_of o = do
  host ← copied o.request.parser.request.address o.request.parser.request.fqdn_size
  cstr (host ++ (0 ∷ []))

-- `request_resolv_blocking`, on the key that `request_process` copied; `memory` is that of the job.
unfoldable pub resolv_blocking :
    (List ℕ → List ℕ → List Resolved) → Bool → Key → OriginSt → Option (Key × OriginSt)
resolv_blocking getaddrinfo memory k o = do
  name ← name_of o
  port ← port_of o.request.parser.request.dest_port_bytes
  let o' : OriginSt = record o { origin_resolution = getaddrinfo name (digits 5 port []) }
  elim k.fd [
    | negsuc n ↦ none
    | pos fd ↦
        (let (ret, s) = notify_block k.selector fd memory in some (record k { selector = s }, o'))
  ]
