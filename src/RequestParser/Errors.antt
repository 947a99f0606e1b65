-- ===== src/RequestParser/Errors.antt =====
-- The requests that src/Etapas/request_parser.c does not accept.
use proyecto_protos.Buffer.Drain.{feed_until}
use proyecto_protos.RequestParser.{
  State, cmd, atyp, error, error_unsupported_cmd, error_unsupported_type, error_unsupported_version,
  Request, Parser, init, cmd_connect, addrtype_ipv4, addrtype_domain, addrtype_ipv6, consume_byte,
}
use proyecto_protos.Prelude.{ℕ, ◌≡◌, refl, ◌≢◌, List, [], ◌∷◌, Bool, true, false, none, some, arith}

abbrev pub is_error : State → Bool
is_error error = true
is_error error_unsupported_cmd = true
is_error error_unsupported_type = true
is_error error_unsupported_version = true
is_error _ = false

error_byte : (p : Parser) (b : ℕ) → is_error p.state ≡ true → consume_byte p b ≡ some (p, false)
unfolding consume_byte
error_byte p b h = ground arith

-- A parser in an error state eats all that comes and never finishes.
pub error_absorbs :
    (p : Parser) (bytes : List ℕ)
    → is_error p.state ≡ true
    → feed_until consume_byte p bytes ≡ some (p, [])
unfolding feed_until
error_absorbs p [] h = refl
error_absorbs p (b ∷ bs) h = rw (error_byte p b h) (error_absorbs p bs h)

stops :
    (p p' : Parser) (b : ℕ) (rest : List ℕ)
    → consume_byte p b ≡ some (p', false)
    → is_error p'.state ≡ true
    → feed_until consume_byte p (b ∷ rest) ≡ some (p', [])
unfolding feed_until
stops p p' b rest e h = rw e (error_absorbs p' rest h)

version_fault :
    (m : Request) (v : ℕ)
    → v ≢ 0x05
    → consume_byte (init m) v ≡ some (record (init m) { state = error_unsupported_version }, false)
unfolding consume_byte init
version_fault m v h = ground arith

at_cmd : Request → Parser
at_cmd m = record { request = m; state = cmd; remaining = 0; read = 0 }

cmd_fault :
    (m : Request) (c : ℕ)
    → c ≢ cmd_connect
    → consume_byte (at_cmd m) c ≡ some (record (at_cmd m) { state = error_unsupported_cmd }, false)
unfolding consume_byte at_cmd
cmd_fault m c h = ground arith

at_type : Request → State → Parser
at_type m s = record { request = m; state = s; remaining = 0; read = 0 }

type_fault :
    (m : Request) (t : ℕ)
    → t ≢ addrtype_ipv4
    → t ≢ addrtype_domain
    → t ≢ addrtype_ipv6
    → consume_byte (at_type m atyp) t
      ≡ some (at_type (record m { dest_addr_type = t }) error_unsupported_type, false)
unfolding consume_byte at_type
type_fault m t h h' h'' = ground arith

-- A request that begins with another version, that is not a CONNECT, or whose address type is none
-- of the three.
pub data Unsupported : List ℕ → State → Type 0 where
  bad_version :
      (v : ℕ) (rest : List ℕ) → v ≢ 0x05 → Unsupported (v ∷ rest) error_unsupported_version
  bad_cmd :
      (c : ℕ) (rest : List ℕ)
      → c ≢ cmd_connect
      → Unsupported (0x05 ∷ c ∷ rest) error_unsupported_cmd
  bad_type :
      (r t : ℕ) (rest : List ℕ)
      → t ≢ addrtype_ipv4
      → t ≢ addrtype_domain
      → t ≢ addrtype_ipv6
      → Unsupported (0x05 ∷ cmd_connect ∷ r ∷ t ∷ rest) error_unsupported_type

-- The parse of an unsupported request never finishes: it eats every byte and stays in the error state
-- that names the fault.
pub never_finished :
    (m : Request) {bytes : List ℕ} {s : State}
    → Unsupported bytes s
    → (p : Parser) × (feed_until consume_byte (init m) bytes ≡ some (p, []))
      × (p.state ≡ s)
      × (is_error p.state ≡ true)
unfolding feed_until consume_byte init at_cmd at_type
never_finished m (bad_version v rest h) = (
  record (init m) { state = error_unsupported_version },
  stops (init m) _ v rest (version_fault m v h) refl,
  refl,
  refl,
)
never_finished m (bad_cmd c rest h) = (
  record (at_cmd m) { state = error_unsupported_cmd },
  stops (at_cmd m) _ c rest (cmd_fault m c h) refl,
  refl,
  refl,
)
never_finished m (bad_type r t rest h h' h'') =
    let m' : Request = record m { command = cmd_connect } in
    (
      at_type (record m' { dest_addr_type = t }) error_unsupported_type,
      stops (at_type m' atyp) _ t rest (type_fault m' t h h' h'') refl,
      refl,
      refl,
    )

-- A domain name of length 0 makes the parser write its terminator before the array.
pub empty_domain_stops :
    (m : Request) (r : ℕ) (rest : List ℕ)
    → feed_until consume_byte (init m) (0x05 ∷ cmd_connect ∷ r ∷ addrtype_domain ∷ 0 ∷ rest) ≡ none
unfolding feed_until consume_byte init
empty_domain_stops m r rest = refl
