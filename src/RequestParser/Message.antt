-- ===== src/RequestParser/Message.antt =====
-- The request VER CMD RSV ATYP DST.ADDR DST.PORT of include/request.h, and what
-- src/Etapas/request_parser.c makes of it.
use mathlib.Core.Path.{subst}
use proyecto_protos.Bytes.{store_lem, exact}
use proyecto_protos.Buffer.Drain.{feed_until}
use proyecto_protos.RequestParser.Address.{reading, address_lem, parsed, port_lem}
use proyecto_protos.RequestParser.{
  dest_addr, dest_addr_fqdn, done, Request, Parser, init, cmd_connect, addrtype_ipv4,
  addrtype_domain, addrtype_ipv6, max_fqdn_size, consume_byte,
}
use proyecto_protos.Prelude.{
  ℕ, suc, ◌≤◌, ◌<◌, ◌≡◌, refl, ◌⊎◌, inl, inr, ◌∙◌, ap, List, [], ◌∷◌, ◌++◌, append_assoc, sym, true,
  false, some, length, set, take, take-append_self, drop, replicate, length-set, ◌>>=◌, arith,
}

-- A CONNECT request to an IP address of `n` bytes, and to a domain name.
abbrev pub encode_ip : ℕ → ℕ → List ℕ → ℕ → ℕ → List ℕ
encode_ip r t bs x y = 0x05 ∷ cmd_connect ∷ r ∷ t ∷ (bs ++ (x ∷ y ∷ []))

abbrev pub encode_domain : ℕ → List ℕ → ℕ → ℕ → List ℕ
encode_domain r bs x y = 0x05 ∷ cmd_connect ∷ r ∷ addrtype_domain ∷ length bs ∷ (bs ++ (x ∷ y ∷ []))

-- The parser after the first four bytes.
abbrev typed : Request → ℕ → List ℕ → List ℕ → Parser
typed m t bytes port = record {
  request = record m {
    command = cmd_connect;
    dest_addr_type = t;
    address = bytes;
    sin_port = port;
  };
  state = dest_addr;
  remaining = 0;
  read = 0;
}

-- The lengths that go with the IP address types.
abbrev pub IsIp : ℕ → List ℕ → Type 0
IsIp t bs = ((t ≡ addrtype_ipv4) × (length bs ≡ 4)) ⊎ ((t ≡ addrtype_ipv6) × (length bs ≡ 16))

head_ipv4 :
    (m : Request) (r : ℕ) (l : List ℕ)
    → feed_until consume_byte (init m) (0x05 ∷ cmd_connect ∷ r ∷ addrtype_ipv4 ∷ l)
      ≡ feed_until consume_byte
          (reading (typed m addrtype_ipv4 [] (0 ∷ 0 ∷ [])) 4 0 (replicate 4 0))
          l
unfolding feed_until consume_byte init
head_ipv4 m r l = refl

head_ipv6 :
    (m : Request) (r : ℕ) (l : List ℕ)
    → feed_until consume_byte (init m) (0x05 ∷ cmd_connect ∷ r ∷ addrtype_ipv6 ∷ l)
      ≡ feed_until consume_byte
          (reading (typed m addrtype_ipv6 [] (0 ∷ 0 ∷ [])) 16 0 (replicate 16 0))
          l
unfolding feed_until consume_byte init
head_ipv6 m r l = refl

abbrev named : Request → ℕ → Parser
named m n = record (typed m addrtype_domain [] m.sin_port) {
  request = record m { command = cmd_connect; dest_addr_type = addrtype_domain; fqdn_size = n };
}

size_lem :
    (p : Parser) (n : ℕ)
    → n < 254
    → suc n ≤ length p.request.address
    → consume_byte (record p { state = dest_addr_fqdn }) (suc n)
      ≡ some (
        record p {
          request = record (p.request) { address = set p.request.address n 0; fqdn_size = suc n };
          state = dest_addr;
          remaining = suc n;
          read = 0;
        },
        false,
      )
unfolding consume_byte
size_lem p n h k = ground arith

head_domain :
    (m : Request) (r n : ℕ) (l : List ℕ)
    → n < 254
    → suc n ≤ length m.raw
    → feed_until consume_byte (init m) (0x05 ∷ cmd_connect ∷ r ∷ addrtype_domain ∷ suc n ∷ l)
      ≡ feed_until consume_byte (reading (named m (suc n)) (suc n) 0 (set m.raw n 0)) l
unfolding feed_until consume_byte init
head_domain m r n l h k =
    ap (λ o. o >>= λ p. elim p.1 [ true ↦ some (p.0, l) | false ↦ feed_until consume_byte p.0 l ])
      (size_lem
        (record {
          request = record m {
            command = cmd_connect;
            dest_addr_type = addrtype_domain;
            address = m.raw;
          };
          state = dest_addr_fqdn;
          remaining = 0;
          read = 0;
        })
        n h k)

-- What a request leaves in the parser: the type, the address and the port that the client sent.
pub record Holds (t : ℕ) (bs : List ℕ) (x y : ℕ) (p : Parser) : Type 0 where
  pub finished : p.state ≡ done
  pub command : p.request.command ≡ cmd_connect
  pub kind : p.request.dest_addr_type ≡ t
  pub address : take (length bs) p.request.address ≡ bs
  pub port : p.request.dest_port_bytes ≡ x ∷ y ∷ []

tail_lem :
    (bs rest base : List ℕ) (p : Parser) (n x y : ℕ)
    → length bs ≡ n
    → 0 < n
    → n < 256
    → n ≤ length base
    → feed_until consume_byte (reading p n 0 base) ((bs ++ (x ∷ y ∷ [])) ++ rest)
      ≡ some (parsed p p.request.dest_addr_type (bs ++ drop (length bs) base) (x ∷ y ∷ []), rest)
tail_lem bs rest base p n x y e h k l = rw (append_assoc bs (x ∷ y ∷ []) rest) (
    address_lem bs (x ∷ y ∷ rest) p n 0 base (omega arith) h k l
    ∙ rw (store_lem bs base (omega arith)) (port_lem p x y rest (bs ++ drop (length bs) base)))

-- What is claimed of a request to an IP address.
abbrev pub ReadsIp : Request → ℕ → ℕ → List ℕ → List ℕ → ℕ → ℕ → Type 0
ReadsIp m r t bs rest x y =
    (p : Parser) × (feed_until consume_byte (init m) (encode_ip r t bs x y ++ rest)
      ≡ some (p, rest))
    × Holds t bs x y p
    × (p.request.address ≡ bs)
    × (p.request.sin_port ≡ x ∷ y ∷ [])

-- A CONNECT request to an IPv4 or IPv6 address, with whatever follows it, is read to its end; the
-- parser then holds its address and port, and the port stands in the socket address too.
pub request_ip_roundtrip :
    (m : Request) (r t : ℕ) (bs rest : List ℕ) (x y : ℕ) → IsIp t bs → ReadsIp m r t bs rest x y
request_ip_roundtrip m r t bs rest x y (inl h) =
    subst (λ u. ReadsIp m r u bs rest x y) (sym h.0)
      (
        parsed (typed m addrtype_ipv4 [] (0 ∷ 0 ∷ [])) addrtype_ipv4
            (bs ++ drop (length bs) (replicate 4 0)) (x ∷ y ∷ []),
        head_ipv4 m r _
            ∙ tail_lem bs rest (replicate 4 0) (typed m addrtype_ipv4 [] (0 ∷ 0 ∷ [])) 4 x y h.1
                (omega arith) (omega arith) (omega arith),
        record {
          finished = refl;
          command = refl;
          kind = refl;
          address = take-append_self bs _;
          port = refl;
        },
        exact bs (replicate 4 0) (sym h.1),
        refl,
      )
request_ip_roundtrip m r t bs rest x y (inr h) =
    subst (λ u. ReadsIp m r u bs rest x y) (sym h.0)
      (
        parsed (typed m addrtype_ipv6 [] (0 ∷ 0 ∷ [])) addrtype_ipv6
            (bs ++ drop (length bs) (replicate 16 0)) (x ∷ y ∷ []),
        head_ipv6 m r _
            ∙ tail_lem bs rest (replicate 16 0) (typed m addrtype_ipv6 [] (0 ∷ 0 ∷ [])) 16 x y h.1
                (omega arith) (omega arith) (omega arith),
        record {
          finished = refl;
          command = refl;
          kind = refl;
          address = take-append_self bs _;
          port = refl;
        },
        exact bs (replicate 16 0) (sym h.1),
        refl,
      )

-- A CONNECT request to a domain name of 1 to 254 bytes, with whatever follows it, is read to its end;
-- the parser then holds the name, its size and the port.
pub request_domain_roundtrip :
    (m : Request) (r : ℕ) (bs rest : List ℕ) (x y : ℕ)
    → 0 < length bs
    → length bs < max_fqdn_size
    → max_fqdn_size ≤ length m.raw
    → (p : Parser) × (feed_until consume_byte (init m) (encode_domain r bs x y ++ rest)
        ≡ some (p, rest))
      × Holds addrtype_domain bs x y p
      × (p.request.fqdn_size ≡ length bs)
request_domain_roundtrip m r [] rest x y h k l = elim h [ ]
request_domain_roundtrip m r (b ∷ bs) rest x y h k l = (
  parsed (named m (suc (length bs))) addrtype_domain
      ((b ∷ bs) ++ drop (length (b ∷ bs)) (set m.raw (length bs) 0)) (x ∷ y ∷ []),
  head_domain m r (length bs) _ (omega arith) (omega arith)
      ∙ tail_lem (b ∷ bs) rest (set m.raw (length bs) 0) (named m (suc (length bs)))
          (suc (length bs)) x y refl (omega arith) (omega arith)
          (omega (arith, length-set m.raw (length bs) 0)),
  record {
    finished = refl;
    command = refl;
    kind = refl;
    address = take-append_self (b ∷ bs) _;
    port = refl;
  },
  refl,
)
