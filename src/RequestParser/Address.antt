-- ===== src/RequestParser/Address.antt =====
-- The address and the port of a request, byte by byte: `dest_addr` and `dest_port` of
-- src/Etapas/request_parser.c.
use proyecto_protos.Bytes.{store}
use proyecto_protos.Buffer.Drain.{feed_until}
use proyecto_protos.RequestParser.{
  dest_addr, dest_port, done, Parser, addrtype_domain, consume_byte,
}
use proyecto_protos.Prelude.{
  ℕ, suc, ◌+◌, ◌≤◌, ◌<◌, ◌≡◌, List, [], ◌∷◌, ◌++◌, false, some, length, set, length-set, ◌==◌,
  if◌then◌else◌, arith,
}

-- The parser inside an address of `n` bytes, `i` of them read.
abbrev pub reading : Parser → ℕ → ℕ → List ℕ → Parser
reading p n i bytes = record p {
  request = record (p.request) { address = bytes };
  state = dest_addr;
  remaining = n;
  read = i;
}

-- The parser before the two bytes of the port.
abbrev pub at_port : Parser → List ℕ → Parser
at_port p bytes = record p {
  request = record (p.request) { address = bytes; dest_port_bytes = 0 ∷ 0 ∷ [] };
  state = dest_port;
  remaining = 2;
  read = 0;
}

pub address_more :
    (p : Parser) (n i b : ℕ) (bytes : List ℕ)
    → suc i < n
    → n < 256
    → n ≤ length bytes
    → consume_byte (reading p n i bytes) b ≡ some (reading p n (suc i) (set bytes i b), false)
unfolding consume_byte
address_more p n i b bytes h k l = ground arith

pub address_last :
    (p : Parser) (n i b : ℕ) (bytes : List ℕ)
    → suc i ≡ n
    → n < 256
    → n ≤ length bytes
    → consume_byte (reading p n i bytes) b ≡ some (at_port p (set bytes i b), false)
unfolding consume_byte
address_last p n i b bytes h k l = ground arith

pub address_lem :
    (bs rest : List ℕ) (p : Parser) (n i : ℕ) (bytes : List ℕ)
    → i + length bs ≡ n
    → i < n
    → n < 256
    → n ≤ length bytes
    → feed_until consume_byte (reading p n i bytes) (bs ++ rest)
      ≡ feed_until consume_byte (at_port p (store i bs bytes)) rest
unfolding feed_until
address_lem [] rest p n i bytes e h k l = absurd (omega arith)
address_lem (b ∷ []) rest p n i bytes e h k l = rw (address_last p n i b bytes (omega arith) k l)
address_lem (b ∷ c ∷ bs) rest p n i bytes e h k l =
    rw (address_more p n i b bytes (omega arith) k l) (
      address_lem (c ∷ bs) rest p n (suc i) (set bytes i b) (omega arith) (omega arith) k
        (omega (arith, length-set bytes i b)))

-- What the parser holds after a request.
abbrev pub parsed : Parser → ℕ → List ℕ → List ℕ → Parser
parsed p t bytes port = record p {
  request = record (p.request) {
    address = bytes;
    dest_port_bytes = port;
    sin_port = if t == addrtype_domain then p.request.sin_port else port;
  };
  state = done;
  remaining = 2;
  read = 2;
}

pub port_lem :
    (p : Parser) (x y : ℕ) (rest bytes : List ℕ)
    → feed_until consume_byte (at_port p bytes) (x ∷ y ∷ rest)
      ≡ some (parsed p p.request.dest_addr_type bytes (x ∷ y ∷ []), rest)
unfolding feed_until consume_byte
port_lem p x y rest bytes = ground arith
