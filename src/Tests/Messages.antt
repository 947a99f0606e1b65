-- ===== src/Tests/Messages.antt =====
-- The parsers on whole messages, and the replies.
use proyecto_protos.Buffer.{Buffer}
use proyecto_protos.Buffer.Valid.{IsValid}
use proyecto_protos.Buffer.Drain.{feed_until}
use proyecto_protos.Mng.Marshal.{list_users_marshall}
use proyecto_protos.Mng.Listing.{list_users_overflow}
use proyecto_protos.RequestParser.{
  Parser, Request, State, addrtype_ipv4, addrtype_domain, cmd_connect, error_unsupported_cmd,
}
use proyecto_protos.RequestParser
use proyecto_protos.RequestParser.Message.{encode_domain, request_domain_roundtrip}
use proyecto_protos.RequestParser.Message as RequestMessage
use proyecto_protos.Tests.Fixtures.{two_users, two_users-Holds, ana, beto}
use proyecto_protos.Prelude.{◌≡◌, [], ◌∷◌, ◌++◌, none, some, replicate, arith}

abbrev pub memory : Request
memory = record {
  command = 0;
  dest_addr_type = 0;
  raw = replicate 255 7;
  address = [];
  sin_port = [];
  fqdn_size = 0;
  dest_port_bytes = [];
}

request_domain_roundtrip_example :
    (p : Parser) × (feed_until RequestParser.consume_byte
        (RequestParser.init memory)
        (encode_domain 0 (97 ∷ 98 ∷ []) 0 80 ++ (9 ∷ []))
      ≡ some (p, 9 ∷ []))
    × RequestMessage.Holds addrtype_domain (97 ∷ 98 ∷ []) 0 80 p
    × (p.request.fqdn_size ≡ 2)
request_domain_roundtrip_example =
    request_domain_roundtrip memory 0 (97 ∷ 98 ∷ []) (9 ∷ []) 0 80 (omega arith) (omega arith)
      (omega arith)

-- Five bytes of room, where two users of one letter want six.
abbrev narrow : Buffer
narrow = record { mem = replicate 5 0; limit = 5; read = 0; write = 0 }

narrow-IsValid : IsValid narrow
narrow-IsValid = record { read_le = omega arith; write_le = omega arith; storage = omega arith }

list_users_overflow_example : list_users_marshall narrow two_users ≡ none
list_users_overflow_example =
    list_users_overflow narrow two_users (ana ∷ beto ∷ []) narrow-IsValid two_users-Holds
      (omega arith) (omega arith) (omega arith)
