-- ===== src/Auth/Message.antt =====
-- The message VER ULEN UNAME PLEN PASSWD of RFC 1929, and what the parser of
-- src/Etapas/authentication.c makes of it.
use proyecto_protos.Buffer.Drain.{feed_until}
use proyecto_protos.Auth.{
  method_version, version_error, check_version, version_substate, size_substate, string_substate,
  unset_parser,
}
use proyecto_protos.Bytes.{set_byte}
use proyecto_protos.MyParser.{
  Parser, Substate, read_n, done_read, error_read, advance, finish_long, feed_long, feed, dispatch,
  is_done, consume_byte,
}
use proyecto_protos.MyParser.Strings.{long, go_on, string_lem}
use proyecto_protos.Prelude.{
  ℕ, ◌<◌, ◌≡◌, ◌≢◌, refl, ◌∙◌, ap, List, [], ◌∷◌, ◌++◌, some, true, false, length, arith,
  append_assoc,
}

-- A client's message.
abbrev pub encode : List ℕ → List ℕ → List ℕ
encode name pass = method_version ∷ length name ∷ (name ++ (length pass ∷ pass))

-- The sub-states once the version is read.
abbrev pub version_read : Substate
version_read = record version_substate { remaining = 0; result = some (1 ∷ 0 ∷ []) }

-- A string that has been read, with its terminator.
abbrev pub read_string : List ℕ → Substate
read_string bs = record string_substate {
  size = length bs;
  remaining = 0;
  result = some (bs ++ (0 ∷ []));
}

abbrev pub parsed : List ℕ → List ℕ → Parser
parsed name pass = record {
  index = 5;
  size = 5;
  current = done_read;
  states = version_read ∷ size_substate ∷ read_string name ∷ size_substate ∷ read_string pass ∷ [];
  error = 0;
}

-- The parser before the length of the name.
abbrev before_name : Parser
before_name = record {
  index = 1;
  size = 5;
  current = read_n;
  states = version_read ∷ size_substate ∷ string_substate ∷ size_substate ∷ string_substate ∷ [];
  error = 0;
}

-- And before that of the password.
abbrev before_pass : List ℕ → Parser
before_pass name = record {
  index = 3;
  size = 5;
  current = read_n;
  states = version_read ∷ size_substate ∷ read_string name ∷ size_substate ∷ string_substate ∷ [];
  error = 0;
}

version_byte : consume_byte unset_parser method_version ≡ some (before_name, false)
unfolding consume_byte feed dispatch feed_long finish_long advance is_done set_byte check_version
version_byte = refl

name_end :
    (name rest : List ℕ)
    → go_on (advance (long before_name 2 string_substate (length name) 0 (name ++ (0 ∷ [])))) rest
      ≡ feed_until consume_byte (before_pass name) rest
unfolding advance is_done feed_until
name_end name rest = refl

pass_end :
    (name pass rest : List ℕ)
    → go_on
        (advance (long (before_pass name) 4 string_substate (length pass) 0 (pass ++ (0 ∷ []))))
        rest
      ≡ some (parsed name pass, rest)
unfolding advance is_done
pass_end name pass rest = refl

after_version :
    (name pass rest : List ℕ)
    → length name < 256
    → length pass < 256
    → feed_until consume_byte before_name (length name ∷ (name ++ (length pass ∷ (pass ++ rest))))
      ≡ some (parsed name pass, rest)
after_version name pass rest h k =
    string_lem before_name 1 size_substate string_substate name (length pass ∷ (pass ++ rest))
      (omega arith) (omega arith) (omega arith) refl refl refl refl h
    ∙ name_end name (length pass ∷ (pass ++ rest))
    ∙ string_lem (before_pass name) 3 size_substate string_substate pass rest (omega arith)
        (omega arith) (omega arith) refl refl refl refl k
    ∙ pass_end name pass rest

-- The parser of `auth_read_init` reads a message up to its end, whatever follows: it stores the name
-- and the password, each with a terminator behind it.
pub auth_roundtrip :
    (name pass rest : List ℕ)
    → length name < 256
    → length pass < 256
    → feed_until consume_byte unset_parser (encode name pass ++ rest)
      ≡ some (parsed name pass, rest)
unfolding feed_until
auth_roundtrip name pass rest h k = rw version_byte (
    ap (λ l. feed_until consume_byte before_name (length name ∷ l))
      (append_assoc name (length pass ∷ pass) rest)
    ∙ after_version name pass rest h k)

-- The parser after a version that is not 1.
abbrev pub stopped : ℕ → Parser
stopped v = record {
  index = 0;
  size = 5;
  current = error_read;
  states =
      record version_substate { remaining = 0; result = some (v ∷ 0 ∷ []) }
      ∷ size_substate
      ∷ string_substate
      ∷ size_substate
      ∷ string_substate
      ∷ [];
  error = version_error;
}

other_version : (v : ℕ) → v ≢ method_version → consume_byte unset_parser v ≡ some (stopped v, true)
unfolding consume_byte feed dispatch feed_long finish_long is_done set_byte check_version
other_version v h = ground (arith, h)

-- The parser stops at a version that is not 1, before it knows a name or a password.
pub wrong_version :
    (v : ℕ) (rest : List ℕ)
    → v ≢ method_version
    → feed_until consume_byte unset_parser (v ∷ rest) ≡ some (stopped v, rest)
unfolding feed_until
wrong_version v rest h = rw (other_version v h)
