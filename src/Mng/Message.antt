-- ===== src/Mng/Message.antt =====
-- The messages of a management client, and what the parsers of src/Etapas/mng_request.c make of them.
use proyecto_protos.Buffer.Drain.{feed_until}
use proyecto_protos.Mng.{size_substate, string_substate, parser_of}
use proyecto_protos.MyParser.{Parser, Substate, read_n, done_read, advance, is_done, consume_byte}
use proyecto_protos.MyParser.Strings.{long, at_size, go_on, string_lem}
use proyecto_protos.Prelude.{
  ℕ, ◌<◌, ◌≡◌, refl, ◌∙◌, ap, List, [], ◌∷◌, ◌++◌, append_assoc, some, length, arith,
}

-- The message ULEN UNAME PLEN PASSWD.
abbrev pub encode_add : List ℕ → List ℕ → List ℕ
encode_add name pass = length name ∷ (name ++ (length pass ∷ pass))

-- A string that has been read, with its terminator.
abbrev pub read_string : List ℕ → Substate
read_string bs = record string_substate {
  size = length bs;
  remaining = 0;
  result = some (bs ++ (0 ∷ []));
}

-- The parsers that `mng_request_init` sets up.
abbrev pub add_parser : Parser
add_parser =
    at_size (parser_of 4 (size_substate ∷ string_substate ∷ size_substate ∷ string_substate ∷ [])) 0

abbrev pub delete_parser : Parser
delete_parser = at_size (parser_of 2 (size_substate ∷ string_substate ∷ [])) 0

abbrev pub parsed_add : List ℕ → List ℕ → Parser
parsed_add name pass = record {
  index = 4;
  size = 4;
  current = done_read;
  states = size_substate ∷ read_string name ∷ size_substate ∷ read_string pass ∷ [];
  error = 0;
}

abbrev pub parsed_delete : List ℕ → Parser
parsed_delete name = record {
  index = 2;
  size = 2;
  current = done_read;
  states = size_substate ∷ read_string name ∷ [];
  error = 0;
}

abbrev before_pass : List ℕ → Parser
before_pass name = record {
  index = 2;
  size = 4;
  current = read_n;
  states = size_substate ∷ read_string name ∷ size_substate ∷ string_substate ∷ [];
  error = 0;
}

name_end :
    (name rest : List ℕ)
    → go_on (advance (long add_parser 1 string_substate (length name) 0 (name ++ (0 ∷ [])))) rest
      ≡ feed_until consume_byte (before_pass name) rest
unfolding advance is_done feed_until
name_end name rest = refl

pass_end :
    (name pass rest : List ℕ)
    → go_on
        (advance (long (before_pass name) 3 string_substate (length pass) 0 (pass ++ (0 ∷ []))))
        rest
      ≡ some (parsed_add name pass, rest)
unfolding advance is_done
pass_end name pass rest = refl

delete_end :
    (name rest : List ℕ)
    → go_on (advance (long delete_parser 1 string_substate (length name) 0 (name ++ (0 ∷ [])))) rest
      ≡ some (parsed_delete name, rest)
unfolding advance is_done
delete_end name rest = refl

pub add_message :
    (name pass rest : List ℕ)
    → length name < 256
    → length pass < 256
    → feed_until consume_byte add_parser (encode_add name pass ++ rest)
      ≡ some (parsed_add name pass, rest)
add_message name pass rest h k =
    ap (λ l. feed_until consume_byte add_parser (length name ∷ l))
      (append_assoc name (length pass ∷ pass) rest)
    ∙ string_lem add_parser 0 size_substate string_substate name (length pass ∷ (pass ++ rest))
        (omega arith) (omega arith) (omega arith) refl refl refl refl h
    ∙ name_end name (length pass ∷ (pass ++ rest))
    ∙ string_lem (before_pass name) 2 size_substate string_substate pass rest (omega arith)
        (omega arith) (omega arith) refl refl refl refl k
    ∙ pass_end name pass rest

pub delete_message :
    (name rest : List ℕ)
    → length name < 256
    → feed_until consume_byte delete_parser ((length name ∷ name) ++ rest)
      ≡ some (parsed_delete name, rest)
delete_message name rest h =
    string_lem delete_parser 0 size_substate string_substate name rest (omega arith) (omega arith)
      (omega arith) refl refl refl refl h
    ∙ delete_end name rest
