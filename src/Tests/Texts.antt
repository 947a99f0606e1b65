-- ===== src/Tests/Texts.antt =====
-- The text of an address, on the inputs of src/tests/netutils_test.c.
use proyecto_protos.Bytes.{set_byte}
use proyecto_protos.Client.{strcpy}
use proyecto_protos.Netutils.Human.{
  Sockaddr, strncpy, strncat, snprintf, cut_short, address_text, port_text, sockaddr_to_human,
}
use proyecto_protos.Netutils.Shown.{IsText, nothing, byte, human_lem}
use proyecto_protos.Request.{Family, inet}
use proyecto_protos.Resolver.{digits, port_of}
use proyecto_protos.Users.{cstr}
use proyecto_protos.Prelude.{
  ℕ, suc, ◌-◌, ◌<◌, ◌≡◌, refl, ◌⊎◌, Option, none, some, List, [], ◌∷◌, ◌++◌, length, take,
  replicate, ltb, if◌then◌else◌, ◌>>=◌, arith,
}

-- 1.2.3.4, at the port 9090.
abbrev address : Sockaddr
address = record { family = some inet; address = 1 ∷ 2 ∷ 3 ∷ 4 ∷ []; port = 35 ∷ 130 ∷ [] }

abbrev dotted : List ℕ
dotted = 49 ∷ 46 ∷ 50 ∷ 46 ∷ 51 ∷ 46 ∷ 52 ∷ []

abbrev inet_ntop : Family → List ℕ → ℕ → Option (List ℕ)
inet_ntop f bytes size = if ltb (length dotted) size then some dotted else none

-- What an array of 50 bytes shows after a call with this size.
abbrev shown : ℕ → Option (List ℕ)
shown size = do b ← sockaddr_to_human inet_ntop (replicate 50 0) size (some address); cstr b

-- "unkn", "1.2.3.4", "1.2.3.4:" and "1.2.3.4:9090"
shown5 : shown 5 ≡ some (117 ∷ 110 ∷ 107 ∷ 110 ∷ [])
unfolding sockaddr_to_human address_text port_text strncpy strncat snprintf cut_short set_byte
    strcpy cstr port_of digits
shown5 = refl

shown8 : shown 8 ≡ some dotted
unfolding sockaddr_to_human address_text port_text strncpy strncat snprintf cut_short set_byte
    strcpy cstr port_of digits
shown8 = refl

shown9 : shown 9 ≡ some (dotted ++ (58 ∷ []))
unfolding sockaddr_to_human address_text port_text strncpy strncat snprintf cut_short set_byte
    strcpy cstr port_of digits
shown9 = refl

shown13 : shown 13 ≡ some (dotted ++ (58 ∷ 57 ∷ 48 ∷ 57 ∷ 48 ∷ []))
unfolding sockaddr_to_human address_text port_text strncpy strncat snprintf cut_short set_byte
    strcpy cstr port_of digits
shown13 = refl

at_port : port_of address.port ≡ some 9090
unfolding port_of
at_port = refl

dotted-IsText : IsText dotted
dotted-IsText = byte (omega arith) (
    byte (omega arith) (
      byte (omega arith) (
        byte (omega arith) (byte (omega arith) (byte (omega arith) (byte (omega arith) nothing))))))

human_lem_example :
    (suc (length dotted) < 10)
      × ((b : List ℕ) × (sockaddr_to_human inet_ntop (replicate 10 0) 10 (some address) ≡ some b)
          × (cstr b ≡ some (take (10 - 1) (dotted ++ (58 ∷ digits 5 9090 [])))))
    ⊎ (suc (length dotted) ≡ 10)
      × (sockaddr_to_human inet_ntop (replicate 10 0) 10 (some address) ≡ none)
human_lem_example =
    human_lem inet_ntop address inet dotted (replicate 10 0) 10 9090 refl at_port refl dotted-IsText
      (omega arith) refl
