-- ===== src/Netutils/Human.antt =====
-- `sockaddr_to_human` of src/netutils.c, and the string functions that it calls. `inet_ntop` is outside:
-- the text for a family, an address and a size is an argument, `none` where it fails.
use proyecto_protos.Bytes.{set_byte}
use proyecto_protos.Client.{strcpy}
use proyecto_protos.Request.{Family}
use proyecto_protos.Resolver.{digits, port_of}
use proyecto_protos.Users.{cstr}
use proyecto_protos.Prelude.{
  ℕ, zero, suc, ◌-◌, Option, none, some, List, [], ◌∷◌, length, take, ◌>>=◌,
}

-- `struct sockaddr`; the family is `none` where it is neither AF_INET nor AF_INET6.
pub record Sockaddr : Type 0 where
  pub family : Option Family
  pub address : List ℕ
  pub port : List ℕ

-- `strncpy(array + i, text, n)`: what is left of the `n` bytes is cleared.
unfoldable pub strncpy : List ℕ → ℕ → List ℕ → ℕ → Option (List ℕ)
strncpy array i text zero = some array
strncpy array i [] (suc n) = do array' ← set_byte array i 0; strncpy array' (suc i) [] n
strncpy array i (c ∷ cs) (suc n) = do array' ← set_byte array i c; strncpy array' (suc i) cs n

-- `strncat(array, text, n)`
unfoldable pub strncat : List ℕ → List ℕ → ℕ → Option (List ℕ)
strncat array text n = do s ← cstr array; strcpy array (length s) (take n text)

-- `snprintf(array + i, n, ...)` of what the format makes: nothing is written where `n` is 0.
unfoldable pub snprintf : List ℕ → ℕ → ℕ → List ℕ → Option (List ℕ)
snprintf array i zero text = some array
snprintf array i (suc n) text = strcpy array i (take n text)

-- `buff[buffsize - 1] = 0`
unfoldable pub cut_short : List ℕ → ℕ → Option (List ℕ)
cut_short array zero = none
cut_short array (suc m) = set_byte array m 0

-- "null", "unknown" and "unknown ip"
abbrev pub null_text : List ℕ
null_text = 110 ∷ 117 ∷ 108 ∷ 108 ∷ []

abbrev pub unknown_text : List ℕ
unknown_text = 117 ∷ 110 ∷ 107 ∷ 110 ∷ 111 ∷ 119 ∷ 110 ∷ []

abbrev pub unknown_ip_text : List ℕ
unknown_ip_text = 117 ∷ 110 ∷ 107 ∷ 110 ∷ 111 ∷ 119 ∷ 110 ∷ 32 ∷ 105 ∷ 112 ∷ []

-- The text of the address.
unfoldable pub address_text :
    (Family → List ℕ → ℕ → Option (List ℕ)) → List ℕ → ℕ → Sockaddr → Option (List ℕ)
address_text inet_ntop array size a = elim a.family [
  | none ↦ strncpy array 0 unknown_text size
  | some f ↦
      (let failed : Option (List ℕ) = (do
        array' ← strncpy array 0 unknown_ip_text size
        cut_short array' size) in
        elim (inet_ntop f a.address size) [ none ↦ failed | some t ↦ strcpy array 0 t ])
]

-- The text of the port, behind the `len` bytes that stand there.
unfoldable pub port_text : List ℕ → ℕ → ℕ → Sockaddr → Option (List ℕ)
port_text array len size a = elim a.family [
  | none ↦ some array
  | some f ↦ (do port ← port_of a.port; snprintf array len (size - len) (digits 5 port []))
]

-- `sockaddr_to_human`; an address that is NULL is `none`. The bytes of `array` are those that may be
-- written, `size` is `buffsize`.
unfoldable pub sockaddr_to_human :
    (Family → List ℕ → ℕ → Option (List ℕ)) → List ℕ → ℕ → Option Sockaddr → Option (List ℕ)
unfolding address_text port_text
sockaddr_to_human inet_ntop array size none = strncpy array 0 null_text size
sockaddr_to_human inet_ntop array size (some a) = do
  b1 ← address_text inet_ntop array size a
  b2 ← strncat b1 (58 ∷ []) size
  b3 ← cut_short b2 size
  s ← cstr b3
  b4 ← port_text b3 (length s) size a
  cut_short b4 size
