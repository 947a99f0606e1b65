-- ===== src/Hello/Message.antt =====
-- The message VER NMETHODS METHODS of include/hello.h, and what `hello_consume` makes of it.
use proyecto_protos.Buffer.Drain.{feed_until}
use proyecto_protos.Hello.{
  State, version, nmethods, methods, done, error_unsupported_version, HelloSt, consume_byte,
}
use proyecto_protos.Prelude.{
  ℕ, zero, suc, ◌<◌, ◌≡◌, refl, ◌≢◌, ◌∙◌, ap, List, [], ◌∷◌, ◌++◌, Bool, true, false, some, length,
  ◌==◌, ◌||◌, if◌then◌else◌, arith,
}

-- A client's message.
abbrev pub encode : ℕ → List ℕ → List ℕ
encode ver ms = ver ∷ length ms ∷ ms

-- Whether the method is in the list.
abbrev pub offers : ℕ → List ℕ → Bool
offers m [] = false
offers m (x ∷ xs) = (m == x) || offers m xs

-- The method chosen from a list, where `before` was chosen so far.
abbrev pub chosen : ℕ → ℕ → List ℕ → ℕ
chosen wanted before ms = if offers wanted ms then wanted else before

-- The record with its parser in a state, some methods left to read, and a method chosen so far.
abbrev pub at : HelloSt → State → ℕ → ℕ → HelloSt
at d s left m = record d { method = m; parser = record (d.parser) { state = s; remaining = left } }

abbrev choice : HelloSt → ℕ → ℕ → ℕ
choice d m x = if d.parser.wanted_method == x then x else m

method_more :
    (d : HelloSt) (n m x : ℕ)
    → n < 254
    → consume_byte (at d methods (suc (suc n)) m) x
      ≡ some (at d methods (suc n) (choice d m x), false)
unfolding consume_byte
method_more d n m x h = ground arith

method_last :
    (d : HelloSt) (m x : ℕ)
    → consume_byte (at d methods 1 m) x ≡ some (at d done 0 (choice d m x), true)
unfolding consume_byte
method_last d m x = ground arith

choice-chosen :
    (d : HelloSt) (m x : ℕ) (ms : List ℕ)
    → chosen d.parser.wanted_method (choice d m x) ms ≡ chosen d.parser.wanted_method m (x ∷ ms)
choice-chosen d m x ms = ground arith

-- The methods, once their number is known.
methods_lem :
    (ms rest : List ℕ) (d : HelloSt) (n m : ℕ)
    → length ms ≡ suc n
    → n < 255
    → feed_until consume_byte (at d methods (suc n) m) (ms ++ rest)
      ≡ some (at d done 0 (chosen d.parser.wanted_method m ms), rest)
unfolding feed_until
methods_lem [] rest d n m l h = absurd (omega arith)
methods_lem (x ∷ []) rest d zero m l h =
    rw method_last (ap (λ c. some (at d done 0 c, rest)) (choice-chosen d m x []))
methods_lem (x ∷ y ∷ ms) rest d zero m l h = absurd (omega arith)
methods_lem (x ∷ ms) rest d (suc n) m l h = rw (method_more d n m x (omega arith)) (
    methods_lem ms rest d n (choice d m x) (omega arith) (omega arith)
    ∙ ap (λ c. some (at d done 0 c, rest)) (choice-chosen d m x ms))

start :
    (d : HelloSt) (left m : ℕ)
    → consume_byte (at d version left m) d.parser.protocol_version
      ≡ some (at d nmethods left m, false)
unfolding consume_byte
start d left m = ground arith

number-zero :
    (d : HelloSt) (left m : ℕ) → consume_byte (at d nmethods left m) 0 ≡ some (at d done 0 m, true)
unfolding consume_byte
number-zero d left m = refl

number-suc :
    (d : HelloSt) (left m n : ℕ)
    → consume_byte (at d nmethods left m) (suc n) ≡ some (at d methods (suc n) m, false)
unfolding consume_byte
number-suc d left m n = ground arith

-- A parser at its start reads the client's message, whatever follows it, to its end: it chooses the
-- method that it wants if the client offers it, and keeps 0xFF if not.
pub hello_roundtrip :
    (d : HelloSt) (ms rest : List ℕ)
    → length ms < 256
    → feed_until consume_byte (at d version 0 0xFF) (encode d.parser.protocol_version ms ++ rest)
      ≡ some (at d done 0 (chosen d.parser.wanted_method 0xFF ms), rest)
unfolding feed_until
hello_roundtrip d [] rest h = rw (start, number-zero)
hello_roundtrip d (m ∷ ms) rest h =
    rw (start, number-suc) (methods_lem (m ∷ ms) rest d (length ms) 0xFF refl (omega arith))

-- Any other version ends the parse at once, as an error.
pub hello_version_error :
    (d : HelloSt) (b : ℕ) (rest : List ℕ)
    → b ≢ d.parser.protocol_version
    → feed_until consume_byte (at d version 0 0xFF) (b ∷ rest)
      ≡ some (at d error_unsupported_version 0 0xFF, rest)
unfolding feed_until consume_byte
hello_version_error d b rest ne = ground arith
