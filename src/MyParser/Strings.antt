-- ===== src/MyParser/Strings.antt =====
-- What src/myParser.c does with a length and the string that follows it.
use proyecto_protos.Buffer.Drain.{feed_until}
use proyecto_protos.Bytes.{set_byte, store, set-set, stored_string}
use proyecto_protos.MyParser.{
  read_n, long_read, Substate, Parser, advance, feed_n, feed_size, finish_long, feed_long, is_done,
  consume_byte, with_substate,
}
use proyecto_protos.Prelude.{
  ℕ, zero, suc, ◌+◌, ◌-◌, ◌%◌, ◌≤◌, ◌<◌, ◌≡◌, refl, ◌∙◌, ap, Bool, true, false, Option, none, some,
  List, [], ◌∷◌, ◌++◌, length, get_elem?, set, replicate, get_elem?-set_self, length-set,
  length-replicate, ◌>>=◌, arith,
}

-- Sub-state `i` reads a string of `n` bytes into `array`, of which `left` are missing.
abbrev pub long : Parser → ℕ → Substate → ℕ → ℕ → List ℕ → Parser
long p i s n left array = record p {
  index = i;
  current = long_read;
  states = set p.states i (record s { size = n; remaining = left; result = some array });
}

-- A byte that is not the last, on the sub-state itself.
byte_more :
    (p : Parser) (s : Substate) (left b : ℕ) (array : List ℕ)
    → suc (suc left) ≤ s.size
    → s.size < 256
    → s.size < length array
    → s.remaining ≡ suc (suc left)
    → s.result ≡ some array
    → feed_long p s b
      ≡ some (
          with_substate p (record s {
            remaining = suc left;
            result = some (set array (s.size - suc (suc left)) b);
          }))
unfolding feed_long set_byte
byte_more p s left b array k l m r e = ground arith

byte_last :
    (p : Parser) (s : Substate) (b : ℕ) (array : List ℕ)
    → 0 < s.size
    → s.size < length array
    → s.remaining ≡ 1
    → s.result ≡ some array
    → s.check_function ≡ none
    → feed_long p s b
      ≡ advance (
          with_substate p
            (record s { remaining = 0; result = some (set (set array (s.size - 1) b) s.size 0) }))
unfolding feed_long finish_long set_byte
byte_last p s b array k m r e c = ground (arith, length-set array (s.size - 1) b)

long_more :
    (p : Parser) (i : ℕ) (s : Substate) (n left b : ℕ) (array : List ℕ)
    → i < length p.states
    → suc (suc left) ≤ n
    → n < 256
    → n < length array
    → consume_byte (long p i s n (suc (suc left)) array) b
      ≡ some (long p i s n (suc left) (set array (n - suc (suc left)) b), false)
unfolding consume_byte
long_more p i s n left b array h k l m =
    let here : Substate = record s { size = n; remaining = suc (suc left); result = some array } in
    rw (
      get_elem?-set_self p.states i here h,
      byte_more (long p i s n (suc (suc left)) array) here left b array k l m refl refl,
      set-set p.states i here,
    )

-- The last byte, in a string that is not checked.
long_last :
    (p : Parser) (i : ℕ) (s : Substate) (n b : ℕ) (array : List ℕ)
    → i < length p.states
    → 0 < n
    → n < length array
    → s.check_function ≡ none
    → consume_byte (long p i s n 1 array) b ≡ (
        advance (long p i s n 0 (set (set array (n - 1) b) n 0)) >>= λ q.
        some (q, (is_done q.current).0))
unfolding consume_byte
long_last p i s n b array h k m c =
    let here : Substate = record s { size = n; remaining = 1; result = some array } in
    rw (
      get_elem?-set_self p.states i here h,
      byte_last (long p i s n 1 array) here b array k m refl refl c,
      set-set p.states i here,
    )

-- A parse that has come to the end of a sub-state goes on with the next, or ends.
abbrev pub go_on : Option Parser → List ℕ → Option (Parser × List ℕ)
go_on o rest = o >>= λ q. elim (is_done q.current).0 [
  | true ↦ some (q, rest)
  | false ↦ feed_until consume_byte q rest
]

-- The answer of a round, from the parser after it.
abbrev flagged : Option Parser → Option (Parser × Bool)
flagged o = o >>= λ q. some (q, (is_done q.current).0)

bind_go :
    (o : Option Parser) (rest : List ℕ)
    → (flagged o >>= λ x. elim x.1 [
      | true ↦ some (x.0, rest)
      | false ↦ feed_until consume_byte x.0 rest
    ])
      ≡ go_on o rest
bind_go none rest = refl
bind_go (some q) rest = refl

long_lem :
    (bs rest : List ℕ) (p : Parser) (i : ℕ) (s : Substate) (n left at : ℕ) (array : List ℕ)
    → i < length p.states
    → length bs ≡ left
    → 0 < left
    → left + at ≡ n
    → n < 256
    → n < length array
    → s.check_function ≡ none
    → feed_until consume_byte (long p i s n left array) (bs ++ rest)
      ≡ go_on (advance (long p i s n 0 (set (store at bs array) n 0))) rest
unfolding feed_until
long_lem [] rest p i s n left at array h e k f l m c = absurd (omega arith)
long_lem (b ∷ bs) rest p i s n zero at array h e k f l m c = absurd (omega arith)
long_lem (b ∷ []) rest p i s n (suc zero) at array h e k f l m c =
    let place : n - 1 ≡ at = omega arith in
    rw (long_last p i s n b array h (omega arith) m c, place)
      (bind_go (advance (long p i s n 0 (set (set array at b) n 0))) rest)
long_lem (b ∷ c' ∷ bs) rest p i s n (suc zero) at array h e k f l m c = absurd (omega arith)
long_lem (b ∷ bs) rest p i s n (suc (suc left)) at array h e k f l m c =
    let place : n - suc (suc left) ≡ at = omega arith in
    rw (long_more p i s n left b array h (omega arith) l m, place)
      (long_lem bs rest p i s n (suc left) (suc at) (set array at b) h (omega arith) (omega arith)
        (omega arith) l (omega (arith, length-set array at b)) c)

-- The parser before a length.
abbrev pub at_size : Parser → ℕ → Parser
at_size p i = record p { index = i; current = read_n }

-- What the byte of the length does where it is not 0.
size_byte :
    (p : Parser) (i : ℕ) (sn s : Substate) (n : ℕ)
    → i < 255
    → suc i < p.size
    → get_elem? p.states i ≡ some sn
    → get_elem? p.states (suc i) ≡ some s
    → s.state ≡ long_read
    → consume_byte (at_size p i) (suc n)
      ≡ some (long p (suc i) s (suc n) (suc n) (replicate (suc (suc n)) 0), false)
unfolding consume_byte feed_n feed_size
size_byte p i sn s n h k e f t =
    let next : (i + 1) % 256 ≡ suc i = omega arith in rw (e, next) (ground (arith, f, t))

-- And where it is 0.
zero_byte :
    (p : Parser) (i : ℕ) (sn s : Substate)
    → i < 255
    → suc i < p.size
    → get_elem? p.states i ≡ some sn
    → get_elem? p.states (suc i) ≡ some s
    → s.state ≡ long_read
    → consume_byte (at_size p i) 0
      ≡ (advance (long p (suc i) s 0 0 (0 ∷ [])) >>= λ q. some (q, (is_done q.current).0))
unfolding consume_byte feed_n feed_size
zero_byte p i sn s h k e f t =
    let next : (i + 1) % 256 ≡ suc i = omega arith in rw (e, next) (ground (arith, f, t))

-- A length and a string of that length: the parser stores the string with a terminator behind it,
-- and goes on with the sub-state after it, or ends.
pub string_lem :
    (p : Parser) (i : ℕ) (sn s : Substate) (bs rest : List ℕ)
    → i < 255
    → suc i < p.size
    → suc i < length p.states
    → get_elem? p.states i ≡ some sn
    → get_elem? p.states (suc i) ≡ some s
    → s.state ≡ long_read
    → s.check_function ≡ none
    → length bs < 256
    → feed_until consume_byte (at_size p i) (length bs ∷ (bs ++ rest))
      ≡ go_on (advance (long p (suc i) s (length bs) 0 (bs ++ (0 ∷ [])))) rest
unfolding feed_until
string_lem p i sn s [] rest h k j e f t c l =
    rw (zero_byte p i sn s h k e f t) (bind_go (advance (long p (suc i) s 0 0 (0 ∷ []))) rest)
string_lem p i sn s (b ∷ bs) rest h k j e f t c l = rw (size_byte p i sn s (length bs) h k e f t) (
    long_lem (b ∷ bs) rest p (suc i) s (suc (length bs)) (suc (length bs)) 0
      (replicate (suc (suc (length bs))) 0) j refl (omega arith) (omega arith) l
      (omega (arith, length-replicate {A = ℕ} (suc (suc (length bs))) 0)) c
    ∙ ap (λ array. go_on (advance (long p (suc i) s (suc (length bs)) 0 array)) rest)
        (stored_string (b ∷ bs) (suc (length bs)) refl))
