-- ===== src/MyParser/Consume.antt =====
-- `consume` of src/myParser.c on a buffer in which a whole parse waits.
use proyecto_protos.Buffer.{Buffer, reset, contents}
use proyecto_protos.Buffer.Valid.{IsValid}
use proyecto_protos.Buffer.Fifo.{length-contents}
use proyecto_protos.Buffer.Drain.{waits, feed_until, drain_parsed, drain_one}
use proyecto_protos.MyParser.{Parser, Substate, consume_byte, consume}
use proyecto_protos.Prelude.{ℕ, suc, ◌-◌, ◌≡◌, List, [], ◌∷◌, some, get_elem?, true, arith}

-- The state that `consume` returns is that of the parser after the last byte it takes; what it does
-- not take goes on waiting.
pub consume_parsed :
    (b : Buffer) (p p' : Parser) (s : Substate) (x : ℕ) (l rest : List ℕ)
    → IsValid b
    → contents b ≡ x ∷ l
    → get_elem? p.states 0 ≡ some s
    → feed_until consume_byte p (x ∷ l) ≡ some (p', rest)
    → (b' : Buffer) × (consume b p ≡ some (p'.current, p', b')) × (contents b' ≡ rest) × IsValid b'
unfolding consume
consume_parsed b p p' s x l rest v e f h =
    let (b', q, r, v', _) =
      drain_parsed consume_byte (suc (b.write - b.read)) b p p' rest v
        (omega (arith, length-contents b v)) (rw e h) in
    (b', rw (f, q, waits b x l v e), r, v')

-- The same where one byte waits and ends the parse.
pub consume_one :
    (b : Buffer) (p p' : Parser) (s : Substate) (x : ℕ)
    → IsValid b
    → contents b ≡ x ∷ []
    → get_elem? p.states 0 ≡ some s
    → consume_byte p x ≡ some (p', true)
    → consume b p ≡ some (p'.current, p', reset b)
unfolding consume
consume_one b p p' s x v e f h = rw (f, drain_one consume_byte b p p' x v e h, waits b x [] v e)
