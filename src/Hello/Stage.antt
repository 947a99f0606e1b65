-- ===== src/Hello/Stage.antt =====
-- The handlers of src/Etapas/hello.c on whole messages.
use proyecto_protos.Buffer.Valid.{IsValid, filled, filled-IsValid}
use proyecto_protos.Buffer.Fifo.{contents-filled, length-contents}
use proyecto_protos.Buffer.Drain.{drain_parsed}
use proyecto_protos.Buffer.{Buffer, contents, space}
use proyecto_protos.Connection.{Key, with_read_buffer}
use proyecto_protos.Connection.Io.{receive_lem, reply_two_lem}
use proyecto_protos.Hello.Message.{at, encode, chosen, hello_roundtrip}
use proyecto_protos.Hello.{
  HelloSt, version, done, success, socks_version, mng_version, consume_byte, consume, marshal,
  read_parsed, read_ready, read,
}
use proyecto_protos.Selector.{Selector, op_write, set_interest}
use proyecto_protos.Selector
use proyecto_protos.Socket.{Incoming, offered}
use proyecto_protos.SocksState
use proyecto_protos.Prelude.{
  ℕ, suc, ◌-◌, ◌≤◌, ◌<◌, ◌≡◌, refl, ◌∙◌, ap, List, [], ◌∷◌, ◌++◌, some, length, if◌then◌else◌,
  arith,
}

-- A connection with an empty read buffer, whose parser waits for a message.
pub record Waits (k : Key) (d : HelloSt) : Type 0 where
  pub reading : IsValid k.conn.read_buffer
  pub drained : contents k.conn.read_buffer ≡ []
  pub writing : IsValid k.conn.write_buffer
  pub room : 2 ≤ space k.conn.write_buffer
  pub ready : d.status ≡ success

abbrev pub own_version : Key → ℕ
own_version k = if k.conn.is_socks then socks_version else mng_version

-- `hello_consume` on a buffer that holds a message and more.
consume_lem :
    (b : Buffer) (d : HelloSt) (ms rest : List ℕ)
    → IsValid b
    → length ms < 256
    → contents b ≡ encode d.parser.protocol_version ms ++ rest
    → (b' : Buffer) × (consume b (at d version 0 0xFF)
        ≡ some (at d done 0 (chosen d.parser.wanted_method 0xFF ms), b'))
      × (contents b' ≡ rest)
      × IsValid b'
unfolding consume
consume_lem b d ms rest v h e =
    let (b', p, q, v', _) =
      drain_parsed consume_byte (suc (b.write - b.read)) b (at d version 0 0xFF)
        (at d done 0 (chosen d.parser.wanted_method 0xFF ms)) rest v
        (omega (arith, length-contents b v)) (rw e (hello_roundtrip d ms rest h)) in
    (b', p, q, v')

-- The key once the selector has taken the interest and the reply is written.
abbrev answered : Key → Selector → ℕ → Key
answered k s m = record k {
  selector = s;
  conn = record (k.conn) { write_buffer = filled k.conn.write_buffer (own_version k ∷ m ∷ []) };
}

read_parsed-done :
    (k : Key) (d : HelloSt) (m : ℕ) {s : Selector}
    → IsValid k.conn.write_buffer
    → 2 ≤ space k.conn.write_buffer
    → set_interest k.selector k.fd op_write ≡ some (Selector.Status.success, s)
    → read_parsed k (at d done 0 m) ≡ some (SocksState.hello_write, at d done 0 m, answered k s m)
unfolding read_parsed marshal
read_parsed-done k d m v h sel = rw (sel, reply_two_lem k.conn.write_buffer (own_version k) m v h)

read_success :
    (k : Key) (d : HelloSt) (incoming : Incoming)
    → d.status ≡ success
    → read k d incoming ≡ read_ready k d incoming
unfolding read
read_success k d incoming h = rw h

-- The whole of a client's hello, of a method list shorter than 256, in one read: if the selector
-- takes the interest, `hello_read` goes on to HELLO_WRITE, with the reply VER METHOD behind what the
-- write buffer held and with what followed the message still waiting.
pub hello_read_message :
    (k : Key) (d : HelloSt) (ms rest : List ℕ) {s : Selector}
    → Waits k d
    → length ms < 256
    → length (encode d.parser.protocol_version ms ++ rest) ≤ space k.conn.read_buffer
    → set_interest k.selector k.fd op_write ≡ some (Selector.Status.success, s)
    → (k' : Key) × (read k
          (at d version 0 0xFF)
          (offered (encode d.parser.protocol_version ms ++ rest))
        ≡ some (SocksState.hello_write, at d done 0 (chosen d.parser.wanted_method 0xFF ms), k'))
      × (contents k'.conn.write_buffer
          ≡ contents k.conn.write_buffer
            ++ (own_version k ∷ chosen d.parser.wanted_method 0xFF ms ∷ []))
      × (contents k'.conn.read_buffer ≡ rest)
      × (k'.selector ≡ s)
unfolding read_ready
hello_read_message k d ms rest {s} w h fits sel =
    let b : Buffer = filled k.conn.read_buffer (encode d.parser.protocol_version ms ++ rest) in
    let (b', e, left, v') = consume_lem b d ms rest (filled-IsValid _ _ w.reading fits) h (
      contents-filled _ _ w.reading fits
      ∙ ap (λ l. l ++ (encode d.parser.protocol_version ms ++ rest)) w.drained) in
    let m : ℕ = chosen d.parser.wanted_method 0xFF ms in
    (
      answered (with_read_buffer k b') s m,
      read_success k (at d version 0 0xFF) _ w.ready
          ∙ (rw (
            receive_lem k.conn.read_buffer d.parser.protocol_version (length ms ∷ (ms ++ rest))
                w.reading fits,
            e,
            read_parsed-done (with_read_buffer k b') d m w.writing w.room sel,
          )),
      contents-filled k.conn.write_buffer (own_version k ∷ m ∷ []) w.writing w.room,
      left,
      refl,
    )
