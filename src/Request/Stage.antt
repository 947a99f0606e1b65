-- ===== src/Request/Stage.antt =====
-- The handlers of src/Etapas/request.c on whole requests.
use proyecto_protos.Buffer.Valid.{IsValid, filled, filled-IsValid}
use proyecto_protos.Buffer.Fifo.{contents-filled, length-contents}
use proyecto_protos.Buffer.Drain.{drain_parsed, feed_until}
use proyecto_protos.Buffer.{Buffer, contents, space}
use proyecto_protos.Connection.{Key, with_read_buffer}
use proyecto_protos.Connection.Io.{receive_lem}
use proyecto_protos.Request.{
  RequestSt, succeeded, inet, inet6, Family, consume, process, read_ready, read,
}
use proyecto_protos.RequestParser.{
  State, Parser, Request, init, consume_byte, is_done, done, cmd_connect, addrtype_ipv4,
}
use proyecto_protos.RequestParser.Message.{IsIp, encode_ip, request_ip_roundtrip}
use proyecto_protos.RequestParser.Errors.{Unsupported, never_finished, is_error}
use proyecto_protos.Socket.{Incoming, offered}
use proyecto_protos.SocksState
use proyecto_protos.Prelude.{
  ℕ, suc, ◌-◌, ◌≤◌, ◌≡◌, refl, ◌∙◌, ap, List, [], ◌∷◌, ◌++◌, Bool, true, false, some, length, ◌==◌,
  if◌then◌else◌, arith,
}

-- A connection with an empty read buffer, whose parser waits for a request.
pub record Waits (k : Key) (d : RequestSt) (m : Request) : Type 0 where
  pub reading : IsValid k.conn.read_buffer
  pub drained : contents k.conn.read_buffer ≡ []
  pub fresh : d.parser ≡ init m
  pub ready : d.status ≡ succeeded

read_succeeded :
    (k : Key) (d : RequestSt) (incoming : Incoming) (memory thread : Bool)
    → d.status ≡ succeeded
    → read k d incoming memory thread ≡ read_ready k d incoming memory thread
unfolding read
read_succeeded k d incoming memory thread h = rw h

-- What comes in, parsed as a list, is what the handler's parse leaves.
parse_lem :
    (k : Key) (d : RequestSt) (m : Request) (x : ℕ) (xs rest : List ℕ) (p : Parser)
    → Waits k d m
    → length (x ∷ xs) ≤ space k.conn.read_buffer
    → feed_until consume_byte (init m) (x ∷ xs) ≡ some (p, rest)
    → (b' : Buffer) × (consume (filled k.conn.read_buffer (x ∷ xs)) d.parser ≡ some (p, b'))
      × (contents b' ≡ rest)
unfolding consume
parse_lem k d m x xs rest p w fits e =
    let b : Buffer = filled k.conn.read_buffer (x ∷ xs) in
    let v : IsValid b = filled-IsValid k.conn.read_buffer (x ∷ xs) w.reading fits in
    let holds : contents b ≡ x ∷ xs =
      contents-filled k.conn.read_buffer (x ∷ xs) w.reading fits
      ∙ ap (λ l. l ++ (x ∷ xs)) w.drained in
    let (b', q, r, _, _) =
      drain_parsed consume_byte (suc (b.write - b.read)) b d.parser p rest v
        (omega (arith, length-contents b v)) (rw (holds, w.fresh) e) in
    (b', q, r)

not_done : (p : Parser) → is_error p.state ≡ true → is_done p.state ≡ false
unfolding is_done
not_done p h = ground arith

-- A request that the proxy does not support, in one read, leaves the client without an answer: the
-- handler stays in REQUEST_READ, writes nothing, and changes no interest.
pub never_answered :
    (k : Key) (d : RequestSt) (m : Request) (x : ℕ) (xs : List ℕ) {s : State} (memory thread : Bool)
    → Waits k d m
    → length (x ∷ xs) ≤ space k.conn.read_buffer
    → Unsupported (x ∷ xs) s
    → (d' : RequestSt) × (k' : Key) × (read k d (offered (x ∷ xs)) memory thread
        ≡ some (SocksState.request_read, d', k'))
      × (d'.parser.state ≡ s)
      × (k'.conn.write_buffer ≡ k.conn.write_buffer)
      × (k'.selector ≡ k.selector)
unfolding read_ready
never_answered k d m x xs {s} memory thread w fits u =
    let (p, e, q, bad) = never_finished m u in
    let (b', c, _) = parse_lem k d m x xs [] p w fits e in
    (
      record d { parser = p },
      with_read_buffer k b',
      read_succeeded k d _ memory thread w.ready
          ∙ (rw (receive_lem k.conn.read_buffer x xs w.reading fits, c, not_done p bad)),
      q,
      refl,
      refl,
    )

-- The family that goes with an IP address type.
abbrev pub family_of : ℕ → Family
family_of t = if t == addrtype_ipv4 then inet else inet6

-- The state of the stage when the address of the origin is known.
abbrev pub located : RequestSt → ℕ → List ℕ → ℕ → ℕ → RequestSt
located d t bs x y = record d {
  addr_family = t;
  origin = some (record { domain = family_of t; address = bs; port = x ∷ y ∷ [] });
}

process_ip :
    (k : Key) (d : RequestSt) (t : ℕ) (bs : List ℕ) (x y : ℕ) (memory thread : Bool)
    → IsIp t bs
    → d.parser.request.command ≡ cmd_connect
    → d.parser.request.dest_addr_type ≡ t
    → d.parser.request.address ≡ bs
    → d.parser.request.sin_port ≡ x ∷ y ∷ []
    → process k d memory thread ≡ some (SocksState.request_connecting, located d t bs x y, k)
unfolding process
process_ip k d t bs x y memory thread i c e a p = ground arith

is_finished : (p : Parser) → p.state ≡ done → is_done p.state ≡ true
unfolding is_done
is_finished p h = rw h

-- A CONNECT request to an IP address, in one read, takes the connection to REQUEST_CONNECTING with
-- the address and port that the client sent as those of the origin; what followed it still waits.
pub ip_request_connects :
    (k : Key) (d : RequestSt) (m : Request) (r t : ℕ) (bs rest : List ℕ) (x y : ℕ)
    (memory thread : Bool)
    → Waits k d m
    → IsIp t bs
    → length (encode_ip r t bs x y ++ rest) ≤ space k.conn.read_buffer
    → (p : Parser) × (k' : Key) × (read k d (offered (encode_ip r t bs x y ++ rest)) memory thread
        ≡ some (SocksState.request_connecting, located (record d { parser = p }) t bs x y, k'))
      × (contents k'.conn.read_buffer ≡ rest)
unfolding read_ready
ip_request_connects k d m r t bs rest x y memory thread w i fits =
    let (p, e, holds, a, port) = request_ip_roundtrip m r t bs rest x y i in
    let (b', c, left) = parse_lem k d m _ _ rest p w fits e in
    (
      p,
      with_read_buffer k b',
      read_succeeded k d _ memory thread w.ready
          ∙ (rw (
            receive_lem k.conn.read_buffer _ _ w.reading fits,
            c,
            is_finished p holds.finished,
            process_ip (with_read_buffer k b') (record d { parser = p }) t bs x y memory thread i
                holds.command holds.kind a port,
          )),
      left,
    )
