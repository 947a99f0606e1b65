-- ===== src/Client/Counting.antt =====
-- The client of src/client/clientUtils.c and src/Etapas/mng_request.c on a request for a number: what the
-- client shows is the global of the server.
use mathlib.Core.Path.{subst}
use proyecto_protos.Buffer.{contents, space, write_ptr, reset, Buffer}
use proyecto_protos.Buffer.Valid.{IsValid, filled, put_lem}
use proyecto_protos.Buffer.Fifo.{contents-filled}
use proyecto_protos.Client.{Typed, send_request}
use proyecto_protos.Client.Requests.{send_plain}
use proyecto_protos.Client.Reply.{
  Outcome, statistic, cast_uint32, append_stats, show_reply, received, request_response,
}
use proyecto_protos.Connection.{Key, with_read_buffer, with_write_buffer, set_interest_key}
use proyecto_protos.Globals.{Globals}
use proyecto_protos.Mng.{
  MngSt, Index, supported_indexes, list_users, historic_connections, concurrent_connections,
  max_concurrent_connections, historic_bytes_transferred, historic_auth_attempts,
  historic_connections_attempts, average_bytes_per_read, average_bytes_per_write, add_user,
  delete_user, disable_auth, disable_password_disectors, index_of,
}
use proyecto_protos.Mng.Chosen.{index_parser, chosen, index_read_lem}
use proyecto_protos.Mng.Marshal.{bytes_of, uint_marshall}
use proyecto_protos.Mng.Read.{process_index, index_next, index_read}
use proyecto_protos.Mng.Stage.{Waits}
use proyecto_protos.MngState
use proyecto_protos.Selector.{Selector, op_write, set_interest}
use proyecto_protos.Selector
use proyecto_protos.Socket.{offered}
use proyecto_protos.Prelude.{
  ℕ, ◌+◌, ◌*◌, ◌%◌, ◌≤◌, ◌<◌, ◌≡◌, refl, ◌∙◌, ap, Bool, true, false, Option, none, some, List, [],
  ◌∷◌, ◌++◌, length, pos, if◌then◌else◌, ◌>>=◌, the_some, leb, ◌==◌, ◌/◌, arith,
}

-- The global that an index stands for, and the number of the index.
abbrev pub metric : Globals → Index → Option (ℕ × ℕ)
metric g historic_connections = some (2, g.metrics_historic_connections)
metric g concurrent_connections = some (3, g.metrics_concurrent_connections)
metric g max_concurrent_connections = some (4, g.metrics_max_concurrent_connections)
metric g historic_bytes_transferred = some (5, g.metrics_historic_byte_transfer)
metric g historic_auth_attempts = some (6, g.metrics_historic_auth_attempts)
metric g historic_connections_attempts = some (7, g.metrics_historic_connections_attempts)
metric g average_bytes_per_read = some (8, g.metrics_average_bytes_per_read)
metric g average_bytes_per_write = some (9, g.metrics_average_bytes_per_write)
metric g _ = none

-- What the server does for such an index.
abbrev Answers : Globals → Index → ℕ → ℕ → Type 0
Answers g i n value =
    (index_of n ≡ some i)
    × (2 ≤ n)
    × (n ≤ 9)
    × ((b : Buffer)
        → process_index g b (some i)
          ≡ (do b' ← uint_marshall b value; some (MngState.request_write, b')))

answers_eq :
    (g : Globals) (i : Index) (m value n v : ℕ)
    → Answers g i m value
    → ◌≡◌ {A = Option (ℕ × ℕ)} (some (m, value)) (some (n, v))
    → Answers g i n v
answers_eq g i m value n v a e = subst (λ p. Answers g i p.0 p.1) (the_some e) a

answers :
    (g : Globals) (i : Index) (n value : ℕ) → metric g i ≡ some (n, value) → Answers g i n value
unfolding process_index index_of
answers g supported_indexes n value e = cc
answers g list_users n value e = cc
answers g historic_connections n value e =
    answers_eq g historic_connections _ _ n value (refl, omega arith, omega arith, λ b. refl) e
answers g concurrent_connections n value e =
    answers_eq g concurrent_connections _ _ n value (refl, omega arith, omega arith, λ b. refl) e
answers g max_concurrent_connections n value e =
    answers_eq g max_concurrent_connections _ _ n value (refl, omega arith, omega arith, λ b. refl)
      e
answers g historic_bytes_transferred n value e =
    answers_eq g historic_bytes_transferred _ _ n value (refl, omega arith, omega arith, λ b. refl)
      e
answers g historic_auth_attempts n value e =
    answers_eq g historic_auth_attempts _ _ n value (refl, omega arith, omega arith, λ b. refl) e
answers g historic_connections_attempts n value e =
    answers_eq g historic_connections_attempts _ _ n value
      (refl, omega arith, omega arith, λ b. refl) e
answers g average_bytes_per_read n value e =
    answers_eq g average_bytes_per_read _ _ n value (refl, omega arith, omega arith, λ b. refl) e
answers g average_bytes_per_write n value e =
    answers_eq g average_bytes_per_write _ _ n value (refl, omega arith, omega arith, λ b. refl) e
answers g add_user n value e = cc
answers g delete_user n value e = cc
answers g disable_auth n value e = cc
answers g disable_password_disectors n value e = cc

marshalled :
    (b : Buffer) (value : ℕ)
    → IsValid b
    → 5 ≤ space b
    → uint_marshall b value ≡ some (filled b (0x00 ∷ bytes_of (value % 4294967296)))
unfolding uint_marshall write_ptr
marshalled b value v h = ground (arith, put_lem b (0x00 ∷ bytes_of (value % 4294967296)) v h)

-- The number as the client shows and appends it.
abbrev pub counted : ℕ → ℕ → Bool → Outcome
counted n value file = record {
  shown = statistic n value;
  success = true;
  appended = if file then some value else none;
}

counted_lem :
    (array : List ℕ) (n value : ℕ) (file : Bool)
    → value < 4294967296
    → 2 ≤ n
    → n ≤ 9
    → request_response array (offered (0x00 ∷ bytes_of value)) (pos n) file
      ≡ some (counted n value file)
unfolding request_response received show_reply append_stats cast_uint32
counted_lem array n value file v l h =
    let zero' : (n == 0) ≡ false = ground (arith, l) in
    let one : (n == 1) ≡ false = ground (arith, l) in
    let nine : leb n 9 ≡ true = ground (arith, h) in
    let back : value % 256
          + 256 * (value / 256 % 256 + 256 * (value / 65536 % 256 + 256 * (value / 16777216 % 256)))
        ≡ value =
      omega arith in
    rw (zero', one, nine, back) (ground arith)

number_taken :
    (g : Globals) (k : Key) (d : MngSt) (i : Index) (n value : ℕ) {s : Selector}
    → Waits k d index_parser
    → Answers g i n value
    → 1 ≤ space k.conn.read_buffer
    → 5 ≤ space k.conn.write_buffer
    → set_interest k.selector k.fd op_write ≡ some (Selector.Status.success, s)
    → (d' : MngSt) × (k' : Key) × (index_read g k d (offered (n ∷ []))
        ≡ some (MngState.request_write, d', k'))
      × (k'.conn.write_buffer ≡ filled k.conn.write_buffer (0x00 ∷ bytes_of (value % 4294967296)))
unfolding index_next set_interest_key
number_taken g k d i n value {s} w (known, low, high, processed) room fits sel =
    let wb : Buffer = filled k.conn.write_buffer (0x00 ∷ bytes_of (value % 4294967296)) in
    let rb : Buffer = reset (filled k.conn.read_buffer (n ∷ [])) in
    (
      record d { parser = chosen n; index = some i },
      record (with_write_buffer (with_read_buffer k rb) wb) { selector = s },
      index_read_lem g k d n i [] w room known
          ∙ (rw
              (
                processed k.conn.write_buffer,
                marshalled k.conn.write_buffer value w.writing fits,
                sel,
              )
              refl),
      refl,
    )

-- The user of the client asks for one of the eight numbers, and the server waits for an index, with
-- nothing left to send. Then the server's handler replies to the byte that the client sends, and the
-- client shows, and appends to the file if there is one, the global of the server modulo 2^32.
pub client_shows_metric :
    (buffer array : List ℕ) (typed : Typed) (file : Bool) (g : Globals) (k : Key) (d : MngSt)
    (i : Index) (n value : ℕ) {s : Selector}
    → length buffer ≡ 512
    → typed.number ≡ some (pos n)
    → metric g i ≡ some (n, value)
    → Waits k d index_parser
    → contents k.conn.write_buffer ≡ []
    → 1 ≤ space k.conn.read_buffer
    → 5 ≤ space k.conn.write_buffer
    → set_interest k.selector k.fd op_write ≡ some (Selector.Status.success, s)
    → (d' : MngSt) × (k' : Key) × (send_request buffer typed ≡ some (pos n, some (n ∷ [])))
      × (index_read g k d (offered (n ∷ [])) ≡ some (MngState.request_write, d', k'))
      × (request_response array (offered (contents k'.conn.write_buffer)) (pos n) file
          ≡ some (counted n (value % 4294967296) file))
client_shows_metric buffer array typed file g k d i n value l e m w drained room fits sel =
    let a : Answers g i n value = answers g i n value m in
    let (known, low, high, processed) = a in
    let bytes : List ℕ = 0x00 ∷ bytes_of (value % 4294967296) in
    let (d', k', r, wrote) = number_taken g k d i n value w a room fits sel in
    let sent : contents k'.conn.write_buffer ≡ bytes =
      ap contents wrote
      ∙ contents-filled k.conn.write_buffer bytes w.writing fits
      ∙ ap (λ q. q ++ bytes) drained in
    (
      d',
      k',
      send_plain buffer typed n l e high,
      r,
      ap (λ q. request_response array (offered q) (pos n) file) sent
          ∙ counted_lem array n (value % 4294967296) file (omega arith) low high,
    )
