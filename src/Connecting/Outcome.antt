-- ===== src/Connecting/Outcome.antt =====
-- src/Etapas/connecting.c when the origin answers.
use proyecto_protos.Buffer.{Buffer, space, write_ptr}
use proyecto_protos.Buffer.Valid.{IsValid, filled, put_lem}
use proyecto_protos.Connection.{Key, with_write_buffer}
use proyecto_protos.Connecting.{OriginSt, no_error, Connect, with_status}
use proyecto_protos.Connecting.Writing.{free_resolution, count_connection, answer_success, write}
use proyecto_protos.Globals.{Globals, word}
use proyecto_protos.Request.{Status, succeeded, code, marshall}
use proyecto_protos.Selector.{Item, op_noop, op_write}
use proyecto_protos.Selector.Open.{
  IsOpen, asked, set_interest_lem, asked-IsOpen, asked-IsOpen_other,
}
use proyecto_protos.SocksState
use proyecto_protos.Prelude.{
  ℕ, ◌+◌, ◌%◌, ltb, if◌then◌else◌, max, ◌≤◌, ◌≡◌, refl, ◌∙◌, sym, ap, ◌≢◌, Bool, List, [], ◌∷◌,
  some, pos, arith,
}

-- The reply of ten bytes that `request_marshall` writes.
abbrev pub reply_bytes : Status → List ℕ
reply_bytes s = 5 ∷ code s ∷ 0 ∷ 1 ∷ 0 ∷ 0 ∷ 0 ∷ 0 ∷ 0 ∷ 0 ∷ []

-- The reply is written where there is room.
pub marshall_lem :
    (s : Status) (b : Buffer)
    → IsValid b
    → 10 ≤ space b
    → marshall s b ≡ some (some (filled b (reply_bytes s)))
unfolding marshall write_ptr
marshall_lem s b v h = ground (arith, put_lem b (reply_bytes s) v h)

-- The connection once the origin has answered.
abbrev pub standing : Key → OriginSt → OriginSt
standing k o = record (with_status (free_resolution o) succeeded) { conn_origin_fd = k.fd }

free_resolution-client : (o : OriginSt) → (free_resolution o).conn_client_fd ≡ o.conn_client_fd
unfolding free_resolution
free_resolution-client o = ground arith

-- A connection that stands is counted and answered.
pub write_stands :
    (g : Globals) (k : Key) (o : OriginSt) (next : Connect) (memory : Bool)
    → o.request.conn_status ≡ succeeded
    → write g k o (some no_error) next memory ≡ answer_success (count_connection g) k (standing k o)
unfolding write
write_stands g k o next memory h = rw h

larger : (m n : ℕ) → (if ltb m n then n else m) ≡ max m n
larger m n = ground arith

counted_lem :
    (g : Globals)
    → count_connection g ≡ record g {
      metrics_historic_connections = (g.metrics_historic_connections + 1) % word;
      metrics_concurrent_connections = (g.metrics_concurrent_connections + 1) % word;
      metrics_max_concurrent_connections =
          max g.metrics_max_concurrent_connections ((g.metrics_concurrent_connections + 1) % word);
    }
unfolding count_connection
counted_lem g =
    ap
      (λ m. record g {
        metrics_historic_connections = (g.metrics_historic_connections + 1) % word;
        metrics_concurrent_connections = (g.metrics_concurrent_connections + 1) % word;
        metrics_max_concurrent_connections = m;
      })
      (larger g.metrics_max_concurrent_connections ((g.metrics_concurrent_connections + 1) % word))

-- When the origin takes the connection that `connecting_write` waits for, no attempt has failed
-- before, both descriptors are in use, and the write buffer has room for a reply, the success
-- reply goes behind what the client has yet to get, the client's descriptor waits to be written,
-- the origin's rests, and the stage is REQUEST_WRITE. The connections so far and those that stand
-- are one more, modulo 2^64, and the maximum is the larger of what it was and those that stand.
pub answered :
    (g : Globals) (k : Key) (o : OriginSt) (c n : ℕ) (it jt : Item) (next : Connect) (memory : Bool)
    → o.request.conn_status ≡ succeeded
    → o.conn_client_fd ≡ pos c
    → k.fd ≡ pos n
    → c ≢ n
    → IsOpen k.selector c it
    → IsOpen k.selector n jt
    → IsValid k.conn.write_buffer
    → 10 ≤ space k.conn.write_buffer
    → (k' : Key) × (write g k o (some no_error) next memory
        ≡ some (
          SocksState.request_write,
          record g {
            metrics_historic_connections = (g.metrics_historic_connections + 1) % word;
            metrics_concurrent_connections = (g.metrics_concurrent_connections + 1) % word;
            metrics_max_concurrent_connections =
                max g.metrics_max_concurrent_connections
                  ((g.metrics_concurrent_connections + 1) % word);
          },
          k',
          standing k o,
        ))
      × (k'.conn ≡ (with_write_buffer k (filled k.conn.write_buffer (reply_bytes succeeded))).conn)
      × IsOpen k'.selector c (record it { interest = op_write })
      × IsOpen k'.selector n (record jt { interest = op_noop })
unfolding answer_success
answered g k o c n it jt next memory ok client own ne opens opens' v fits =
    let first = asked-IsOpen op_write opens in
    let second = asked-IsOpen_other it op_write ne opens' in
    let k' : Key =
      record (with_write_buffer k (filled k.conn.write_buffer (reply_bytes succeeded))) {
        selector = asked (asked k.selector c it op_write) n jt op_noop;
      } in
    (
      k',
      write_stands g k o next memory ok
          ∙ rw
              (
                marshall_lem succeeded k.conn.write_buffer v fits,
                free_resolution-client o,
                client,
                set_interest_lem op_write opens,
                own,
                set_interest_lem op_noop second,
                counted_lem g,
              )
              refl,
      refl,
      asked-IsOpen_other jt op_noop (λ e. ne (sym e)) first,
      asked-IsOpen op_noop second,
    )
