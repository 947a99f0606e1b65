-- ===== src/Connecting/AtOnce.antt =====
-- src/Etapas/connecting.c where `connect` gives its answer at once.
use proyecto_protos.Buffer.{Buffer, contents, space}
use proyecto_protos.Buffer.Valid.{IsValid, filled, filled-IsValid}
use proyecto_protos.Buffer.Fifo.{contents-filled}
use proyecto_protos.Connecting.{
  Resolved, OriginSt, Errno, no_error, Connect, connected, failed, errno_to_socks, socks5_handler,
  with_origin_fd, with_status, subscribe, connection, init, fail,
}
use proyecto_protos.Connecting.Writing.{retry, give_up, write}
use proyecto_protos.Connecting.Fallback.{errno_to_socks_lem}
use proyecto_protos.Connecting.Outcome.{reply_bytes, marshall_lem}
use proyecto_protos.Connection.{Key, with_write_buffer}
use proyecto_protos.Globals.{Globals, word}
use proyecto_protos.Request.{Status, succeeded, reply, set_interest_of, error_handler_to_client}
use proyecto_protos.Selector.{Item, op_noop, op_read, op_write, unregister_fd}
use proyecto_protos.Selector.Register.{registered}
use proyecto_protos.Selector.Open.{
  IsOpen, IsFree, asked, set_interest_at, asked-IsOpen, asked-IsFree, register_at,
  set_interest_free, unregister_free,
}
use proyecto_protos.SocksState
use proyecto_protos.Prelude.{
  ℕ, ◌%◌, ◌+◌, ◌≤◌, ◌≡◌, refl, ◌∙◌, ap, ◌≢◌, ◌⊎◌, inl, inr, Bool, true, false, some, Option, List,
  [], ◌∷◌, ◌++◌, append_assoc, pos, negsuc, arith,
}

-- The globals once `connection` has counted the attempt.
abbrev pub attempted : Globals → Globals
attempted g = record g {
  metrics_historic_connections_attempts = (g.metrics_historic_connections_attempts + 1) % word;
}

subscribed :
    (k : Key) (o : OriginSt) (c n : ℕ) (it jt : Item) (memory : Bool)
    → k.fd ≡ pos c
    → k.conn.origin_fd ≡ pos n
    → c ≢ n
    → IsOpen k.selector c it
    → IsFree k.selector n jt
    → subscribe k o op_read op_read false memory
      ≡ some (
        succeeded,
        record k {
          selector = registered (asked k.selector c it op_read) n socks5_handler op_read o.object;
        },
        o,
      )
unfolding subscribe
subscribed k o c n it jt memory own origin ne opens free = rw (
  set_interest_at op_read own opens,
  register_at socks5_handler op_read o.object memory origin (asked-IsFree it op_read ne free),
)

-- The key once `connect` has succeeded at once.
abbrev pub waiting : Key → OriginSt → ℕ → ℕ → Item → Key
waiting k o c n it = record (with_origin_fd k (pos n)) {
  selector = registered (asked k.selector c it op_read) n socks5_handler op_read o.object;
}

-- The state of the stage then.
abbrev pub opened : Key → OriginSt → OriginSt
opened k o = record (with_status o succeeded) {
  conn_client_fd = k.conn.client_fd;
  conn_origin_fd = negsuc 0;
  references = o.references + 1;
}

-- The descriptors where `connect` succeeds at once.
pub init_connected :
    (g : Globals) (k : Key) (o : OriginSt) (c n : ℕ) (it jt : Item) (memory : Bool)
    → k.fd ≡ pos c
    → c ≢ n
    → IsOpen k.selector c it
    → IsFree k.selector n jt
    → init g k o (some n) true connected memory ≡ some (attempted g, waiting k o c n it, opened k o)
unfolding init connection
init_connected g k o c n it jt memory own ne opens free =
    rw (subscribed (with_origin_fd k (pos n)) (opened k o) c n it jt memory own refl ne opens free)

-- The key once `error_handler_to_client` has replied.
abbrev told : Key → Status → ℕ → Item → Key
told k s c it = record (with_write_buffer k (filled k.conn.write_buffer (reply_bytes s))) {
  selector = asked k.selector c it op_write;
}

pub reply_lem :
    (s : Status) (k : Key)
    → IsValid k.conn.write_buffer
    → 10 ≤ space k.conn.write_buffer
    → reply s k ≡ some (with_write_buffer k (filled k.conn.write_buffer (reply_bytes s)))
unfolding reply
reply_lem s k v h = rw (marshall_lem s k.conn.write_buffer v h)

error_to_client :
    (s : Status) (k : Key) (c n : ℕ) (it jt : Item)
    → IsValid k.conn.write_buffer
    → 10 ≤ space k.conn.write_buffer
    → k.conn.client_fd ≡ pos c
    → c ≢ n
    → IsOpen k.selector c it
    → (k.conn.origin_fd ≡ pos n) × IsFree k.selector n jt ⊎ (k.conn.origin_fd ≡ negsuc 0)
    → error_handler_to_client s k ≡ some (SocksState.request_write, told k s c it)
unfolding error_handler_to_client set_interest_of
error_to_client s k c n it jt v h client ne opens (inl (origin, free)) = ground (
  arith,
  reply_lem s k v h,
  set_interest_at op_write client opens,
  origin,
  set_interest_free op_noop (asked-IsFree it op_write ne free),
)
error_to_client s k c n it jt v h client ne opens (inr unset) =
    ground (arith, reply_lem s k v h, set_interest_at op_write client opens, unset)

-- The state of the stage once `connect` has failed at once.
abbrev refused : Key → OriginSt → Errno → OriginSt
refused k o e = record o {
  request = record (o.request) { status = errno_to_socks e; conn_status = errno_to_socks e };
  conn_client_fd = k.conn.client_fd;
  conn_origin_fd = negsuc 0;
}

init_failed :
    (g : Globals) (k : Key) (o : OriginSt) (e : Errno) (c n : ℕ) (it jt : Item) (memory : Bool)
    → IsValid k.conn.write_buffer
    → 10 ≤ space k.conn.write_buffer
    → k.conn.client_fd ≡ pos c
    → c ≢ n
    → IsOpen k.selector c it
    → IsFree k.selector n jt
    → init g k o (some n) true (failed e) memory
      ≡ some (attempted g, told (with_origin_fd k (pos n)) (errno_to_socks e) c it, refused k o e)
unfolding init connection fail
init_failed g k o e c n it jt memory v h client ne opens free = rw (
    error_to_client (errno_to_socks e) (with_origin_fd k (pos n)) c n it jt v h client ne opens
      (inl (refl, free)))

given_up :
    (g : Globals) (k : Key) (o : OriginSt) (c n : ℕ) (it jt : Item)
    → IsValid k.conn.write_buffer
    → 10 ≤ space k.conn.write_buffer
    → k.conn.client_fd ≡ pos c
    → k.conn.origin_fd ≡ pos n
    → c ≢ n
    → IsOpen k.selector c it
    → IsFree k.selector n jt
    → give_up g k o
      ≡ some (
        SocksState.request_write,
        g,
        told (with_origin_fd k (negsuc 0)) o.request.conn_status c it,
        record o { closed = k.conn.origin_fd ∷ o.closed },
      )
unfolding give_up
given_up g k o c n it jt v h client origin ne opens free = rw (
  ap (λ fd. unregister_fd k.selector fd) origin ∙ unregister_free free,
  error_to_client o.request.conn_status (with_origin_fd k (negsuc 0)) c n it jt v h client ne opens
      (inr refl),
)

-- No address follows: there was none but the client's own, or a name has its last one.
abbrev pub IsLast : List Resolved → Type 0
IsLast current = (current ≡ []) ⊎ ((a : Resolved) × (current ≡ a ∷ []))

write_lost :
    (g : Globals) (k : Key) (o : OriginSt) (sockopt : Option Errno) (answer : Connect)
    (memory : Bool)
    → o.request.conn_status ≢ succeeded
    → IsLast o.origin_resolution_current
    → write g k o sockopt answer memory ≡ give_up g k o
unfolding write retry
write_lost g k o sockopt answer memory lost (inl none_left) = ground arith
write_lost g k o sockopt answer memory lost (inr (a, only)) = ground (arith, lost, only)

-- Where `connect` fails at once on an address that the client gave, or on the last one of a name,
-- and the client's descriptor is in use, the origin's free, and the write buffer has room for two
-- replies, the client is told so twice: `connecting_init` writes the reply and stays in
-- REQUEST_CONNECTING, and the `connecting_write` that follows writes it again before it goes on
-- to REQUEST_WRITE.
pub replied_twice :
    (g : Globals) (k : Key) (o : OriginSt) (e : Errno) (c n : ℕ) (it jt : Item) (memory : Bool)
    (sockopt : Option Errno) (answer : Connect) (memory' : Bool)
    → IsValid k.conn.write_buffer
    → 20 ≤ space k.conn.write_buffer
    → k.conn.client_fd ≡ pos c
    → c ≢ n
    → IsOpen k.selector c it
    → IsFree k.selector n jt
    → e ≢ no_error
    → IsLast o.origin_resolution_current
    → (g1 : Globals) × (k1 : Key) × (o1 : OriginSt) × (init g k o (some n) true (failed e) memory
        ≡ some (g1, k1, o1))
      × (k2 : Key) × (o2 : OriginSt) × (write g1 k1 o1 sockopt answer memory'
          ≡ some (SocksState.request_write, g1, k2, o2))
      × (contents k2.conn.write_buffer
          ≡ contents k.conn.write_buffer
            ++ (reply_bytes (errno_to_socks e) ++ reply_bytes (errno_to_socks e)))
replied_twice g k o e c n it jt memory sockopt answer memory' v h client ne opens free bad last =
    let st : Status = errno_to_socks e in
    let b : Buffer = k.conn.write_buffer in
    let k1 : Key = told (with_origin_fd k (pos n)) st c it in
    let o1 : OriginSt = refused k o e in
    let v' : IsValid (filled b (reply_bytes st)) =
      filled-IsValid b (reply_bytes st) v (omega (arith, h)) in
    let room : 10 ≤ space (filled b (reply_bytes st)) = omega (arith, h) in
    let opens' = asked-IsOpen op_write opens in
    let free' = asked-IsFree it op_write ne free in
    (
      attempted g,
      k1,
      o1,
      init_failed g k o e c n it jt memory v (omega (arith, h)) client ne opens free,
      told (with_origin_fd k1 (negsuc 0)) st c (record it { interest = op_write }),
      record o1 { closed = k1.conn.origin_fd ∷ o1.closed },
      write_lost (attempted g) k1 o1 sockopt answer memory' (errno_to_socks_lem e bad) last
          ∙ given_up (attempted g) k1 o1 c n (record it { interest = op_write }) jt v' room client
              refl ne opens' free',
      contents-filled (filled b (reply_bytes st)) (reply_bytes st) v' room
          ∙ ap (λ l. l ++ reply_bytes st) (contents-filled b (reply_bytes st) v (omega (arith, h)))
          ∙ append_assoc (contents b) (reply_bytes st) (reply_bytes st),
    )
