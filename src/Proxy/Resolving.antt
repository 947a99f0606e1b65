-- ===== src/Proxy/Resolving.antt =====
-- From the thread that resolves a name (src/Etapas/resolv.c), over the queue of the selector
-- (src/selector.c), to the machine of the connection (src/socks5nio.c).
use proyecto_protos.Buffer.{contents, space}
use proyecto_protos.Buffer.Fifo.{contents-filled}
use proyecto_protos.Buffer.Valid.{IsValid, filled}
use proyecto_protos.Connecting.{OriginSt, Resolved}
use proyecto_protos.Connecting.AtOnce.{reply_lem}
use proyecto_protos.Connecting.Outcome.{reply_bytes}
use proyecto_protos.Connecting.Writing.{address_of, resolv_done}
use proyecto_protos.Connection.{Key, with_write_buffer, set_interest_key}
use proyecto_protos.Proxy.{World, request_resolv_done, connecting_init}
use proyecto_protos.Proxy.Lifetime.{on_event}
use proyecto_protos.Proxy.Negotiation.{standing_in}
use proyecto_protos.Request.{error_handler, general_socks_server_failure}
use proyecto_protos.Resolver.{copied, digits, port_of, name_of, resolv_blocking}
use proyecto_protos.Selector.{Item, op_write, notify_block}
use proyecto_protos.Selector.Loop.{Host, serve, notify_all, handle_block_notifications}
use proyecto_protos.Selector.Open.{IsOpen, asked, set_interest_at, asked-IsOpen}
use proyecto_protos.SocksState
use proyecto_protos.Stm.{Machine, resolved, handler, handle_first, call_ready, call_if_set, jump}
use proyecto_protos.Users.Lookup.{until_zero, cstr-terminated}
use proyecto_protos.Prelude.{
  ℕ, ◌+◌, ◌*◌, ◌≡◌, ◌≤◌, refl, ◌∙◌, ap, true, none, some, List, [], ◌∷◌, ◌++◌, length, pos, arith,
}

-- A server with one connection, whose machine each callback of the selector runs.
abbrev pub alone : Host (Machine World × World)
alone = record {
  selector = λ x. x.1.key.selector;
  with_selector = λ x s. (x.0, record (x.1) { key = record (x.1.key) { selector = s } });
  callback = λ e h fd attachment x.
      on_event e x.0 (record (x.1) { key = record (x.1.key) { fd = pos fd } });
}

-- A connection in REQUEST_RESOLV: its descriptor is registered with all callbacks, no job waits, and its
-- request is for a name and a port.
pub record Asked (w : World) (c : ℕ) (it : Item) (name more : List ℕ) (high low : ℕ) : Type 0 where
  pub own : w.key.fd ≡ pos c
  pub opens : IsOpen w.key.selector c it
  pub entry : it.fd ≡ some c
  pub blocks : it.handler.on_block ≡ true
  pub idle : w.key.selector.resolution_jobs ≡ []
  pub host : w.origin.request.parser.request.address ≡ name ++ more
  pub size : w.origin.request.parser.request.fqdn_size ≡ length name
  pub port : w.origin.request.parser.request.dest_port_bytes ≡ high ∷ low ∷ []

copied_lem : (name more : List ℕ) → copied (name ++ more) (length name) ≡ some name
unfolding copied
copied_lem [] [] = refl
copied_lem [] (x ∷ xs) = refl
copied_lem (x ∷ xs) more = rw (copied_lem xs more) refl

-- The service text of a port.
abbrev pub service : ℕ → ℕ → List ℕ
service high low = digits 5 (high * 256 + low) []

-- The connection once the thread is done, with the list it got.
abbrev pub told : World → ℕ → List Resolved → World
told w c list = record w {
  key = record (w.key) {
    fd = pos c;
    selector = record (w.key.selector) { resolution_jobs = c ∷ [] };
  };
  origin = record (w.origin) { origin_resolution = list };
}

name_lem :
    (w : World) (c : ℕ) (it : Item) (name more : List ℕ) (high low : ℕ)
    → Asked w c it name more high low
    → name_of w.origin ≡ some (until_zero name)
unfolding name_of
name_lem w c it name more high low a =
    rw (a.host, a.size, copied_lem name more) (cstr-terminated name)

port_lem :
    (w : World) (c : ℕ) (it : Item) (name more : List ℕ) (high low : ℕ)
    → Asked w c it name more high low
    → port_of w.origin.request.parser.request.dest_port_bytes ≡ some (high * 256 + low)
unfolding port_of
port_lem w c it name more high low a = rw a.port refl

thread_lem :
    (getaddrinfo : List ℕ → List ℕ → List Resolved) (w : World) (c : ℕ) (it : Item)
    (name more : List ℕ) (high low : ℕ)
    → Asked w c it name more high low
    → resolv_blocking getaddrinfo true w.key w.origin
      ≡ some (
        (told w c (getaddrinfo (until_zero name) (service high low))).key,
        (told w c (getaddrinfo (until_zero name) (service high low))).origin,
      )
unfolding resolv_blocking notify_block
thread_lem getaddrinfo w c it name more high low a = ground (
  arith,
  name_lem w c it name more high low a,
  port_lem w c it name more high low a,
  a.own,
  a.idle,
)

-- The queue once it is served.
abbrev pub served : World → World
served w = record w {
  key = record (w.key) { selector = record (w.key.selector) { resolution_jobs = [] } };
}

-- Serving the queue is the event of the connection, and empties it.
notified :
    (w : World) (c : ℕ) (it : Item) (name more : List ℕ) (high low : ℕ) (stm stm' : Machine World)
    (found : List Resolved) (w' : World)
    → Asked w c it name more high low
    → on_event resolved stm (told w c found) ≡ some (stm', w')
    → handle_block_notifications alone (stm, told w c found) ≡ some (stm', served w')
unfolding handle_block_notifications notify_all serve
notified w c it name more high low stm stm' found w' a e =
    rw (a.opens.entry, a.entry, a.blocks, e) refl

-- The connection once the first address is chosen.
abbrev pub chosen : World → ℕ → Resolved → List Resolved → World
chosen w c a rest = record (told w c (a ∷ rest)) {
  origin = record (w.origin) {
    origin_resolution = a ∷ rest;
    origin_resolution_current = a ∷ rest;
    origin_addr = address_of a w.origin.origin_addr;
    origin_domain = elim a.family [ none ↦ w.origin.origin_domain | some f ↦ f ];
  };
}

chosen_lem :
    (w : World) (c : ℕ) (a : Resolved) (rest : List Resolved) (w' : World)
    → connecting_init SocksState.request_connecting (chosen w c a rest) ≡ some w'
    → on_event resolved (standing_in SocksState.request_resolv) (told w c (a ∷ rest))
      ≡ some (standing_in SocksState.request_connecting, w')
unfolding on_event handler handle_first call_ready call_if_set jump request_resolv_done resolv_done
chosen_lem w c a rest w' e = rw e refl

-- The key once the reply of a failure waits for the client.
abbrev pub refusing : World → ℕ → Item → Key
refusing w c it =
    let k : Key = (told w c []).key in
    record (with_write_buffer k
      (filled k.conn.write_buffer (reply_bytes general_socks_server_failure))) {
        selector = asked k.selector c it op_write;
      }

-- The state of the stage then.
abbrev pub excused : OriginSt → OriginSt
excused o = record o {
  origin_resolution = [];
  request = record (o.request) {
    status = general_socks_server_failure;
    conn_status = general_socks_server_failure;
  };
}

told-IsOpen :
    (w : World) (c : ℕ) (it : Item) (list : List Resolved)
    → IsOpen w.key.selector c it
    → IsOpen (told w c list).key.selector c it
told-IsOpen w c it list o = record { watchable = o.watchable; entry = o.entry; busy = o.busy }

excused_lem :
    (w : World) (c : ℕ) (it : Item)
    → IsOpen w.key.selector c it
    → IsValid w.key.conn.write_buffer
    → 10 ≤ space w.key.conn.write_buffer
    → on_event resolved (standing_in SocksState.request_resolv) (told w c [])
      ≡ some (
        standing_in SocksState.request_write,
        record w { key = refusing w c it; origin = excused w.origin },
      )
unfolding on_event handler handle_first call_ready call_if_set jump request_resolv_done resolv_done
    error_handler set_interest_key
excused_lem w c it opens v fits =
    rw
      (
        reply_lem general_socks_server_failure (told w c []).key v fits,
        set_interest_at op_write refl (told-IsOpen w c it [] opens),
      )
      refl

served-IsOpen :
    (w : World) (c : ℕ) (it : Item)
    → IsOpen w.key.selector c it
    → IsOpen
        (served (record w { key = refusing w c it; origin = excused w.origin })).key.selector
        c
        (record it { interest = op_write })
served-IsOpen w c it o =
    let next : IsOpen (refusing w c it).selector c (record it { interest = op_write }) =
      asked-IsOpen op_write (told-IsOpen w c it [] o) in
    record { watchable = next.watchable; entry = next.entry; busy = next.busy }

-- A name that has addresses: the thread that resolves it leaves their list with the connection and notifies
-- the selector, and the loop, which serves the notification, takes the machine of the connection to
-- REQUEST_CONNECTING, with the first address chosen and the queue of notifications empty. The connection
-- is in REQUEST_RESOLV, for a request that names a host and a port, no other notification waits, and the
-- arrival in REQUEST_CONNECTING is given.
pub name_resolved :
    (getaddrinfo : List ℕ → List ℕ → List Resolved) (w : World) (c : ℕ) (it : Item)
    (name more : List ℕ) (high low : ℕ) (a : Resolved) (rest : List Resolved) (w' : World)
    → Asked w c it name more high low
    → getaddrinfo (until_zero name) (service high low) ≡ a ∷ rest
    → connecting_init SocksState.request_connecting (chosen w c a rest) ≡ some w'
    → (k : Key) × (o : OriginSt) × (resolv_blocking getaddrinfo true w.key w.origin ≡ some (k, o))
      × (handle_block_notifications alone
            (standing_in SocksState.request_resolv, record w { key = k; origin = o })
          ≡ some (standing_in SocksState.request_connecting, served w'))
name_resolved getaddrinfo w c it name more high low a rest w' ready found arrives = (
  (told w c (a ∷ rest)).key,
  (told w c (a ∷ rest)).origin,
  thread_lem getaddrinfo w c it name more high low ready
      ∙ ap (λ l. some ((told w c l).key, (told w c l).origin)) found,
  notified w c it name more high low (standing_in SocksState.request_resolv)
      (standing_in SocksState.request_connecting) (a ∷ rest) w' ready
      (chosen_lem w c a rest w' arrives),
)

-- A name that has no address: once the thread has notified the selector and the loop has served the
-- notification, the machine of the connection is in REQUEST_WRITE, the reply of a general failure stands
-- behind what the write buffer held, the descriptor waits to be written to, and no notification is left.
-- The connection is in REQUEST_RESOLV, for a request that names a host and a port, no other notification
-- waits, and the write buffer has room for the ten bytes of a reply.
pub name_unknown :
    (getaddrinfo : List ℕ → List ℕ → List Resolved) (w : World) (c : ℕ) (it : Item)
    (name more : List ℕ) (high low : ℕ)
    → Asked w c it name more high low
    → getaddrinfo (until_zero name) (service high low) ≡ []
    → IsValid w.key.conn.write_buffer
    → 10 ≤ space w.key.conn.write_buffer
    → (k : Key) × (o : OriginSt) × (w' : World) × (resolv_blocking getaddrinfo true w.key w.origin
        ≡ some (k, o))
      × (handle_block_notifications alone
            (standing_in SocksState.request_resolv, record w { key = k; origin = o })
          ≡ some (standing_in SocksState.request_write, w'))
      × (contents w'.key.conn.write_buffer
          ≡ contents w.key.conn.write_buffer ++ reply_bytes general_socks_server_failure)
      × IsOpen w'.key.selector c (record it { interest = op_write })
      × (w'.key.selector.resolution_jobs ≡ [])
name_unknown getaddrinfo w c it name more high low ready found v fits = (
  (told w c []).key,
  (told w c []).origin,
  served (record w { key = refusing w c it; origin = excused w.origin }),
  thread_lem getaddrinfo w c it name more high low ready
      ∙ ap (λ l. some ((told w c l).key, (told w c l).origin)) found,
  notified w c it name more high low (standing_in SocksState.request_resolv)
      (standing_in SocksState.request_write) [] _ ready (excused_lem w c it ready.opens v fits),
  contents-filled w.key.conn.write_buffer (reply_bytes general_socks_server_failure) v fits,
  served-IsOpen w c it ready.opens,
  refl,
)
