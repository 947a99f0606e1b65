-- ===== src/Proxy/Choice.antt =====
-- The answer to a client's hello in src/socks5nio.c, and where each method leads.
use proyecto_protos.Auth
use proyecto_protos.Buffer.{Buffer, can_read, compact_if_empty}
use proyecto_protos.Buffer.Valid.{IsValid}
use proyecto_protos.Connecting.Writing.{release}
use proyecto_protos.Connection.{Key, with_write_buffer, set_interest_key}
use proyecto_protos.Connection.Io.{transmit_lem}
use proyecto_protos.Hello.{
  HelloSt, write, write_done, method_no_authentication_required, method_username_password,
  method_no_acceptable_methods,
}
use proyecto_protos.MyParser
use proyecto_protos.Request.Lifecycle
use proyecto_protos.Request.{succeeded}
use proyecto_protos.RequestParser.{Request}
use proyecto_protos.RequestParser
use proyecto_protos.Proxy.{World, hello_write, auth_read_init, request_init}
use proyecto_protos.Proxy.Lifetime.{on_event}
use proyecto_protos.Proxy.Closing.{given_back, client_closed}
use proyecto_protos.Proxy.Negotiation.{standing_in}
use proyecto_protos.Selector.{Item, unused_item, op_read}
use proyecto_protos.Selector.Open.{IsOpen, asked, asked-IsOpen, freed-unused, set_interest_at}
use proyecto_protos.Socket.{accepts}
use proyecto_protos.SocksState
use proyecto_protos.Stm.{writable, handler, handle_first, call_ready, call_if_set, jump}
use proyecto_protos.Prelude.{
  ℕ, ◌≢◌, get_elem?, ◌+◌, ◌-◌, ◌≤◌, ◌≡◌, refl, ◌∙◌, ap, ◌⊎◌, inl, inr, true, false, some, ◌∷◌, pos,
  negsuc, min, arith, ◌==◌, if◌then◌else◌,
}

-- The network takes all that waits.
abbrev emptied : Buffer → ℕ → Buffer
emptied b n = compact_if_empty (record b { read = b.read + min n (b.write - b.read) })

emptied_lem :
    (b : Buffer) (n : ℕ) → IsValid b → b.write - b.read ≤ n → can_read (emptied b n) ≡ false
unfolding can_read compact_if_empty
emptied_lem b n v h = ground arith

-- The key once the answer has gone out and the client's descriptor waits to be read.
abbrev answered : Key → ℕ → ℕ → Item → Key
answered k n c it = record (with_write_buffer k (emptied k.conn.write_buffer n)) {
  selector = asked k.selector c it op_read;
}

-- The answer has gone out.
sent_lem :
    (k : Key) (d : HelloSt) (n : ℕ)
    → IsValid k.conn.write_buffer
    → k.conn.write_buffer.write - k.conn.write_buffer.read ≤ n
    → write k d (accepts n) ≡ write_done (with_write_buffer k (emptied k.conn.write_buffer n)) d
unfolding write
sent_lem k d n v h =
    rw (transmit_lem k.conn.write_buffer n v, emptied_lem k.conn.write_buffer n v h)

-- The state that a method leads to.
abbrev pub next_state : ℕ → ℕ
next_state m =
    if m == method_no_authentication_required
    then SocksState.request_read
    else SocksState.userpass_read

chosen_lem :
    (k : Key) (d : HelloSt) (n c : ℕ) (it : Item)
    → IsValid k.conn.write_buffer
    → k.conn.write_buffer.write - k.conn.write_buffer.read ≤ n
    → k.fd ≡ pos c
    → IsOpen k.selector c it
    → (d.method ≡ method_no_authentication_required) ⊎ (d.method ≡ method_username_password)
    → write k d (accepts n) ≡ some (next_state d.method, d, answered k n c it)
unfolding write_done set_interest_key
chosen_lem k d n c it v h own opens which =
    sent_lem k d n v h ∙ ground (arith, set_interest_at op_read own opens, which)

refused_lem :
    (k : Key) (d : HelloSt) (n : ℕ)
    → IsValid k.conn.write_buffer
    → k.conn.write_buffer.write - k.conn.write_buffer.read ≤ n
    → d.method ≡ method_no_acceptable_methods
    → write k d (accepts n)
      ≡ some (k.conn.done_state, d, with_write_buffer k (emptied k.conn.write_buffer n))
unfolding write_done
refused_lem k d n v h none_left = sent_lem k d n v h ∙ ground (arith, none_left)

auth_arrival :
    (s : ℕ) (w : World)
    → w.answers.parser_memory ≡ true
    → (w' : World) × (auth_read_init s w ≡ some w') × (w'.key ≡ w.key)
unfolding auth_read_init Auth.read_init MyParser.init
auth_arrival s w memory = (
  record w { userpass = record { parser = Auth.unset_parser; status = Auth.Status.success } },
  ground (arith, memory),
  refl,
)

request_arrival :
    (s : ℕ) (w : World) {r r' : Request}
    → w.answers.parser_memory ≡ true
    → w.answers.first_request ≡ some r
    → w.answers.second_request ≡ some r'
    → (w' : World) × (request_init s w ≡ some w') × (w'.key ≡ w.key)
unfolding request_init Lifecycle.init Lifecycle.requests_init
request_arrival s w {r} {r'} memory first second = (
  record w {
    origin = record (w.origin) {
      request = record (w.origin.request) { status = succeeded; parser = RequestParser.init r' };
    };
    pointers = record { parser = true; request = true };
  },
  ground (arith, memory, first, second),
  refl,
)

-- A connection in HELLO_WRITE whose client takes all that waits, and to which memory is given.
pub record Answered (w : World) (c n : ℕ) (it : Item) (r r' : Request) : Type 0 where
  pub own : w.key.fd ≡ pos c
  pub opens : IsOpen w.key.selector c it
  pub writing : IsValid w.key.conn.write_buffer
  pub gone : w.key.conn.write_buffer.write - w.key.conn.write_buffer.read ≤ n
  pub taken : w.answers.outgoing ≡ accepts n
  pub memory : w.answers.parser_memory ≡ true
  pub first : w.answers.first_request ≡ some r
  pub second : w.answers.second_request ≡ some r'

-- The state of the connection as its answer leaves.
abbrev left : World → ℕ → ℕ → Item → World
left w c n it = record w { key = answered w.key n c it }

write_chosen :
    (w : World) (c n : ℕ) (it : Item) (r r' : Request)
    → Answered w c n it r r'
    → (w.hello.method ≡ method_no_authentication_required)
      ⊎ (w.hello.method ≡ method_username_password)
    → hello_write w ≡ some (next_state w.hello.method, left w c n it)
unfolding hello_write
write_chosen w c n it r r' a which = rw (
    ap (λ o. write w.key w.hello o) a.taken
    ∙ chosen_lem w.key w.hello n c it a.writing a.gone a.own a.opens which)

arrives :
    (w : World) (c n : ℕ) (it : Item) (r r' : Request)
    → Answered w c n it r r'
    → (w.hello.method ≡ method_no_authentication_required)
      ⊎ (w.hello.method ≡ method_username_password)
    → (w' : World) × (on_event writable (standing_in SocksState.hello_write) w
        ≡ some (standing_in (next_state w.hello.method), w'))
      × (w'.key ≡ answered w.key n c it)
unfolding on_event handler handle_first call_ready call_if_set jump
arrives w c n it r r' a (inl none_needed) =
    let (w', e, same) =
      request_arrival SocksState.request_read (left w c n it) a.memory a.first a.second in
    let out = write_chosen w c n it r r' a (inl none_needed) in
    (w', rw (out, ap next_state none_needed, e), same)
arrives w c n it r r' a (inr password) =
    let (w', e, same) = auth_arrival SocksState.userpass_read (left w c n it) a.memory in
    let out = write_chosen w c n it r r' a (inr password) in
    (w', rw (out, ap next_state password, e), same)

-- The state of the connection as a refusal leaves.
abbrev turned_away : World → ℕ → World
turned_away w n = record w { key = with_write_buffer w.key (emptied w.key.conn.write_buffer n) }

write_refused :
    (w : World) (c n : ℕ) (it : Item) (r r' : Request)
    → Answered w c n it r r'
    → w.hello.method ≡ method_no_acceptable_methods
    → w.key.conn.done_state ≡ SocksState.done
    → hello_write w ≡ some (SocksState.done, turned_away w n)
unfolding hello_write
write_refused w c n it r r' a none_left over = rw (
    ap (λ o. write w.key w.hello o) a.taken
    ∙ refused_lem w.key w.hello n a.writing a.gone none_left
    ∙ ap (λ s. some (s, w.hello, (turned_away w n).key)) over)

ends :
    (w : World) (c n : ℕ) (it : Item) (r r' : Request)
    → Answered w c n it r r'
    → w.hello.method ≡ method_no_acceptable_methods
    → w.key.conn.client_fd ≡ pos c
    → w.key.conn.origin_fd ≡ negsuc 0
    → w.key.conn.done_state ≡ SocksState.done
    → it.handler.on_close ≡ true
    → on_event writable (standing_in SocksState.hello_write) w
      ≡ some (standing_in SocksState.done, given_back (turned_away w n) c)
unfolding on_event handler handle_first call_ready call_if_set jump
ends w c n it r r' a none_left client origin over closes = rw (
  write_refused w c n it r r' a none_left over,
  client_closed (turned_away w n) c client origin a.opens closes,
)

-- Once the client has taken the answer to its hello, the method in it decides how its connection goes
-- on: to REQUEST_READ without authentication, to USERPASS_READ with a password, in both cases waiting
-- to be read; and where no method was acceptable the descriptor is taken out of the table and closed.
pub method_decides :
    (w : World) (c n : ℕ) (it : Item) (r r' : Request)
    → Answered w c n it r r'
    → w.key.conn.client_fd ≡ pos c
    → w.key.conn.origin_fd ≡ negsuc 0
    → w.key.conn.done_state ≡ SocksState.done
    → it.handler.on_close ≡ true
    → (w.hello.method ≡ method_no_authentication_required)
      ⊎ (w.hello.method ≡ method_username_password)
      ⊎ (w.hello.method ≡ method_no_acceptable_methods)
    → ((w' : World) × (on_event writable (standing_in SocksState.hello_write) w
          ≡ some (standing_in (next_state w.hello.method), w'))
        × (w.hello.method ≢ method_no_acceptable_methods)
        × IsOpen w'.key.selector c (record it { interest = op_read }))
      ⊎ ((w' : World) × (on_event writable (standing_in SocksState.hello_write) w
            ≡ some (standing_in SocksState.done, w'))
          × (w.hello.method ≡ method_no_acceptable_methods)
          × (get_elem? w'.key.selector.fds c ≡ some unused_item)
          × (w'.origin.closed ≡ pos c ∷ w.origin.closed))
unfolding release
method_decides w c n it r r' a client origin over closes which = elim which [
  | inl needed ↦
      (let (w', e, same) = arrives w c n it r r' a (inl needed) in
        inl (w', e, ground (arith, needed), rw same (asked-IsOpen op_read a.opens)))
  | inr (inl needed) ↦
      (let (w', e, same) = arrives w c n it r r' a (inr needed) in
        inl (w', e, ground (arith, needed), rw same (asked-IsOpen op_read a.opens)))
  | inr (inr none_left) ↦ inr (
    given_back (turned_away w n) c,
    ends w c n it r r' a none_left client origin over closes,
    none_left,
    freed-unused a.opens,
    refl,
  )
]
