-- ===== src/Tests/Lifetimes.antt =====
-- The life of a connection: its first exchange, its end, the pool and the event loop.
use proyecto_protos.Auth
use proyecto_protos.Buffer.{contents}
use proyecto_protos.Buffer.Valid.{filled, filled-IsValid}
use proyecto_protos.Connecting.{connected, socks5_handler}
use proyecto_protos.Dissector.{user_word_search}
use proyecto_protos.Hello.{HelloSt, socks_version}
use proyecto_protos.Hello
use proyecto_protos.Hello.Message.{chosen}
use proyecto_protos.Pool.{Pool, take, destroy, max_pool}
use proyecto_protos.Pool.Reuse.{Run, stop, accept, reused_at_most}
use proyecto_protos.Pool.Reuse
use proyecto_protos.Proxy.{World, Answers, connecting_init}
use proyecto_protos.Proxy.Lifetime.{on_event, socksv5_done}
use proyecto_protos.Proxy.Negotiation.{Greeted, standing, standing_in, hello_through_machine}
use proyecto_protos.Proxy.Choice.{Answered, next_state, method_decides}
use proyecto_protos.Proxy.Closing.{both_closed}
use proyecto_protos.Proxy.Faults.{immediate_connect_aborts}
use proyecto_protos.Request.{succeeded}
use proyecto_protos.Selector.{Selector, Item, unused_item, op_read, used}
use proyecto_protos.Selector.Open.{IsOpen, IsFree}
use proyecto_protos.Socket.{broken, offered, accepts}
use proyecto_protos.SocksState
use proyecto_protos.Stm.{readable, writable}
use proyecto_protos.Tests.Fixtures.{empty_buffer-IsValid, globals}
use proyecto_protos.Tests.Fixtures
use proyecto_protos.Tests.Reaching.{client_item, origin_item, memory, towards}
use proyecto_protos.Prelude.{
  ℕ, ◌≡◌, ◌≤◌, ◌<◌, refl, ◌≢◌, ◌⊎◌, inl, inr, [], ◌∷◌, ◌++◌, true, false, get_elem?, none, some,
  pos, arith,
}

abbrev pub held : Item
held = record client_item { handler = socks5_handler }

abbrev pub far : Item
far = record origin_item { handler = socks5_handler }

abbrev pub table : Item → Selector
table i = record {
  allocated = true;
  fds = held ∷ i ∷ [];
  fd_size = 2;
  max_fd = 1;
  master_r = λ n. false;
  master_w = λ n. false;
  resolution_jobs = [];
}

pub held-IsOpen : (i : Item) → IsOpen (table i) 0 held
unfolding used
held-IsOpen i = record { watchable = omega arith; entry = refl; busy = refl }

far-IsOpen : IsOpen (table far) 1 far
unfolding used
far-IsOpen = record { watchable = omega arith; entry = refl; busy = refl }

far-IsFree : IsFree (table unused_item) 1 unused_item
unfolding used
far-IsFree = record { watchable = omega arith; inside = omega arith; entry = refl; idle = refl }

abbrev pub answers : Answers
answers = record {
  incoming = broken;
  outgoing = accepts 5;
  parser_memory = true;
  first_request = some memory;
  second_request = some memory;
  job_memory = true;
  thread = true;
  socket = some 1;
  nio = true;
  connect = connected;
  sockopt = none;
  table_memory = true;
}

-- A connection whose hello chose a method, over a table.
abbrev pub world : ℕ → Selector → World
world m s = record {
  globals = globals;
  key = record { fd = pos 0; selector = s; conn = Fixtures.connection };
  hello = record {
    parser = record {
      protocol_version = 5;
      wanted_method = 2;
      state = Hello.State.done;
      remaining = 0;
    };
    method = m;
    status = Hello.Status.success;
  };
  userpass = record { parser = Auth.unset_parser; status = Auth.Status.success };
  pointers = record { parser = false; request = false };
  origin = towards [];
  pair = record {
    client = record { fd = pos 0; interest = op_read };
    origin = record { fd = pos 1; interest = op_read };
    dissector = record {
      current = user_word_search;
      current_index = 0;
      last = false;
      username = none;
      password = none;
      printed = [];
    };
    closed = [];
  };
  answers = answers;
}

-- A new connection whose client sends a whole hello.
abbrev pub greeted : World
greeted = record (world 0 (table unused_item)) {
  answers = record answers { incoming = offered (5 ∷ 2 ∷ 0 ∷ 2 ∷ []) };
}

greeted-Greeted : Greeted greeted 0 held (0 ∷ 2 ∷ []) []
greeted-Greeted = record {
  socks = refl;
  memory = refl;
  own = refl;
  opens = held-IsOpen unused_item;
  reading = empty_buffer-IsValid;
  drained = refl;
  writing = empty_buffer-IsValid;
  room = omega arith;
  few = omega arith;
  fits = omega arith;
  hello = refl;
}

hello_through_machine_example :
    (w' : World) × (on_event readable standing greeted
      ≡ some (standing_in SocksState.hello_write, w'))
    × (w'.hello.method ≡ chosen globals.auth_method 0xFF (0 ∷ 2 ∷ []))
    × (contents w'.key.conn.write_buffer
        ≡ contents greeted.key.conn.write_buffer
          ++ (socks_version ∷ chosen globals.auth_method 0xFF (0 ∷ 2 ∷ []) ∷ []))
    × (contents w'.key.conn.read_buffer ≡ [])
hello_through_machine_example = hello_through_machine greeted 0 held (0 ∷ 2 ∷ []) [] greeted-Greeted

-- The answer with its method waits to be sent.
abbrev choosing : World
choosing = record (world 2 (table unused_item)) {
  key = record {
    fd = pos 0;
    selector = table unused_item;
    conn = record Fixtures.connection { write_buffer = filled Fixtures.empty_buffer (5 ∷ 2 ∷ []) };
  };
}

choosing-Answered : Answered choosing 0 5 held memory memory
choosing-Answered = record {
  own = refl;
  opens = held-IsOpen unused_item;
  writing = filled-IsValid Fixtures.empty_buffer (5 ∷ 2 ∷ []) empty_buffer-IsValid (omega arith);
  gone = omega arith;
  taken = refl;
  memory = refl;
  first = refl;
  second = refl;
}

method_decides_example :
    ((w' : World) × (on_event writable (standing_in SocksState.hello_write) choosing
        ≡ some (standing_in (next_state 2), w'))
      × (2 ≢ Hello.method_no_acceptable_methods)
      × IsOpen w'.key.selector 0 (record held { interest = op_read }))
    ⊎ ((w' : World) × (on_event writable (standing_in SocksState.hello_write) choosing
          ≡ some (standing_in SocksState.done, w'))
        × (2 ≡ Hello.method_no_acceptable_methods)
        × (get_elem? w'.key.selector.fds 0 ≡ some unused_item)
        × (w'.origin.closed ≡ pos 0 ∷ []))
method_decides_example =
    method_decides choosing 0 5 held memory memory choosing-Answered refl refl refl refl
      (inr (inl refl))

-- A connection with both descriptors registered.
abbrev whole : World
whole = record (world 2 (table far)) {
  key = record {
    fd = pos 0;
    selector = table far;
    conn = record Fixtures.connection { origin_fd = pos 1 };
  };
}

both_closed_example :
    (v : World) × (socksv5_done whole ≡ some v)
    × (get_elem? v.key.selector.fds 0 ≡ some unused_item)
    × (get_elem? v.key.selector.fds 1 ≡ some unused_item)
    × (v.origin.closed ≡ pos 1 ∷ pos 0 ∷ [])
    × ((0 < max_pool) × (v.origin.pool ≡ record { objects = 1 ∷ []; size = 1 })
        ⊎ (max_pool ≤ 0) × (v.origin.pool ≡ record { objects = []; size = 0 }))
both_closed_example =
    both_closed whole 0 1 refl refl (omega arith) (held-IsOpen far) far-IsOpen refl refl refl

immediate_connect_aborts_example :
    (w' : World) × (connecting_init 6 choosing ≡ some w')
    × (w'.origin.request.conn_status ≡ succeeded)
    × IsOpen w'.key.selector 0 (record held { interest = op_read })
    × IsOpen w'.key.selector 1
        (record { fd = some 1; interest = op_read; handler = socks5_handler; attachment = 1 })
    × (on_event readable
          (standing_in SocksState.request_connecting)
          (record w' { answers = answers })
        ≡ none)
immediate_connect_aborts_example =
    immediate_connect_aborts 6 choosing 0 1 held unused_item answers refl (omega arith)
      (held-IsOpen unused_item) far-IsFree refl refl refl

abbrev empty : Pool
empty = record { objects = []; size = 0 }

-- An object is given back and served again.
once : Run 1 empty (record { objects = []; size = 1 })
unfolding destroy take
once = Reuse.release empty 7 1 (accept (record { objects = 7 ∷ []; size = 1 }) none stop)

reused_at_most_example : (1 ≤ max_pool) × (0 ≤ max_pool)
reused_at_most_example = reused_at_most once
