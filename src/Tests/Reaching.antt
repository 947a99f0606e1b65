-- ===== src/Tests/Reaching.antt =====
-- Reaching an origin, or failing to.
use proyecto_protos.Buffer.{contents, put}
use proyecto_protos.Connecting.{
  OriginSt, econnrefused, enetunreach, no_error, in_progress, failed, Resolved, init, connection,
  subscribe, fail, errno_to_socks,
}
use proyecto_protos.Connecting.Writing.{
  Answer, count_connection, write, retry, give_up, try_next, release,
}
use proyecto_protos.Connecting.Writing
use proyecto_protos.Connecting.AtOnce.{replied_twice}
use proyecto_protos.Connecting.Outcome.{reply_bytes, standing, answered}
use proyecto_protos.Connecting.Tries.{first, another, attempts_end, second_address_lost}
use proyecto_protos.Connection.{Key, with_write_buffer}
use proyecto_protos.Globals.{Globals}
use proyecto_protos.Buffer.Valid.{filled}
use proyecto_protos.Request.{
  succeeded, network_unreachable, inet, write_done, error_handler_to_client, marshall, marshall,
}
use proyecto_protos.RequestParser.{Parser, State}
use proyecto_protos.RequestParser
use proyecto_protos.Selector.{
  Selector, Item, no_handler, unused_item, op_noop, op_write, used, register, set_interest,
  unregister_fd,
}
use proyecto_protos.Selector.Open.{IsOpen, IsFree}
use proyecto_protos.SocksState
use proyecto_protos.Tests.Fixtures.{empty_buffer-IsValid, globals}
use proyecto_protos.Tests.Fixtures
use proyecto_protos.Prelude.{
  ℕ, ◌+◌, ◌≡◌, refl, ◌≢◌, ◌⊎◌, inr, [], ◌∷◌, ◌++◌, List, true, false, length, Option, none, some,
  pos, negsuc, arith,
}

abbrev pub client_item : Item
client_item = record { fd = some 0; interest = op_noop; handler = no_handler; attachment = 1 }

abbrev pub origin_item : Item
origin_item = record { fd = some 1; interest = op_write; handler = no_handler; attachment = 1 }

-- The table with the client's descriptor and one more entry.
abbrev pub table : Item → Selector
table i = record {
  allocated = true;
  fds = client_item ∷ i ∷ [];
  fd_size = 2;
  max_fd = 1;
  master_r = λ n. false;
  master_w = λ n. false;
  resolution_jobs = [];
}

pub client-IsOpen : (i : Item) → IsOpen (table i) 0 client_item
unfolding used
client-IsOpen i = record { watchable = omega arith; entry = refl; busy = refl }

pub origin-IsOpen : IsOpen (table origin_item) 1 origin_item
unfolding used
origin-IsOpen = record { watchable = omega arith; entry = refl; busy = refl }

pub origin-IsFree : IsFree (table unused_item) 1 unused_item
unfolding used
origin-IsFree = record { watchable = omega arith; inside = omega arith; entry = refl; idle = refl }

-- The key of the origin's descriptor.
abbrev pub origin_key : Key
origin_key = record {
  fd = pos 1;
  selector = table origin_item;
  conn = record Fixtures.connection { origin_fd = pos 1 };
}

abbrev pub memory : RequestParser.Request
memory = record {
  command = 1;
  dest_addr_type = 3;
  raw = [];
  address = [];
  sin_port = [];
  fqdn_size = 0;
  dest_port_bytes = [];
}

abbrev here : Resolved
here = record { family = some inet; address = 10 ∷ 0 ∷ 0 ∷ 1 ∷ []; port = 0 ∷ 80 ∷ [] }

abbrev there : Resolved
there = record here { address = 10 ∷ 0 ∷ 0 ∷ 2 ∷ [] }

-- A connection to a name of so many addresses.
abbrev pub towards : List Resolved → OriginSt
towards addresses = record {
  request = record {
    parser = record { request = memory; state = State.done; remaining = 0; read = 0 };
    addr_family = 3;
    status = succeeded;
    origin = none;
    conn_status = succeeded;
  };
  conn_client_fd = pos 0;
  conn_origin_fd = negsuc 0;
  origin_domain = inet;
  origin_addr = record { domain = inet; address = 10 ∷ 0 ∷ 0 ∷ 1 ∷ []; port = 0 ∷ 80 ∷ [] };
  origin_resolution = addresses;
  origin_resolution_current = addresses;
  references = 2;
  object = 1;
  pool = record { objects = []; size = 0 };
  closed = [];
}

answered_example :
    (k' : Key) × (write globals origin_key (towards []) (some no_error) in_progress true
      ≡ some (
        SocksState.request_write,
        record globals {
          metrics_historic_connections = 2;
          metrics_concurrent_connections = 2;
          metrics_max_concurrent_connections = 2;
        },
        k',
        standing origin_key (towards []),
      ))
    × (k'.conn
        ≡ (with_write_buffer origin_key
            (filled origin_key.conn.write_buffer (reply_bytes succeeded))).conn)
    × IsOpen k'.selector 0 (record client_item { interest = op_write })
    × IsOpen k'.selector 1 (record origin_item { interest = op_noop })
answered_example =
    answered globals origin_key (towards []) 0 1 client_item origin_item in_progress true refl refl
      refl (omega arith) (client-IsOpen origin_item) origin-IsOpen empty_buffer-IsValid
      (omega arith)

abbrev the_answer : Option Answer → Answer
the_answer none = (0, globals, origin_key, towards [])
the_answer (some a) = a

-- The first address refuses, and the second one is tried.
abbrev refusing : Option Answer
refusing =
    write globals origin_key (towards (here ∷ there ∷ [])) (some econnrefused) in_progress true

abbrev refused : Answer
refused = the_answer refusing

first_refused : refusing ≡ some (SocksState.request_connecting, refused.1, refused.2, refused.3)
unfolding write Writing.refused retry give_up try_next connection subscribe fail errno_to_socks
    error_handler_to_client set_interest register unregister_fd release marshall put Writing.advance
first_refused = refl

attempts_end_example :
    1 + length refused.3.origin_resolution_current
    ≡ length (towards (here ∷ there ∷ [])).origin_resolution_current
attempts_end_example = attempts_end (
    another globals origin_key (towards (here ∷ there ∷ [])) (some econnrefused) in_progress true
      (λ e. cc) first_refused first)

-- The second address takes the connection, and the client is told that it was refused.
abbrev accepting : Option Answer
accepting = write refused.1 refused.2 refused.3 (some no_error) in_progress true

abbrev accepted : Answer
accepted = the_answer accepting

then_accepted : accepting ≡ some (accepted.0, accepted.1, accepted.2, accepted.3)
unfolding write Writing.refused retry give_up try_next connection subscribe fail errno_to_socks
    error_handler_to_client set_interest register unregister_fd release marshall put Writing.advance
then_accepted = refl

-- The client has the reply.
abbrev ending : Option (ℕ × Key)
ending = write_done accepted.2 accepted.3.request

abbrev the_end : Option (ℕ × Key) → ℕ × Key
the_end none = (0, origin_key)
the_end (some a) = a

then_ended : ending ≡ some ((the_end ending).0, (the_end ending).1)
unfolding write_done write Writing.refused try_next connection subscribe set_interest register fail
    error_handler_to_client marshall put retry Writing.advance give_up unregister_fd
then_ended = refl

second_address_lost_example :
    (accepted.3.request.conn_status ≢ succeeded)
    × ((accepted.0 ≡ SocksState.request_connecting) ⊎ (accepted.0 ≡ SocksState.request_write))
    × ((the_end ending).0 ≡ SocksState.done)
second_address_lost_example =
    second_address_lost globals origin_key (towards (here ∷ there ∷ [])) econnrefused in_progress
      true refused.1 refused.2 (some no_error) in_progress true accepted.2 (λ e. cc) refl (λ e. cc)
      first_refused first (λ e. cc) then_accepted then_ended

-- The key of the client's descriptor, with the origin's free.
abbrev pub client_key : Key
client_key = record { fd = pos 0; selector = table unused_item; conn = Fixtures.connection }

replied_twice_example :
    (g1 : Globals) × (k1 : Key) × (o1 : OriginSt) × (init globals client_key
        (towards (here ∷ []))
        (some 1)
        true
        (failed enetunreach)
        true
      ≡ some (g1, k1, o1))
    × (k2 : Key) × (o2 : OriginSt) × (write g1 k1 o1 none in_progress true
        ≡ some (SocksState.request_write, g1, k2, o2))
    × (contents k2.conn.write_buffer
        ≡ contents client_key.conn.write_buffer
          ++ (reply_bytes network_unreachable ++ reply_bytes network_unreachable))
unfolding errno_to_socks
replied_twice_example =
    replied_twice globals client_key (towards (here ∷ [])) enetunreach 0 1 client_item unused_item
      true none in_progress true empty_buffer-IsValid (omega arith) refl (omega arith)
      (client-IsOpen unused_item) origin-IsFree (λ e. cc) (inr (here, refl))
