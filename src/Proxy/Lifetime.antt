-- ===== src/Proxy/Lifetime.antt =====
-- src/socks5nio.c: the life of a proxy connection, from `accept` to `close`, and the callbacks that
-- the selector calls. `accept` and `malloc` are outside: what they give is an argument.
use proyecto_protos.Buffer
use proyecto_protos.Connecting.{OriginSt, socks5_handler}
use proyecto_protos.Connecting.Writing.{release}
use proyecto_protos.Connection.{Connection}
use proyecto_protos.Copy.{Pair}
use proyecto_protos.Copy
use proyecto_protos.Dissector
use proyecto_protos.Pool
use proyecto_protos.Request.{succeeded}
use proyecto_protos.Selector.{Selector, op_read, register, unregister_fd}
use proyecto_protos.Selector
use proyecto_protos.SocksState
use proyecto_protos.Stm.{Event, StateDefinition, Machine, handler}
use proyecto_protos.Stm
use proyecto_protos.Prelude.{
  ℕ, true, ◌||◌, Option, none, some, [], ◌∷◌, ◌==◌, if◌then◌else◌, replicate, ◌>>=◌, ℤ, pos, negsuc,
}
use proyecto_protos.Proxy.{World, client_statbl}

-- The size of `raw_buff_a` and `raw_buff_b`.
abbrev pub raw_size : ℕ
raw_size = 2048

-- The connection that `socks5_new` sets up.
unfoldable pub new_connection : ℕ → Connection
new_connection fd = record {
  client_fd = pos fd;
  origin_fd = negsuc 0;
  error_state = SocksState.error;
  done_state = SocksState.done;
  is_socks = true;
  read_buffer = Buffer.init raw_size (replicate raw_size 0);
  write_buffer = Buffer.init raw_size (replicate raw_size 0);
  authentication = 0;
  user_index = 0;
}

-- What `memset` and `socks5_new` make of the fields that stages share.
unfoldable pub new_origin : OriginSt → ℕ → OriginSt
new_origin o object = record o {
  request = record (o.request) { conn_status = succeeded; origin = none };
  origin_resolution = [];
  origin_resolution_current = [];
  references = 1;
  object = object;
}

-- `socks5_new`; the inner `none` is NULL, where `malloc` fails.
unfoldable pub socks5_new : World → ℕ → Option ℕ → Option (Option (Machine World × World))
socks5_new w client_fd fresh =
    let (object, pool) = Pool.take w.origin.pool fresh in
    elim object [
      | none ↦ some none
      | some n ↦ (do
        let unset : Machine World = record {
          initial = SocksState.hello_read;
          states = client_statbl;
          max_state = SocksState.error;
          current = some 0;
        }
        stm ← Stm.init unset
        some (
            some (
              stm,
              record w {
                key = record (w.key) { conn = new_connection client_fd };
                origin = new_origin (record (w.origin) { pool = pool }) n;
                pair = record (w.pair) { dissector = Dissector.init w.pair.dissector };
              },
            )))
    ]

-- `close` of a descriptor.
abbrev pub closing : World → ℤ → World
closing w fd = record w { origin = record (w.origin) { closed = fd ∷ w.origin.closed } }

-- `socks5_destroy`
abbrev pub socks5_destroy : World → World
socks5_destroy w = record w { origin = release w.origin }

-- `socksv5_passive_accept`; `accept` gives a descriptor or fails. The first part is the machine of a
-- connection that is taken.
unfoldable pub passive_accept :
    World → Option ℕ → Option ℕ → Option (Option (Machine World) × World)
passive_accept w accepted fresh = elim accepted [
  | none ↦ some (none, w)
  | some client ↦
      (let shut : World → Option (Option (Machine World) × World) =
          λ v. some (none, closing v (pos client)) in
        let made : Option (Option (Machine World) × World) = (do
          new ← socks5_new w client fresh
          elim new [
            | none ↦ shut w
            | some (stm, v) ↦ (do
              (ret, s) ←
                  register v.key.selector (pos client) socks5_handler op_read v.origin.object
                    v.answers.table_memory
              let v' : World = record v { key = record (v.key) { selector = s } }
              elim ret [
                | Selector.Status.success ↦ some (some stm, v')
                | _ ↦ some (none, socks5_destroy (closing v' (pos client)))
              ])
          ]) in
        if w.answers.nio then made else shut w)
]

-- A round of the loop of `socksv5_done`.
unfoldable pub done_with : World → ℤ → Option World
done_with w fd =
    let shut : Option World = (do
      (ret, s, object) ← unregister_fd w.key.selector fd
      let v : World = record w { key = record (w.key) { selector = s } }
      let v' : World = elim object [ none ↦ v | some n ↦ socks5_destroy v ]
      elim ret [ Selector.Status.success ↦ some (closing v' fd) | _ ↦ none ]) in
    if Copy.same_fd fd (negsuc 0) then some w else shut

-- `socksv5_done`
unfoldable pub socksv5_done : World → Option World
socksv5_done w = do v ← done_with w w.key.conn.client_fd; done_with v w.key.conn.origin_fd

-- `socksv5_read`, `socksv5_write` and `socksv5_block`, which differ in the event.
unfoldable pub on_event : Event → Machine World → World → Option (Machine World × World)
on_event e stm w = do
  (st, stm', w') ← handler e stm w
  let over : Option (Machine World × World) = (do v ← socksv5_done w'; some (stm', v))
  if st == SocksState.error || st == SocksState.done then over else some (stm', w')
