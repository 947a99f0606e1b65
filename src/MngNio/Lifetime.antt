-- ===== src/MngNio/Lifetime.antt =====
-- src/mng_nio.c: the life of a management connection, from `accept` to `close`, and the callbacks that
-- the selector calls. `accept` and `malloc` are outside: what they give is an argument.
use proyecto_protos.Buffer
use proyecto_protos.Connection.{Connection}
use proyecto_protos.Copy.{same_fd}
use proyecto_protos.MngNio.{World, client_mng}
use proyecto_protos.MngState
use proyecto_protos.Pool
use proyecto_protos.Proxy.Lifetime.{raw_size}
use proyecto_protos.Selector.{Handler, op_read, register, unregister_fd}
use proyecto_protos.Selector
use proyecto_protos.Stm.{Event, Machine, handler}
use proyecto_protos.Stm
use proyecto_protos.Prelude.{
  ℕ, Bool, true, false, ◌||◌, Option, none, some, ◌∷◌, ◌==◌, if◌then◌else◌, replicate, ◌>>=◌, ℤ,
  pos, negsuc,
}

-- `mng_handler`
abbrev pub mng_handler : Handler
mng_handler = record { on_read = true; on_write = true; on_block = true; on_close = true }

-- The connection that `mng_new` sets up.
unfoldable pub new_connection : ℕ → Connection
new_connection fd = record {
  client_fd = pos fd;
  origin_fd = negsuc 0;
  error_state = MngState.error;
  done_state = MngState.done;
  is_socks = false;
  read_buffer = Buffer.init raw_size (replicate raw_size 0);
  write_buffer = Buffer.init raw_size (replicate raw_size 0);
  authentication = 0;
  user_index = 0;
}

-- `mng_new`; the inner `none` is NULL, where `malloc` fails.
unfoldable pub mng_new : World → ℕ → Option ℕ → Option (Option (Machine World × World))
mng_new w client_fd fresh =
    let (object, pool) = Pool.take w.pool fresh in
    elim object [
      | none ↦ some none
      | some n ↦ (do
        let unset : Machine World = record {
          initial = MngState.hello_read;
          states = client_mng;
          max_state = MngState.error;
          current = some 0;
        }
        stm ← Stm.init unset
        some (
            some (
              stm,
              record w {
                key = record (w.key) { conn = new_connection client_fd };
                references = 1;
                object = n;
                pool = pool;
              },
            )))
    ]

-- `close` of a descriptor.
abbrev pub closing : World → ℤ → World
closing w fd = record w { closed = fd ∷ w.closed }

-- `mng_destroy`
unfoldable pub mng_destroy : World → World
mng_destroy w =
    let (references, pool) = Pool.destroy w.pool w.object w.references in
    record w { references = references; pool = pool }

-- `mng_passive_accept`; `accept` gives a descriptor or fails, and `nio` says whether it could be made
-- non-blocking. The first part is the machine of a connection that is taken.
unfoldable pub passive_accept :
    World → Option ℕ → Bool → Option ℕ → Option (Option (Machine World) × World)
passive_accept w accepted nio fresh = elim accepted [
  | none ↦ some (none, w)
  | some client ↦
      (let shut : World → Option (Option (Machine World) × World) =
          λ v. some (none, closing v (pos client)) in
        let made : Option (Option (Machine World) × World) = (do
          new ← mng_new w client fresh
          elim new [
            | none ↦ shut w
            | some (stm, v) ↦ (do
              (ret, s) ←
                  register v.key.selector (pos client) mng_handler op_read v.object
                    v.answers.table_memory
              let v' : World = record v { key = record (v.key) { selector = s } }
              elim ret [
                | Selector.Status.success ↦ some (some stm, v')
                | _ ↦ some (none, mng_destroy (closing v' (pos client)))
              ])
          ]) in
        if nio then made else shut w)
]

-- `mng_done`
unfoldable pub mng_done : World → Option World
mng_done w =
    let shut : Option World = (do
      (ret, s, object) ← unregister_fd w.key.selector w.key.conn.client_fd
      let v : World = record w { key = record (w.key) { selector = s } }
      let v' : World = elim object [ none ↦ v | some n ↦ mng_destroy v ]
      elim ret [ Selector.Status.success ↦ some (closing v' w.key.conn.client_fd) | _ ↦ none ]) in
    if same_fd w.key.conn.client_fd (negsuc 0) then some w else shut

-- `mng_read`, `mng_write` and `mng_block`, which differ in the event.
unfoldable pub on_event : Event → Machine World → World → Option (Machine World × World)
on_event e stm w = do
  (st, stm', w') ← handler e stm w
  let over : Option (Machine World × World) = (do v ← mng_done w'; some (stm', v))
  if st == MngState.error || st == MngState.done then over else some (stm', w')
