-- ===== src/MngNio.antt =====
-- src/mng_nio.c: the management connections, from `accept` to `close`: their table of states, and the
-- callbacks that the selector calls. What the system answers to the calls of an event is a record;
-- `abort` is `none`.
pub mod Lifetime
use proyecto_protos.Auth
use proyecto_protos.Connection.{Key}
use proyecto_protos.Globals.{Globals}
use proyecto_protos.Hello
use proyecto_protos.Mng.{MngSt, index_init}
use proyecto_protos.Mng
use proyecto_protos.Mng.Read
use proyecto_protos.MngState
use proyecto_protos.Pool.{Pool}
use proyecto_protos.Socket.{Incoming, Outgoing}
use proyecto_protos.Stm.{StateDefinition}
use proyecto_protos.Prelude.{ℕ, Bool, Option, none, some, List, [], ◌∷◌, ◌>>=◌, ℤ}

-- What the system answers to the calls that a handler makes.
pub record Answers : Type 0 where
  pub incoming : Incoming
  pub outgoing : Outgoing
  pub parser_memory : Bool
  pub table_memory : Bool

-- What a callback reaches: the globals, the key with the connection, the states of the stages, each set
-- on arrival at its stage, what `struct socks5` holds of the object, the pool of this file, and the
-- descriptors given to `close`, the last one first.
pub record World : Type 0 where
  pub globals : Globals
  pub key : Key
  pub hello : Hello.HelloSt
  pub userpass : Auth.UserpassSt
  pub request : MngSt
  pub references : ℕ
  pub object : ℕ
  pub pool : Pool
  pub closed : List ℤ
  pub answers : Answers

-- A callback of the table that leaves the state: it only frees what is not read again, or sets
-- pointers to the buffers of the connection.
abbrev pub quiet : ℕ → World → Option World
quiet state w = some w

unfoldable pub hello_read_init : ℕ → World → Option World
hello_read_init state w =
    some (record w { hello = Hello.read_init w.key w.globals.auth_method w.answers.parser_memory })

unfoldable pub hello_read : World → Option (ℕ × World)
hello_read w = do
  (ret, d, k) ← Hello.read w.key w.hello w.answers.incoming
  some (ret, record w { hello = d; key = k })

unfoldable pub hello_write : World → Option (ℕ × World)
hello_write w = do
  (ret, d, k) ← Hello.write w.key w.hello w.answers.outgoing
  some (ret, record w { hello = d; key = k })

unfoldable pub auth_read_init : ℕ → World → Option World
auth_read_init state w = do
  d ← Auth.read_init w.answers.parser_memory
  some (record w { userpass = d })

unfoldable pub auth_read : World → Option (ℕ × World)
auth_read w = do
  (ret, d, k, g) ← Auth.read w.globals w.key w.userpass w.answers.incoming
  some (ret, record w { userpass = d; key = k; globals = g })

unfoldable pub auth_write : World → Option (ℕ × World)
auth_write w = do (ret, k) ← Auth.write w.key w.answers.outgoing; some (ret, record w { key = k })

unfoldable pub request_index_init : ℕ → World → Option World
request_index_init state w = do
  d ← index_init w.request w.answers.parser_memory
  some (record w { request = d })

unfoldable pub request_index_read : World → Option (ℕ × World)
request_index_read w = do
  (ret, d, k) ← Mng.Read.index_read w.globals w.key w.request w.answers.incoming
  some (ret, record w { request = d; key = k })

unfoldable pub request_init : ℕ → World → Option World
request_init state w = do
  d ← Mng.request_init w.request w.answers.parser_memory
  some (record w { request = d })

unfoldable pub request_read : World → Option (ℕ × World)
request_read w = do
  (ret, d, k, g) ← Mng.Read.read w.globals w.key w.request w.answers.incoming
  some (ret, record w { request = d; key = k; globals = g })

unfoldable pub request_write : World → Option (ℕ × World)
request_write w = do
  (ret, k) ← Mng.Read.write w.key w.request w.answers.outgoing
  some (ret, record w { key = k })

-- A state without callbacks.
abbrev pub bare : ℕ → StateDefinition World
bare n = record {
  state = n;
  on_arrival = none;
  on_departure = none;
  on_read_ready = none;
  on_write_ready = none;
  on_block_ready = none;
}

abbrev pub client_mng : List (StateDefinition World)
client_mng =
    record (bare MngState.hello_read) {
      on_arrival = some hello_read_init;
      on_departure = some quiet;
      on_read_ready = some hello_read;
    }
    ∷ record (bare MngState.hello_write) {
      on_arrival = some quiet;
      on_departure = some quiet;
      on_write_ready = some hello_write;
    }
    ∷ record (bare MngState.userpass_read) {
      on_arrival = some auth_read_init;
      on_departure = some quiet;
      on_read_ready = some auth_read;
    }
    ∷ record (bare MngState.userpass_write) {
      on_arrival = some quiet;
      on_departure = some quiet;
      on_write_ready = some auth_write;
    }
    ∷ record (bare MngState.request_read_index) {
      on_arrival = some request_index_init;
      on_departure = some quiet;
      on_read_ready = some request_index_read;
    }
    ∷ record (bare MngState.request_read) {
      on_arrival = some request_init;
      on_departure = some quiet;
      on_read_ready = some request_read;
    }
    ∷ record (bare MngState.request_write) {
      on_arrival = some quiet;
      on_departure = some quiet;
      on_write_ready = some request_write;
    }
    ∷ bare MngState.done
    ∷ bare MngState.error
    ∷ []
