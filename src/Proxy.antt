-- ===== src/Proxy.antt =====
-- src/socks5nio.c: the table of states of a proxy connection, which ties the stages to the engine of
-- src/stm.c. What the system answers to the calls of an event is a record; `abort` is `none`.
pub mod Lifetime
pub mod Negotiation
pub mod Choice
pub mod Closing
pub mod Faults
pub mod Resolving
pub mod Serving
use proyecto_protos.Auth
use proyecto_protos.Buffer
use proyecto_protos.Connecting.{OriginSt, Connect, Errno, socks5_handler}
use proyecto_protos.Connecting.Writing.{release}
use proyecto_protos.Connecting
use proyecto_protos.Connecting.Writing
use proyecto_protos.Connection.{Connection, Key}
use proyecto_protos.Copy.{Pair}
use proyecto_protos.Copy
use proyecto_protos.Dissector
use proyecto_protos.Globals.{Globals}
use proyecto_protos.Hello
use proyecto_protos.Pool
use proyecto_protos.Request.{RequestSt, succeeded}
use proyecto_protos.Request
use proyecto_protos.Request.Lifecycle.{Pointers}
use proyecto_protos.Request.Lifecycle
use proyecto_protos.RequestParser
use proyecto_protos.Selector.{Selector, op_read, register, unregister_fd}
use proyecto_protos.Selector
use proyecto_protos.Socket.{Incoming, Outgoing}
use proyecto_protos.SocksState
use proyecto_protos.Stm.{Event, StateDefinition, Machine, handler}
use proyecto_protos.Stm
use proyecto_protos.Prelude.{
  ℕ, Bool, true, false, ◌||◌, Option, none, some, List, [], ◌∷◌, ◌==◌, if◌then◌else◌, replicate,
  ◌>>=◌, ℤ, pos, negsuc,
}

-- What the system answers to the calls that a handler makes.
pub record Answers : Type 0 where
  pub incoming : Incoming
  pub outgoing : Outgoing
  pub parser_memory : Bool
  pub first_request : Option RequestParser.Request
  pub second_request : Option RequestParser.Request
  pub job_memory : Bool
  pub thread : Bool
  pub socket : Option ℕ
  pub nio : Bool
  pub connect : Connect
  pub sockopt : Option Errno
  pub table_memory : Bool

-- What a callback reaches: the globals, the key with the connection, and the states of the stages. The
-- code keeps those in unions; each is set on arrival at its stage.
pub record World : Type 0 where
  pub globals : Globals
  pub key : Key
  pub hello : Hello.HelloSt
  pub userpass : Auth.UserpassSt
  pub pointers : Pointers
  pub origin : OriginSt
  pub pair : Pair
  pub answers : Answers

-- A callback of the table that leaves the state: it only frees what is not read again, or sets
-- pointers to the buffers of the connection.
abbrev pub quiet : ℕ → World → Option World
quiet state w = some w

unfoldable pub hello_read_init : ℕ → World → Option World
hello_read_init state w =
    some (record w { hello = Hello.read_init w.key w.globals.auth_method w.answers.parser_memory })

unfoldable pub hello_read : World → Option (ℕ × World)
hello_read w = do
  (ret, d, k) ← Hello.read w.key w.hello w.answers.incoming
  some (ret, record w { hello = d; key = k })

unfoldable pub hello_write : World → Option (ℕ × World)
hello_write w = do
  (ret, d, k) ← Hello.write w.key w.hello w.answers.outgoing
  some (ret, record w { hello = d; key = k })

unfoldable pub auth_read_init : ℕ → World → Option World
auth_read_init state w = do
  d ← Auth.read_init w.answers.parser_memory
  some (record w { userpass = d })

unfoldable pub auth_read : World → Option (ℕ × World)
auth_read w = do
  (ret, d, k, g) ← Auth.read w.globals w.key w.userpass w.answers.incoming
  some (ret, record w { userpass = d; key = k; globals = g })

unfoldable pub auth_write : World → Option (ℕ × World)
auth_write w = do (ret, k) ← Auth.write w.key w.answers.outgoing; some (ret, record w { key = k })

unfoldable pub request_init : ℕ → World → Option World
request_init state w = do
  (d, p, k) ←
      Request.Lifecycle.init w.key w.origin.request w.answers.parser_memory w.answers.first_request
        w.answers.second_request
  some (record w { origin = record (w.origin) { request = d }; pointers = p; key = k })

unfoldable pub request_close : ℕ → World → Option World
request_close state w = do
  p ← Request.Lifecycle.close w.origin.request w.pointers
  some (record w { pointers = p })

-- The stage writes the address of the origin into the connection.
unfoldable pub located : OriginSt → RequestSt → OriginSt
located o d = elim d.origin [
  | none ↦ record o { request = d }
  | some a ↦ record o { request = d; origin_addr = a; origin_domain = a.domain }
]

unfoldable pub request_read : World → Option (ℕ × World)
request_read w = do
  (ret, d, k) ←
      Request.read w.key w.origin.request w.answers.incoming w.answers.job_memory w.answers.thread
  some (ret, record w { origin = located w.origin d; key = k })

unfoldable pub request_resolv_done : World → Option (ℕ × World)
request_resolv_done w = do
  (ret, k, o) ← Writing.resolv_done w.key w.origin
  some (ret, record w { key = k; origin = o })

unfoldable pub connecting_init : ℕ → World → Option World
connecting_init state w = do
  (g, k, o) ←
      Connecting.init w.globals w.key w.origin w.answers.socket w.answers.nio w.answers.connect
        w.answers.table_memory
  some (record w { globals = g; key = k; origin = o })

unfoldable pub connecting_write : World → Option (ℕ × World)
connecting_write w = do
  (ret, g, k, o) ←
      Writing.write w.globals w.key w.origin w.answers.sockopt w.answers.connect
        w.answers.table_memory
  some (ret, record w { globals = g; key = k; origin = o })

unfoldable pub connecting_close : ℕ → World → Option World
connecting_close state w =
    some (record w { pointers = Request.Lifecycle.connecting_close w.pointers })

unfoldable pub request_write : World → Option (ℕ × World)
request_write w = do
  (ret, k) ← Request.write w.key w.origin.request w.answers.outgoing
  some (ret, record w { key = k })

unfoldable pub copy_init : ℕ → World → Option World
copy_init state w = do (k, p) ← Copy.init w.key w.pair; some (record w { key = k; pair = p })

unfoldable pub copy_read : World → Option (ℕ × World)
copy_read w = do
  (ret, g, k, p) ← Copy.read w.globals w.key w.pair w.answers.incoming
  some (ret, record w { globals = g; key = k; pair = p })

unfoldable pub copy_write : World → Option (ℕ × World)
copy_write w = do
  (ret, g, k, p) ← Copy.write w.globals w.key w.pair w.answers.outgoing
  some (ret, record w { globals = g; key = k; pair = p })

-- A state without callbacks.
abbrev pub bare : ℕ → StateDefinition World
bare n = record {
  state = n;
  on_arrival = none;
  on_departure = none;
  on_read_ready = none;
  on_write_ready = none;
  on_block_ready = none;
}

abbrev pub client_statbl : List (StateDefinition World)
client_statbl =
    record (bare SocksState.hello_read) {
      on_arrival = some hello_read_init;
      on_departure = some quiet;
      on_read_ready = some hello_read;
    }
    ∷ record (bare SocksState.hello_write) {
      on_arrival = some quiet;
      on_departure = some quiet;
      on_write_ready = some hello_write;
    }
    ∷ record (bare SocksState.userpass_read) {
      on_arrival = some auth_read_init;
      on_departure = some quiet;
      on_read_ready = some auth_read;
    }
    ∷ record (bare SocksState.userpass_write) {
      on_arrival = some quiet;
      on_departure = some quiet;
      on_write_ready = some auth_write;
    }
    ∷ record (bare SocksState.request_read) {
      on_arrival = some request_init;
      on_departure = some request_close;
      on_read_ready = some request_read;
    }
    ∷ record (bare SocksState.request_resolv) { on_block_ready = some request_resolv_done }
    ∷ record (bare SocksState.request_connecting) {
      on_arrival = some connecting_init;
      on_departure = some connecting_close;
      on_write_ready = some connecting_write;
    }
    ∷ record (bare SocksState.request_write) { on_write_ready = some request_write }
    ∷ record (bare SocksState.copy) {
      on_arrival = some copy_init;
      on_read_ready = some copy_read;
      on_write_ready = some copy_write;
    }
    ∷ bare SocksState.done
    ∷ bare SocksState.error
    ∷ []
