-- ===== src/Server.antt =====
-- The start of src/main.c behind the options, with `create_socket` of src/socket_utils.c: the sockets
-- that listen, the selector that they are registered with, and the loop around `selector_select`. What
-- the system answers is an argument. A failure, where `main` goes to its end, is `none`.
pub mod Start
pub mod Finish
pub mod Balance
use proyecto_protos.Request.{Family, inet, inet6}
use proyecto_protos.Selector.{
  Selector, Status, success, enomem, maxfd, iargs, fdinuse, io, Handler, op_read, new, register,
}
use proyecto_protos.Selector.Loop.{Host, Wait, select}
use proyecto_protos.Prelude.{
  ℕ, Bool, true, false, Option, none, some, List, [], ◌∷◌, if◌then◌else◌, ◌>>=◌, pos,
}

-- What the calls of `create_socket` answer; `socket` gives a descriptor or -1.
pub record Answers : Type 0 where
  pub socket : Option ℕ
  pub v6only : Bool
  pub bind : Bool
  pub listen : Bool
  pub nio : Bool

-- `addr_process` and `addr6_process`.
unfoldable pub bound : Family → Answers → Bool
bound inet a = a.bind
bound inet6 a = if a.v6only then a.bind else false

-- `create_socket`; -1 is `none`.
unfoldable pub create_socket : Family → Answers → Option ℕ
create_socket f a = do
  server ← a.socket
  if bound f a then (if a.listen then (if a.nio then some server else none) else none) else none

-- The sockets of one of the two services, `socket` and `socket6`; -1 is `none`.
pub record Masters : Type 0 where
  pub socket : Option ℕ
  pub socket6 : Option ℕ

-- The creation of the sockets of a service for a family; AF_UNSPEC is `none`.
unfoldable pub create_masters : Option Family → Answers → Answers → Option Masters
create_masters none a a6 = do
  s ← create_socket inet a
  s6 ← create_socket inet6 a6
  some (record { socket = some s; socket6 = some s6 })
create_masters (some inet) a a6 = do
  s ← create_socket inet a
  some (record { socket = some s; socket6 = none })
create_masters (some inet6) a a6 = do
  s6 ← create_socket inet6 a6
  some (record { socket = none; socket6 = some s6 })

-- The handlers `socksv5` and `mng`, which only accept.
abbrev pub accepting : Handler
accepting = record { on_read = true; on_write = false; on_block = false; on_close = false }

-- The registration of a socket that is there, with the status so far.
unfoldable pub register_one : Option ℕ → Bool → Bool × Selector → Option (Bool × Selector)
register_one none memory (ok, s) = some (ok, s)
register_one (some fd) memory (ok, s) = do
  (ret, s') ← register s (pos fd) accepting op_read 0 memory
  some (elim ret [ success ↦ (ok, s') | _ ↦ (false, s') ])

-- The registration of the sockets of a service, that of IPv6 first.
unfoldable pub register_masters : Masters → Bool → Selector → Option Selector
register_masters m memory s = do
  x ← register_one m.socket6 memory (true, s)
  (ok, s') ← register_one m.socket memory x
  if ok then some s' else none

-- SELECTOR_INITIAL_ELEMENTS
abbrev pub initial_elements : ℕ
initial_elements = 1024

-- `main` from the creation of the selector to its loop.
unfoldable pub start : Masters → Masters → Bool → Option Selector
start socks mng memory = do
  made ← new initial_elements memory
  s ← made
  s1 ← register_masters socks memory s
  register_masters mng memory s1

-- The loop of `main`, over what `pselect` answers until `done` is set; the status of the first round
-- that fails ends it.
unfoldable pub serve : {W : Type 0} → Host W → List Wait → W → Option (Status × W)
serve host [] w = some (success, w)
serve host (a ∷ more) w = do
  (ss, w') ← select host w a
  let rest = serve host more w'
  elim ss [ success ↦ rest | failure ↦ some (failure, w') ]

-- What `main` returns, with whether there is an error message.
unfoldable pub exit_code : Status → Bool → ℕ
exit_code success message = if message then 1 else 0
exit_code enomem message = 2
exit_code maxfd message = 2
exit_code iargs message = 2
exit_code fdinuse message = 2
exit_code io message = 2

-- The loop with what `main` returns after it: a loop that `done` ends leaves the message "closing".
unfoldable pub run : {W : Type 0} → Host W → List Wait → W → Option (ℕ × W)
unfolding serve exit_code
run host answers w = do (ss, w') ← serve host answers w; some (exit_code ss true, w')
