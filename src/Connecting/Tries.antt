-- ===== src/Connecting/Tries.antt =====
-- The addresses of an origin in turn, through `connecting_write` of src/Etapas/connecting.c.
use proyecto_protos.Connection.{Key}
use proyecto_protos.Connecting.{OriginSt, Errno, no_error, Connect}
use proyecto_protos.Connecting.Writing.{write}
use proyecto_protos.Globals.{Globals}
use proyecto_protos.Request.{succeeded, RequestSt, write_done}
use proyecto_protos.SocksState
use proyecto_protos.Prelude.{
  ℕ, ◌+◌, ◌≡◌, refl, ◌∙◌, sym, ◌≢◌, ◌⊎◌, Bool, Option, length, some, arith,
}
use proyecto_protos.Connecting.Fallback.{Reports, refused_cases, write_refused, write-After}

-- So many calls of `connecting_write` that each go on to a further address.
pub data Attempts : ℕ → OriginSt → OriginSt → Type 0 where
  first : {o : OriginSt} → Attempts 0 o o
  another :
      {n : ℕ} (g : Globals) (k : Key) (o : OriginSt) (sockopt : Option Errno) (answer : Connect)
      (memory : Bool) {g' : Globals} {k' : Key} {o' o'' : OriginSt}
      → Reports answer
      → write g k o sockopt answer memory ≡ some (SocksState.request_connecting, g', k', o')
      → Attempts n o' o''
      → Attempts (n + 1) o o''

-- Every attempt uses up an address: there are no more attempts than addresses that `getaddrinfo` gave.
pub attempts_end :
    {n : ℕ} {o o' : OriginSt}
    → Attempts n o o'
    → n + length o'.origin_resolution_current ≡ length o.origin_resolution_current
attempts_end first = omega arith
attempts_end (another g k o sockopt answer memory reports e rest) =
    omega
      (arith, attempts_end rest, (write-After g k o sockopt answer memory reports e).shorter refl)

attempts_lost :
    {n : ℕ} {o o' : OriginSt}
    → Attempts n o o'
    → o.request.conn_status ≢ succeeded
    → o'.request.conn_status ≢ succeeded
attempts_lost first h = h
attempts_lost (another g k o sockopt answer memory reports e rest) h =
    attempts_lost rest (((write-After g k o sockopt answer memory reports e).lost h).0)

write_done_lem :
    (k : Key) (d : RequestSt) {s : ℕ} {k' : Key}
    → d.conn_status ≢ succeeded
    → write_done k d ≡ some (s, k')
    → s ≡ SocksState.done
unfolding write_done
write_done_lem k d ne e = ground arith

-- Once an address refuses the connection, none of the others can bring it about: whatever they answer,
-- `connecting_write` never reports success, it goes on to an address or to REQUEST_WRITE, and from
-- there `request_write`, once the client has the reply, ends the connection.
pub second_address_lost :
    (g : Globals) (k : Key) (o : OriginSt) (x : Errno) (answer : Connect) (memory : Bool) {ret : ℕ}
    {g1 : Globals} {k1 : Key} {o1 : OriginSt} {n : ℕ} {o2 : OriginSt} (g2 : Globals) (k2 : Key)
    (sockopt : Option Errno) (answer' : Connect) (memory' : Bool) {ret' : ℕ} {g3 : Globals}
    {k3 : Key} {o3 : OriginSt} (k4 : Key) {last : ℕ} {k5 : Key}
    → Reports answer
    → o.request.conn_status ≡ succeeded
    → x ≢ no_error
    → write g k o (some x) answer memory ≡ some (ret, g1, k1, o1)
    → Attempts n o1 o2
    → Reports answer'
    → write g2 k2 o2 sockopt answer' memory' ≡ some (ret', g3, k3, o3)
    → write_done k4 o3.request ≡ some (last, k5)
    → (o3.request.conn_status ≢ succeeded)
      × ((ret' ≡ SocksState.request_connecting) ⊎ (ret' ≡ SocksState.request_write))
      × (last ≡ SocksState.done)
second_address_lost g k o x answer memory g2 k2 sockopt answer' memory' k4 reports ok bad e more
      reports' e' closing =
    let (_, lost) =
      refused_cases _ g k o x answer memory reports bad refl
        (sym (write_refused g k o x answer memory ok bad) ∙ e) in
    let (lost', stage) =
      (write-After g2 k2 _ sockopt answer' memory' reports' e').lost (attempts_lost more lost) in
    (lost', stage, write_done_lem k4 _ lost' closing)
