-- ===== src/Copy.antt =====
-- src/Etapas/copy.c: the state in which the proxy passes bytes between a client and its origin. The
-- two halves share the buffers of the connection crosswise. `abort`, `exit` and a failed `assert` are
-- `none`.
pub mod Relay
use proyecto_protos.Buffer.{Buffer, can_read, can_write}
use proyecto_protos.Connection.{Key, with_read_buffer, with_write_buffer, receive, transmit}
use proyecto_protos.Dissector.{Dissector}
use proyecto_protos.Dissector
use proyecto_protos.Globals.{Globals, word}
use proyecto_protos.Selector.{Interest, op_noop, success, set_interest}
use proyecto_protos.Socket.{
  Incoming, Outgoing, recv_some, send_some, broken, offered, refused, accepts,
}
use proyecto_protos.SocksState
use proyecto_protos.Users.{entry}
use proyecto_protos.Prelude.{
  ℕ, zero, suc, ◌+◌, ◌-◌, ◌*◌, ◌/◌, ◌%◌, Bool, true, false, not, ◌&&◌, Option, none, some, List, [],
  ◌∷◌, length, ◌==◌, if◌then◌else◌, ◌>>=◌, ◌>>◌, assert, ℤ, pos, negsuc,
}

-- Which half of the connection: `client.copy` or `orig.copy`.
pub data Side : Type 0 where
  client origin : Side

-- The directions of `shutdown`.
pub data Channel : Type 0 where
  shut_rd shut_wr : Channel

-- `struct copy_st`, less its pointers, which the side gives.
pub record CopySt : Type 0 where
  pub fd : ℤ
  pub interest : Interest

-- Both halves, the dissector, and the calls of `shutdown` so far, the last one first.
pub record Pair : Type 0 where
  pub client : CopySt
  pub origin : CopySt
  pub dissector : Dissector
  pub closed : List (ℤ × Channel)

abbrev pub other : Side → Side
other client = origin
other origin = client

abbrev pub half : Pair → Side → CopySt
half p client = p.client
half p origin = p.origin

abbrev pub with_half : Pair → Side → CopySt → Pair
with_half p client c = record p { client = c }
with_half p origin c = record p { origin = c }

-- `rb` of a half: what it reads goes there.
abbrev pub rb : Side → Key → Buffer
rb client k = k.conn.read_buffer
rb origin k = k.conn.write_buffer

abbrev pub with_rb : Side → Key → Buffer → Key
with_rb client k b = with_read_buffer k b
with_rb origin k b = with_write_buffer k b

unfoldable pub same_fd : ℤ → ℤ → Bool
same_fd (pos m) (pos n) = m == n
same_fd (negsuc m) (negsuc n) = m == n
same_fd _ _ = false

unfoldable pub is_noop : Interest → Bool
is_noop i = not i.reading && not i.writing

-- `copy_compute_interests`; its result is not looked at.
unfoldable pub compute_interests : Key → CopySt → Side → Option Key
compute_interests k c side =
    let i : Interest = record {
      reading = c.interest.reading && can_write (rb side k);
      writing = c.interest.writing && can_read (rb (other side) k);
    } in
    let asked : Option Key = (do
      (ret, s) ← set_interest k.selector c.fd i
      elim ret [ success ↦ some (record k { selector = s }) | _ ↦ none ]) in
    if same_fd c.fd (negsuc 0) then some k else asked

-- `copy_init`; what is left of the other fields stays.
unfoldable pub init : Key → Pair → Option (Key × Pair)
init k p = do
  let both : Interest = record { reading = true; writing = true }
  let p' : Pair = record p {
    client = record { fd = k.conn.client_fd; interest = both };
    origin = record { fd = k.conn.origin_fd; interest = both };
  }
  k1 ← compute_interests k p'.origin origin
  k2 ← compute_interests k1 p'.client client
  some (k2, p')

-- `copy_ptr`; NULL is `none`.
unfoldable pub copy_ptr : Key → Option Side
copy_ptr k =
    if same_fd k.fd k.conn.origin_fd
    then some origin
    else if same_fd k.fd k.conn.client_fd
    then some client
    else none

-- A half stops to read, and the other to write.
unfoldable pub shut_reading : Pair → Side → Pair
shut_reading p side =
    let c : CopySt = half p side in
    let o : CopySt = half p (other side) in
    let p1 : Pair =
      record (with_half p side (record c { interest = record (c.interest) { reading = false } })) {
        closed = (c.fd, shut_rd) ∷ p.closed;
      } in
    let p2 : Pair =
      record (with_half p1 (other side)
        (record o { interest = record (o.interest) { writing = false } })) {
          closed = (o.fd, shut_wr) ∷ p1.closed;
        } in
    if same_fd o.fd (negsuc 0) then p1 else p2

-- A half stops to write, and the other to read.
unfoldable pub shut_writing : Pair → Side → Pair
shut_writing p side =
    let c : CopySt = half p side in
    let o : CopySt = half p (other side) in
    let p1 : Pair =
      record (with_half p side (record c { interest = record (c.interest) { writing = false } })) {
        closed = (c.fd, shut_wr) ∷ p.closed;
      } in
    let p2 : Pair =
      record (with_half p1 (other side)
        (record o { interest = record (o.interest) { reading = false } })) {
          closed = (o.fd, shut_rd) ∷ p1.closed;
        } in
    if same_fd o.fd (negsuc 0) then p1 else p2

-- The average over one more read or write.
unfoldable pub average : ℕ → ℕ → ℕ → ℕ
average mean zero n = n
average mean (suc total) n = (mean * suc total + n) % word / (suc total + 1)

unfoldable pub count_read : Globals → ℕ → Globals
count_read g n = record g {
  metrics_average_bytes_per_read = average g.metrics_average_bytes_per_read g.total_reads n;
  total_reads = (g.total_reads + 1) % word;
  metrics_historic_byte_transfer = (g.metrics_historic_byte_transfer + n) % word;
}

unfoldable pub count_write : Globals → ℕ → Globals
count_write g n = record g {
  metrics_average_bytes_per_write = average g.metrics_average_bytes_per_write g.total_writes n;
  total_writes = (g.total_writes + 1) % word;
  metrics_historic_byte_transfer = (g.metrics_historic_byte_transfer + n) % word;
}

abbrev pub Answer : Type 0
Answer = ℕ × Globals × Key × Pair

-- How both handlers end. The metric wraps around at 0.
unfoldable pub settle : Globals → Key → Pair → Side → Option Answer
settle g k p side = do
  k1 ← compute_interests k (half p side) side
  k2 ← compute_interests k1 (half p (other side)) (other side)
  let n : ℕ = g.metrics_concurrent_connections
  let left : ℕ = (n + (word - 1)) % word
  some (
      if is_noop (half p side).interest
      then (SocksState.done, record g { metrics_concurrent_connections = left }, k2, p)
      else (SocksState.copy, g, k2, p))

-- `users[*p->userIndex].name` of the connection: NULL, and `none`, where there is no such user.
unfoldable pub active_user : Globals → Key → Option (List ℕ)
active_user g k = do u ← entry g.users.slots k.conn.user_index; some u.name

-- `copy_read` once bytes have come: those, and the buffer after them.
unfoldable pub took : Globals → Key → Pair → Side → List ℕ → Buffer → Option Answer
took g k p side bytes b = do
  let seen : Option Dissector = Dissector.consume (active_user g k) bytes p.dissector
  d ← if g.password_dissectors == 0x00 then seen else some p.dissector
  settle (count_read g (length bytes)) (with_rb side k b) (record p { dissector = d }) side

-- The bytes that `recv` stored.
unfoldable pub arrived : Buffer → Incoming → Option (List ℕ)
arrived b broken = some []
arrived b (offered bs) = recv_some b bs

-- `copy_read`
unfoldable pub read : Globals → Key → Pair → Incoming → Option Answer
read g k p incoming = do
  side ← copy_ptr k
  assert (same_fd (half p side).fd k.fd)
  came ← receive (rb side k) incoming
  elim came [
    | none ↦ settle g k (shut_reading p side) side
    | some b ↦ (do bytes ← arrived (rb side k) incoming; took g k p side bytes b)
  ]

-- How many bytes `send` took.
unfoldable pub sent : Buffer → Outgoing → Option ℕ
sent b refused = some 0
sent b (accepts n) = send_some b n

-- `copy_write`
unfoldable pub write : Globals → Key → Pair → Outgoing → Option Answer
write g k p outgoing = do
  side ← copy_ptr k
  assert (same_fd (half p side).fd k.fd)
  went ← transmit (rb (other side) k) outgoing
  elim went [
    | none ↦ settle g k (shut_writing p side) side
    | some b ↦ (do
      n ← sent (rb (other side) k) outgoing
      settle (count_write g n) (with_rb (other side) k b) p side)
  ]
