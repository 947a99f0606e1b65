-- ===== src/Socket.antt =====
-- What `recv` and `send` do to the buffers, as every handler calls them. The sockets are outside the
-- program: an outcome is an argument, chosen by the environment.
use proyecto_protos.Buffer.{Buffer, write_ptr, read_ptr}
use proyecto_protos.Buffer.Valid.{IsValid}
use proyecto_protos.Buffer.{space}
use proyecto_protos.Prelude.{◌≡◌, ◌-◌, arith, ℕ, min, Option, some, List, take, ◌>>=◌}

-- `recv` fails (-1), or the peer offers bytes (none of them at the end of the stream).
pub data Incoming : Type 0 where
  broken : Incoming
  offered : List ℕ → Incoming

-- `send` fails (-1), or the network would take so many bytes.
pub data Outgoing : Type 0 where
  refused : Outgoing
  accepts : ℕ → Outgoing

-- `ptr = buffer_write_ptr(b, &count); n = recv(fd, ptr, count, 0)`: at most `count` bytes are taken.
unfoldable pub recv_some : Buffer → List ℕ → Option (List ℕ)
unfolding write_ptr
recv_some b bs = do (p, count) ← write_ptr b; some (take count bs)

-- `ptr = buffer_read_ptr(b, &count); n = send(fd, ptr, count, ...)`: at most `count` bytes go.
unfoldable pub send_some : Buffer → ℕ → Option ℕ
unfolding read_ptr
send_some b n = do (p, count) ← read_ptr b; some (min n count)

pub recv_some_lem :
    (b : Buffer) (bs : List ℕ) → IsValid b → recv_some b bs ≡ some (take (space b) bs)
unfolding recv_some
recv_some_lem b bs v = ground arith

pub send_some_lem :
    (b : Buffer) (n : ℕ) → IsValid b → send_some b n ≡ some (min n (b.write - b.read))
unfolding send_some
send_some_lem b n v = ground arith
