-- ===== src/Connection/Io.antt =====
-- How the handlers of src/Etapas move bytes between the sockets and the buffers.
use proyecto_protos.Buffer.Valid.{IsValid, filled, put_lem, read_adv_lem}
use proyecto_protos.Buffer.{Buffer, space, write_ptr, compact_if_empty}
use proyecto_protos.Socket.{offered, broken, accepts, recv_some_lem, send_some_lem}
use proyecto_protos.Connection.{receive, transmit, reply_two}
use proyecto_protos.Prelude.{
  ℕ, ◌+◌, ◌-◌, ◌≤◌, ◌≡◌, min, List, [], ◌∷◌, some, none, length, take_all, arith,
}

-- Bytes that fit all come in.
pub receive_lem :
    (b : Buffer) (x : ℕ) (xs : List ℕ)
    → IsValid b
    → length (x ∷ xs) ≤ space b
    → receive b (offered (x ∷ xs)) ≡ some (some (filled b (x ∷ xs)))
unfolding receive
receive_lem b x xs v h =
    rw (recv_some_lem b (x ∷ xs) v, take_all (space b) (x ∷ xs) h, put_lem b (x ∷ xs) v h)

-- The end of the stream, and an error.
pub receive-none :
    (b : Buffer) → IsValid b → (receive b (offered []) ≡ some none) × (receive b broken ≡ some none)
unfolding receive write_ptr
receive-none b v =
    (rw (recv_some_lem b [] v, take_all {A = ℕ} (space b) [] (omega arith)), ground arith)

-- The network takes so many of the waiting bytes.
pub transmit_lem :
    (b : Buffer) (n : ℕ)
    → IsValid b
    → transmit b (accepts n)
      ≡ some (some (compact_if_empty (record b { read = b.read + min n (b.write - b.read) })))
unfolding transmit
transmit_lem b n v =
    rw (send_some_lem b n v, read_adv_lem b (min n (b.write - b.read)) (omega arith))

-- A reply of two bytes is written where it fits, and refused where not.
pub reply_two_lem :
    (b : Buffer) (x y : ℕ)
    → IsValid b
    → 2 ≤ space b
    → reply_two b x y ≡ some (some (filled b (x ∷ y ∷ [])))
unfolding reply_two write_ptr
reply_two_lem b x y v h = ground (arith, put_lem b (x ∷ y ∷ []) v h)
