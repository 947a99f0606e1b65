-- ===== src/Netutils.antt =====
-- The loops of src/netutils.c that send all they have. What `send` takes, call after call, and what
-- `recv` gives are arguments.
pub mod Human
pub mod Sending
pub mod Shown
use proyecto_protos.Buffer.{Buffer, contents, can_read, read_adv}
use proyecto_protos.Copy.{sent}
use proyecto_protos.Socket.{Outgoing, refused, accepts}
use proyecto_protos.Prelude.{
  ℕ, zero, suc, ◌+◌, Bool, true, false, Option, none, some, List, [], ◌∷◌, ◌++◌, length, take, drop,
  min, ◌==◌, if◌then◌else◌, ◌>>=◌, pos,
}

-- `sock_blocking_write`: whether it ends without an error, the buffer, and the bytes that went out.
-- Without fuel it gives nothing.
unfoldable pub blocking_write : ℕ → (ℕ → Outgoing) → Buffer → Option (Bool × Buffer × List ℕ)
blocking_write zero net b = none
blocking_write (suc fuel) net b = do
  n ← sent b (net 0)
  let more : Option (Bool × Buffer × List ℕ) = (do
    b' ← read_adv b (pos n)
    let out : List ℕ = take n (contents b)
    let rest : Option (Bool × Buffer × List ℕ) = (do
      (ok, b'', bytes) ← blocking_write fuel (λ i. net (i + 1)) b'
      some (ok, b'', out ++ bytes))
    if can_read b' then rest else some (true, b', out))
  if n == 0 then some (false, b, []) else more

-- How many of these bytes `send` takes.
unfoldable pub taken : List ℕ → Outgoing → ℕ
taken bs refused = 0
taken bs (accepts n) = min n (length bs)

-- The inner loop of `sock_blocking_copy`, with the number of the call of `send`: whether it ends without
-- an error, the number of the next call, and the bytes that went out.
unfoldable pub push : ℕ → (ℕ → Outgoing) → ℕ → List ℕ → Option (Bool × ℕ × List ℕ)
push zero net i bs = none
push (suc fuel) net i bs =
    let n : ℕ = taken bs (net i) in
    let rest : Option (Bool × ℕ × List ℕ) = (do
      (ok, j, out) ← push fuel net (i + 1) (drop n bs)
      some (ok, j, take n bs ++ out)) in
    let more : Option (Bool × ℕ × List ℕ) =
      if length (drop n bs) == 0 then some (true, i + 1, take n bs) else rest in
    if n == 0 then some (false, i + 1, []) else more

-- `sock_blocking_copy`, of the chunks that `recv` gives before it gives none; each run of the inner loop
-- has the length of its chunk as fuel.
unfoldable pub blocking_copy : List (List ℕ) → (ℕ → Outgoing) → ℕ → Option (Bool × List ℕ)
blocking_copy [] net i = some (true, [])
blocking_copy ([] ∷ chunks) net i = some (true, [])
blocking_copy ((b ∷ bs) ∷ chunks) net i = do
  (ok, j, out) ← push (suc (length bs)) net i (b ∷ bs)
  let rest : Option (Bool × List ℕ) = (do
    (ok', more) ← blocking_copy chunks net j
    some (ok', out ++ more))
  if ok then rest else some (false, out)
