-- ===== src/Trace.antt =====
-- What passes through a buffer of src/buffer.c, over any sequence of the calls that its users make.
use proyecto_protos.Buffer.Valid.{
  IsValid, filled, read_adv_lem, read_adv-IsValid, put_lem, filled-IsValid, compact-IsValid,
}
use proyecto_protos.Buffer.Fifo.{compact_lem, contents-filled, contents-read_adv}
use proyecto_protos.Buffer.{Buffer, compact, compact_if_empty, read_adv, put, contents, space}
use proyecto_protos.Socket.{recv_some, send_some, recv_some_lem, send_some_lem}
use proyecto_protos.Prelude.{
  ℕ, min, ◌+◌, ◌-◌, ◌≤◌, ◌≡◌, refl, sym, ◌∙◌, ap, List, [], ◌∷◌, ◌++◌, Option, some, length, take,
  drop, length-take_le, take-append-drop, append_assoc, ◌>>=◌, pos, arith,
}

-- A user of the buffer receives bytes that its peer offers, sends up to so many, or compacts.
pub data Call : Type 0 where
  receive : List ℕ → Call
  send : ℕ → Call
  squeeze : Call

-- The buffer, the bytes that have come in and those that have gone out.
abbrev pub Flow : Type 0
Flow = Buffer × List ℕ × List ℕ

unfoldable pub step : Flow → Call → Option Flow
unfolding recv_some send_some
step (b, ins, outs) (receive bs) = do
  got ← recv_some b bs
  b' ← put b got
  some (b', ins ++ got, outs)
step (b, ins, outs) (send n) = do
  sent ← send_some b n
  b' ← read_adv b (pos sent)
  some (b', ins, outs ++ take sent (contents b))
step (b, ins, outs) squeeze = some (compact b, ins, outs)

unfoldable pub run : Flow → List Call → Option Flow
run f [] = some f
run f (c ∷ cs) = do f' ← step f c; run f' cs

-- What came in is what went out and what still waits, in order.
pub record Conserves (f : Flow) : Type 0 where
  pub valid : IsValid f.0
  pub balance : f.1 ≡ f.2 ++ contents f.0

-- No call of a valid buffer stops the program, and each keeps the balance.
step-Conserves :
    (f : Flow) (c : Call) → Conserves f → (f' : Flow) × (step f c ≡ some f') × Conserves f'
unfolding step
step-Conserves (b, ins, outs) (receive bs) k =
    let got : List ℕ = take (space b) bs in
    let fits : length got ≤ space b = length-take_le (space b) bs in
    (
      (filled b got, ins ++ got, outs),
      rw (recv_some_lem b bs k.valid, put_lem b got k.valid fits),
      record {
        valid = filled-IsValid b got k.valid fits;
        balance =
            ap (λ l. l ++ got) k.balance
            ∙ append_assoc outs (contents b) got
            ∙ ap (λ l. outs ++ l) (sym (contents-filled b got k.valid fits));
      },
    )
step-Conserves (b, ins, outs) (send n) k =
    let sent : ℕ = min n (b.write - b.read) in
    let within : b.read + sent ≤ b.write = omega (arith, k.valid.read_le) in
    (
      (compact_if_empty (record b { read = b.read + sent }), ins, outs ++ take sent (contents b)),
      rw (send_some_lem b n k.valid, read_adv_lem b sent within),
      record {
        valid = read_adv-IsValid b sent k.valid within;
        balance =
            k.balance
            ∙ ap (λ l. outs ++ l) (sym (take-append-drop sent (contents b)))
            ∙ sym (append_assoc outs (take sent (contents b)) (drop sent (contents b)))
            ∙ ap (λ l. (outs ++ take sent (contents b)) ++ l)
                (sym (contents-read_adv b sent k.valid within));
      },
    )
step-Conserves (b, ins, outs) squeeze k = (
  (compact b, ins, outs),
  refl,
  record {
    valid = compact-IsValid k.valid;
    balance = k.balance ∙ ap (λ l. outs ++ l) (sym (compact_lem b k.valid).0);
  },
)

-- From a valid buffer, any sequence of receiving, sending and compacting runs to its end without a
-- failed `assert` or an access out of range, and leaves the bytes received equal to the bytes sent
-- followed by the bytes that wait, if that held at the start.
pub run-Conserves :
    (f : Flow) (cs : List Call) → Conserves f → (f' : Flow) × (run f cs ≡ some f') × Conserves f'
unfolding run
run-Conserves f [] k = (f, refl, k)
run-Conserves f (c ∷ cs) k =
    let (f', e, k') = step-Conserves f c k in
    let (f'', e', k'') = run-Conserves f' cs k' in (f'', rw (e, e'), k'')
