-- ===== src/Netutils/Sending.antt =====
-- The sending loop of src/netutils.c ends, and everything goes out in its order.
use proyecto_protos.Buffer.{Buffer, contents, can_read, read_adv, compact_if_empty}
use proyecto_protos.Buffer.Valid.{IsValid, read_adv_lem, read_adv-IsValid}
use proyecto_protos.Buffer.Fifo.{length-contents, contents-read_adv}
use proyecto_protos.Copy.{sent}
use proyecto_protos.Netutils.{blocking_write}
use proyecto_protos.Socket.{Outgoing, accepts, send_some_lem}
use proyecto_protos.Prelude.{
  ℕ, zero, suc, ◌+◌, ◌-◌, ◌≤◌, ◌<◌, ◌≡◌, refl, ◌∙◌, sym, ap, inl, inr, true, false, Bool-cases,
  some, List, [], ◌∷◌, ◌++◌, append-nil, take-append-drop, length-append, length-take, length, take,
  drop, min, ◌==◌, arith, pos,
}

-- Each call of `send` takes a byte at least.
abbrev pub Willing : (ℕ → Outgoing) → Type 0
Willing net = (i : ℕ) → (n : ℕ) × (net i ≡ accepts (suc n))

nothing : (xs : List ℕ) → length xs ≡ 0 → xs ≡ []
nothing [] h = refl
nothing (x ∷ xs) h = absurd (omega (arith, h))

-- A buffer without waiting bytes.
drained : (b : Buffer) → IsValid b → can_read b ≡ false → contents b ≡ []
unfolding can_read
drained b v h = nothing (contents b) (ground (arith, h, length-contents b v))

-- The buffer once `send` has taken so many bytes.
abbrev after : Buffer → ℕ → Buffer
after b n = compact_if_empty (record b { read = b.read + n })

-- A round of the loop takes some of the bytes and leaves the others.
record Round (net : ℕ → Outgoing) (b : Buffer) (n : ℕ) : Type 0 where
  pub goes : sent b (net 0) ≡ some n
  pub some_bytes : (n == 0) ≡ false
  pub kept : read_adv b (pos n) ≡ some (after b n)
  pub valid : IsValid (after b n)
  pub rest : contents (after b n) ≡ drop n (contents b)
  pub fewer : length (drop n (contents b)) + 1 ≤ length (contents b)

round :
    (net : ℕ → Outgoing) (b : Buffer)
    → IsValid b
    → can_read b ≡ true
    → Willing net
    → (n : ℕ) × Round net b n
unfolding can_read sent
round net b v h w =
    let (m, e) = w 0 in
    let n : ℕ = min (suc m) (b.write - b.read) in
    let waiting : b.read < b.write = ground (arith, h) in
    let c = length-contents b v in
    (
      n,
      record {
        goes = ap (sent b) e ∙ send_some_lem b (suc m) v;
        some_bytes = ground (arith, waiting);
        kept = read_adv_lem b n (omega (arith, waiting));
        valid = read_adv-IsValid b n v (omega (arith, waiting));
        rest = contents-read_adv b n v (omega (arith, waiting));
        fewer = omega (
          arith,
          waiting,
          c,
          length-append (take n (contents b)) (drop n (contents b)),
          ap length (take-append-drop n (contents b)),
          length-take n (contents b) (omega (arith, c)),
        );
      },
    )

-- Where each call of `send` takes a byte at least, `sock_blocking_write` ends after as many rounds as
-- bytes wait, at most, without an error: all of them have gone out, in their order, and none waits.
pub all_sent :
    (fuel : ℕ) (net : ℕ → Outgoing) (b : Buffer)
    → IsValid b
    → can_read b ≡ true
    → length (contents b) ≤ fuel
    → Willing net
    → (b' : Buffer) × (blocking_write fuel net b ≡ some (true, b', contents b)) × (contents b' ≡ [])
unfolding blocking_write
all_sent zero net b v h low w =
    let (n, r) = round net b v h w in absurd (omega (arith, r.fewer, low))
all_sent (suc fuel) net b v h low w =
    let (n, r) = round net b v h w in
    let whole = take-append-drop n (contents b) in
    elim (Bool-cases (can_read (after b n))) [
      | inl more ↦
          (let (b', e, gone) =
              all_sent fuel (λ i. net (i + 1)) (after b n) r.valid more
                (omega (arith, r.fewer, ap length r.rest, low)) (λ i. w (i + 1)) in
            (
              b',
              rw (r.goes, r.some_bytes, r.kept, more, e)
                  (ap (λ l. some (true, b', l))
                    (ap (λ l. take n (contents b) ++ l) r.rest ∙ whole)),
              gone,
            ))
      | inr none_left ↦
          (let gone = drained (after b n) r.valid none_left in
            let all : take n (contents b) ≡ contents b =
              sym (append-nil (take n (contents b)))
              ∙ ap (λ l. take n (contents b) ++ l) (sym gone ∙ r.rest)
              ∙ whole in
            (
              after b n,
              rw (r.goes, r.some_bytes, r.kept, none_left)
                  (ap (λ l. some (true, after b n, l)) all),
              gone,
            ))
    ]
