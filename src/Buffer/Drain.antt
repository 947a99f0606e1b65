-- ===== src/Buffer/Drain.antt =====
-- The loop that the parsers share, `while (buffer_can_read(b) && !finished)` of `hello_consume`
-- (src/Etapas/hello.c), `consume` (src/myParser.c) and `request_consume` (src/Etapas/request.c):
-- against feeding the list of the waiting bytes.
use proyecto_protos.Buffer.Valid.{IsValid}
use proyecto_protos.Buffer.Fifo.{length-contents, read_lem, read_last}
use proyecto_protos.Buffer.Window.{window-empty}
use proyecto_protos.Buffer.{Buffer, can_read, read, reset, contents}
use proyecto_protos.Prelude.{
  ℕ, zero, suc, ◌-◌, ◌<◌, ◌≡◌, refl, ◌∙◌, ap, List, [], ◌∷◌, Option, some, none, Bool, true, false,
  length, Bool-cases, inl, inr, ◌⊎◌, ◌>>=◌, if◌then◌else◌, the_some, ◌++◌, arith,
}

nothing_waits : (b : Buffer) → IsValid b → can_read b ≡ false → contents b ≡ []
unfolding can_read
nothing_waits b v h = window-empty b.read b.write b.mem (ground arith)

pub waits : (b : Buffer) (x : ℕ) (l : List ℕ) → IsValid b → contents b ≡ x ∷ l → can_read b ≡ true
unfolding can_read
waits b x l v e = ground (arith, length-contents b v, ap length e)

module _ {ℓ} {R : Type ℓ} (step : R → ℕ → Option (R × Bool)) where
  -- One byte is taken and fed in each round; `step` says whether that finished the parse. The fuel
  -- runs out as `none`.
  unfoldable pub drain : ℕ → Buffer → R → Option (R × Buffer)
  drain zero b r = none
  drain (suc fuel) b r = elim (can_read b) [
    | false ↦ some (r, b)
    | true ↦ (do
      (c, b') ← read b
      (r', finished) ← step r c
      elim finished [ true ↦ some (r', b') | false ↦ drain fuel b' r' ])
  ]

  -- The same on a list: what is left of it stays.
  unfoldable pub feed_until : R → List ℕ → Option (R × List ℕ)
  feed_until r [] = some (r, [])
  feed_until r (c ∷ cs) = do
    (r', finished) ← step r c
    elim finished [ true ↦ some (r', cs) | false ↦ feed_until r' cs ]

  -- How the loop on a buffer ends, told by the loop on a list.
  pub data Drained (b : Buffer) : Option (R × Buffer) → Option (R × List ℕ) → Type ℓ where
    stopped : Drained b none none
    parsed :
        (r : R) (b' : Buffer)
        → IsValid b'
        → b'.limit ≡ b.limit
        → Drained b (some (r, b')) (some (r, contents b'))

  feed_until_nothing : (r : R) (l : List ℕ) → l ≡ [] → feed_until r l ≡ some (r, l)
  unfolding feed_until
  feed_until_nothing r [] e = refl
  feed_until_nothing r (c ∷ cs) e = cc

  same_limit :
      {b b' : Buffer} {x : Option (R × Buffer)} {y : Option (R × List ℕ)}
      → b'.limit ≡ b.limit
      → Drained b' x y
      → Drained b x y
  same_limit e stopped = stopped
  same_limit e (parsed r b'' v e') = parsed r b'' v (e' ∙ e)

  -- One round, once its byte is out.
  round :
      (fuel : ℕ) (b b' : Buffer)
      → IsValid b'
      → b'.limit ≡ b.limit
      → ((r : R) → Drained b' (drain fuel b' r) (feed_until r (contents b')))
      → (o : Option (R × Bool))
      → Drained b
          (do (r', finished) ← o; elim finished [ true ↦ some (r', b') | false ↦ drain fuel b' r' ])
          (do
            (r', finished) ← o
            elim finished [ true ↦ some (r', contents b') | false ↦ feed_until r' (contents b') ])
  round fuel b b' v e ih none = stopped
  round fuel b b' v e ih (some (r, true)) = parsed r b' v e
  round fuel b b' v e ih (some (r, false)) = same_limit e (ih r)

  pub drain_lem :
      (fuel : ℕ) (b : Buffer) (r : R)
      → IsValid b
      → length (contents b) < fuel
      → Drained b (drain fuel b r) (feed_until r (contents b))
  unfolding drain feed_until
  drain_lem zero b r v h = elim h [ ]
  drain_lem (suc fuel) b r v h = elim (Bool-cases (can_read b)) [
    | inl more ↦
        (let (c, b', e, front, v', lim) = read_lem b v more in
          rw (drain, feed_until, more, e, front)
            (round fuel b b' v' lim (λ r'. drain_lem fuel b' r' v' (omega (arith, ap length front)))
              (step r c)))
    | inr empty ↦
        rw (drain, empty, feed_until_nothing r (contents b) (nothing_waits b v empty))
          (parsed r b v refl)
  ]

  -- A buffer whose bytes parse: the loop on it ends alike, and what was left of the list waits.
  pub drain_parsed :
      (fuel : ℕ) (b : Buffer) (r r' : R) (rest : List ℕ)
      → IsValid b
      → length (contents b) < fuel
      → feed_until r (contents b) ≡ some (r', rest)
      → (b' : Buffer) × (drain fuel b r ≡ some (r', b'))
        × (contents b' ≡ rest)
        × IsValid b'
        × (b'.limit ≡ b.limit)
  drain_parsed fuel b r r' rest v h e = told (drain_lem fuel b r v h) e
    where
      told :
          {x : Option (R × Buffer)} {y : Option (R × List ℕ)}
          → Drained b x y
          → y ≡ some (r', rest)
          → (b' : Buffer) × (x ≡ some (r', b'))
            × (contents b' ≡ rest)
            × IsValid b'
            × (b'.limit ≡ b.limit)
      told stopped q = cc
      told (parsed s b' v' lim) q = (
        b',
        ap (λ p. some (p, b')) (ap (λ p. p.0) (the_some q)),
        ap (λ p. p.1) (the_some q),
        v',
        lim,
      )

  -- One byte waits and finishes the parse: the buffer has all its room again.
  pub drain_one :
      (b : Buffer) (r r' : R) (x : ℕ)
      → IsValid b
      → contents b ≡ x ∷ []
      → step r x ≡ some (r', true)
      → drain (suc (b.write - b.read)) b r ≡ some (r', reset b)
  unfolding drain
  drain_one b r r' x v e h =
      let more : can_read b ≡ true = waits b x [] v e in rw (drain, more, read_last b x v e, h) refl

  -- Bytes that come in two parts are parsed as if they came at once.
  pub feed_until-append :
      (finished : R → Bool)
      → ((r : R) (c : ℕ) → (step r c ≡ none) ⊎ ((r' : R) × (step r c ≡ some (r', finished r'))))
      → (r : R) (xs ys : List ℕ) → finished r ≡ false
      → feed_until r (xs ++ ys) ≡ (
          feed_until r xs >>= λ p.
          if finished p.0 then some (p.0, p.1 ++ ys) else feed_until p.0 ys)
  unfolding feed_until
  feed_until-append finished flag r [] ys h = rw h
  feed_until-append finished flag r (c ∷ xs) ys h = elim (flag r c) [
    | inl e ↦ rw e
    | inr (r', e) ↦ elim (Bool-cases (finished r')) [
      | inl t ↦ rw (e, t) (rw t)
      | inr f ↦ rw (e, f) (feed_until-append finished flag r' xs ys f)
    ]
  ]
