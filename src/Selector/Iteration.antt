-- ===== src/Selector/Iteration.antt =====
-- A round of the event loop of src/selector.c in which one descriptor is ready, to be read.
use proyecto_protos.Selector.{Selector, Item}
use proyecto_protos.Selector.Loop.{Host, serve, visit_item, visit, visit_all, handle_iteration}
use proyecto_protos.Selector.Table.{IsValid}
use proyecto_protos.Stm.{readable}
use proyecto_protos.Prelude.{
  ℕ, zero, suc, ◌+◌, ◌≤◌, ◌<◌, ◌≡◌, ◌≢◌, refl, ◌∙◌, ap, ◌⊎◌, inl, inr, Bool, Bool-cases, true,
  false, none, some, length, get_elem?, get_elem?_total, ◌==◌, arith,
}

-- `slave_r` has the one descriptor, and `slave_w` has none.
pub record Ready (slave_r slave_w : ℕ → Bool) (c : ℕ) : Type 0 where
  pub here : slave_r c ≡ true
  pub others : (m : ℕ) → m ≢ c → slave_r m ≡ false
  pub unwritten : (m : ℕ) → slave_w m ≡ false

-- The table covers a round, and its descriptor `c` waits to be read, with a callback for that.
pub record Waits (s : Selector) (c : ℕ) (it : Item) : Type 0 where
  pub valid : IsValid s
  pub covered : s.max_fd < length s.fds
  pub entry : get_elem? s.fds c ≡ some it
  pub own : it.fd ≡ some c
  pub reading : it.interest.reading ≡ true
  pub readable : it.handler.on_read ≡ true

module _ {W : Type 0} (host : Host W) (slave_r slave_w : ℕ → Bool) where
  -- A descriptor that is not ready is passed over.
  quiet_cases :
      (w : W) (i c : ℕ) (it : Item)
      → Ready slave_r slave_w c
      → i ≢ c
      → get_elem? (host.selector w).fds i ≡ some it
      → (it.fd ≡ none) ⊎ (it.fd ≡ some i) × (i ≤ (host.selector w).max_fd)
      → visit host slave_r slave_w i w ≡ some w
  unfolding visit visit_item serve
  quiet_cases w i c it r ne there (inl free) = ground (arith, there, free)
  quiet_cases w i c it r ne there (inr (own, _)) =
      ground (arith, there, own, r.others i ne, r.unwritten i)

  quiet_lem :
      (w : W) (i c : ℕ)
      → Ready slave_r slave_w c
      → IsValid (host.selector w)
      → i < length (host.selector w).fds
      → i ≢ c
      → visit host slave_r slave_w i w ≡ some w
  quiet_lem w i c r v low ne =
      let (it, there) = get_elem?_total (host.selector w).fds i low in
      quiet_cases w i c it r ne there ((v.entries i it there).own)

  -- So are all behind it.
  rest_lem :
      (w : W) (left i c : ℕ)
      → Ready slave_r slave_w c
      → IsValid (host.selector w)
      → left + i ≤ length (host.selector w).fds
      → c < i
      → visit_all host slave_r slave_w left i w ≡ some w
  unfolding visit_all
  rest_lem w zero i c r v low past = refl
  rest_lem w (suc left) i c r v low past =
      rw (quiet_lem w i c r v (omega (arith, low)) (λ e. omega (arith, e, past)))
        (rest_lem w left (i + 1) c r v (omega (arith, low)) (omega (arith, past)))

  -- The one that is ready is served.
  served_lem :
      (w w' : W) (c : ℕ) (it : Item)
      → Ready slave_r slave_w c
      → Waits (host.selector w) c it
      → host.callback readable it.handler c it.attachment w ≡ some w'
      → visit host slave_r slave_w c w ≡ some w'
  unfolding visit visit_item serve
  served_lem w w' c it r h called =
      ground (arith, h.entry, h.own, h.reading, h.readable, r.here, r.unwritten c, called)

  up_to_lem :
      (w w' : W) (left i c : ℕ) (it : Item)
      → Ready slave_r slave_w c
      → Waits (host.selector w) c it
      → IsValid (host.selector w')
      → length (host.selector w').fds ≡ length (host.selector w).fds
      → host.callback readable it.handler c it.attachment w ≡ some w'
      → left + i ≤ length (host.selector w).fds
      → i ≤ c
      → c < left + i
      → visit_all host slave_r slave_w left i w ≡ some w'
  unfolding visit_all
  up_to_lem w w' zero i c it r h v same called low before past =
      absurd (omega (arith, before, past))
  up_to_lem w w' (suc left) i c it r h v same called low before past = elim (Bool-cases (i == c)) [
    | inl here ↦
        (let e : i ≡ c = ground (arith, here) in
          rw (ap (λ n. visit host slave_r slave_w n w) e ∙ served_lem w w' c it r h called)
            (rest_lem w' left (i + 1) c r v (omega (arith, low, same)) (omega (arith, e))))
    | inr other ↦
        (let ne : i ≢ c = ground (arith, other) in
          rw (quiet_lem w i c r h.valid (omega (arith, low)) ne) (
            up_to_lem w w' left (i + 1) c it r h v same called (omega (arith, low))
              (omega (arith, before, ne)) (omega (arith, past))))
  ]

  -- A round in which one descriptor is ready, whose callback leaves a consistent table of the same size,
  -- is that callback.
  pub round_lem :
      (w w' : W) (c : ℕ) (it : Item)
      → Ready slave_r slave_w c
      → Waits (host.selector w) c it
      → IsValid (host.selector w')
      → length (host.selector w').fds ≡ length (host.selector w).fds
      → host.callback readable it.handler c it.attachment w ≡ some w'
      → handle_iteration host slave_r slave_w w ≡ some w'
  unfolding handle_iteration
  round_lem w w' c it r h v same called =
      let low : c ≤ (host.selector w).max_fd = elim ((h.valid.entries c it h.entry).own) [
        | inl free ↦ cc
        | inr (_, l) ↦ l
      ] in
      up_to_lem w w' _ 0 c it r h v same called (omega (arith, h.covered)) (omega arith)
        (omega (arith, low))
