-- ===== src/Stm/Run.antt =====
-- What the engine of src/stm.c guarantees to the connections that run on it.
use mathlib.Core.Path.{subst}
use native.Mathlib.Decide.{ℕ_discrete}
use proyecto_protos.Stm.{
  Event, StateDefinition, Machine, check_states, init, call_if_set, handle_first, jump, ready,
  call_ready, handler, state_of,
}
use proyecto_protos.Prelude.{
  ℕ, zero, suc, ◌+◌, ◌≤◌, ◌<◌, ◌≡◌, refl, ◌∙◌, some, List, get_elem?, ltb, leb, ◌==◌, Bool-cases,
  inl, inr, assert, assert-eq-some, >>=-eq-some, the_some, ap, ==_iff, sym, ltb→lt, leb→le, arith,
}

module _ {W : Type 0} where
  -- What `stm_init` checks, and where the machine stands.
  pub record IsValid (stm : Machine W) : Type 0 where
    pub numbered :
        (i : ℕ)
        → i ≤ stm.max_state
        → (d : StateDefinition W) × (get_elem? stm.states i ≡ some d) × (d.state ≡ i)
    pub start : stm.initial ≤ stm.max_state
    pub inside : (c : ℕ) → stm.current ≡ some c → c ≤ stm.max_state

  check_states_lem :
      (states : List (StateDefinition W)) (i left : ℕ)
      → check_states states i left ≡ some tt
      → (n : ℕ) → i ≤ n
      → n < i + left
      → (d : StateDefinition W) × (get_elem? states n ≡ some d) × (d.state ≡ n)
  unfolding check_states
  check_states_lem states i zero e n low high = absurd (omega arith)
  check_states_lem states i (suc left) e n low high =
      let (d, at, e1) = >>=-eq-some (get_elem? states i) _ e in
      let (u, same, e2) = >>=-eq-some (assert (i == d.state)) _ e1 in
      elim (ℕ_discrete n i) [
        | yes p ↦
            (d, rw p at, sym ((==_iff i d.state).0 (assert-eq-some (i == d.state) same)) ∙ sym p)
        | no ne ↦ check_states_lem states (i + 1) left e2 n (omega arith) (omega arith)
      ]

  -- A machine that `stm_init` accepts is valid.
  pub init-IsValid : (stm : Machine W) {stm' : Machine W} → init stm ≡ some stm' → IsValid stm'
  unfolding init
  init-IsValid stm {stm'} e =
      let (u, checked, e1) = >>=-eq-some (check_states stm.states 0 (stm.max_state + 1)) _ e in
      let (u', low, e2) = >>=-eq-some (assert (ltb stm.initial stm.max_state)) _ e1 in
      let l : stm.initial < stm.max_state = ltb→lt _ _ (assert-eq-some _ low) in
      subst IsValid (the_some e2) (record {
        numbered = λ i low'.
            check_states_lem stm.states 0 (stm.max_state + 1) checked i (omega arith) (omega arith);
        start = omega arith;
        inside = λ c h. cc;
      })

  pub jump_lem :
      (stm : Machine W) (c next : ℕ) (w : W) {stm' : Machine W} {w' : W}
      → IsValid stm
      → jump stm c next w ≡ some (stm', w')
      → (next ≤ stm.max_state) × (stm' ≡ record stm { current = some next })
  unfolding jump
  jump_lem stm c next w {stm'} {w'} v e =
      let (u, low, e1) = >>=-eq-some (assert (leb next stm.max_state)) _ e in
      let within : next ≤ stm.max_state = leb→le _ _ (assert-eq-some _ low) in
      elim (Bool-cases (c == next)) [
        | inl stays ↦ (within, ground (arith, e1))
        | inr moves ↦
            (let e2 = (rw moves at e1) in
              let (old, _, e3) = >>=-eq-some (get_elem? stm.states c) _ e2 in
              let (w1, _, e4) = >>=-eq-some (call_if_set old.on_departure old.state w) _ e3 in
              let (new, _, e5) = >>=-eq-some (get_elem? stm.states next) _ e4 in
              let (w2, _, e6) = >>=-eq-some (call_if_set new.on_arrival new.state w1) _ e5 in
              (within, ap (λ p. p.0) (sym (the_some e6))))
      ]

  -- The machine is valid and stands in the state `ret`.
  abbrev pub IsAt : Machine W → Machine W → ℕ → Type 0
  IsAt stm stm' ret =
      IsValid stm' × (ret ≤ stm.max_state) × (stm'.current ≡ some ret) × (state_of stm' ≡ some ret)

  stands_in :
      (stm : Machine W) (c : ℕ)
      → IsValid stm
      → c ≤ stm.max_state
      → IsAt stm (record stm { current = some c }) c
  unfolding state_of
  stands_in stm c v h =
      let (d, e, same) = v.numbered c h in
      (
        record { numbered = v.numbered; start = v.start; inside = λ k e'. rw (← the_some e') h },
        h,
        refl,
        rw e (ap some same),
      )

  -- A handler, of a machine that `stm_init` accepted or that an earlier handler left, leaves it in
  -- the state that the handler returns, one of the table.
  pub handler-IsValid :
      (e : Event) (stm : Machine W) (w : W) {ret : ℕ} {stm' : Machine W} {w' : W}
      → IsValid stm
      → handler e stm w ≡ some (ret, stm', w')
      → IsAt stm stm' ret
  unfolding handler state_of
  handler-IsValid e stm w {ret} {stm'} {w'} v h =
      let (first, _, h1) = >>=-eq-some (handle_first stm w) _ h in
      let (d, _, h2) = >>=-eq-some (get_elem? stm.states first.0) _ h1 in
      let (answer, _, h3) = >>=-eq-some (call_ready (ready e d) first.1) _ h2 in
      let (after, jumped, h4) = >>=-eq-some (jump stm first.0 answer.0 answer.1) _ h3 in
      let (within, there) = jump_lem stm first.0 answer.0 answer.1 v jumped in
      subst (λ m. IsAt stm m ret) (sym there ∙ ap (λ p. p.1) (the_some h4))
        (subst (IsAt stm (record stm { current = some answer.0 })) (ap (λ p. p.0) (the_some h4))
          (stands_in stm answer.0 v within))
