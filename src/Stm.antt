-- ===== src/Stm.antt =====
-- src/stm.c and include/stm.h: the engine of the state machines, over any table of states.
-- `abort`, and a state outside the table, are `none`.
pub mod Run
use proyecto_protos.Prelude.{
  ℕ, zero, suc, ◌+◌, Bool, true, false, Option, none, some, List, get_elem?, ltb, leb, ◌==◌,
  if◌then◌else◌, ◌>>=◌, ◌>>◌, assert,
}

-- The events that the selector hands to a connection.
pub data Event : Type 0 where
  readable writable resolved : Event

-- `struct state_definition`. `W` is what the callbacks reach through their key; a NULL callback is
-- `none`.
pub record StateDefinition (W : Type 0) : Type 0 where
  pub state : ℕ
  pub on_arrival : Option (ℕ → W → Option W)
  pub on_departure : Option (ℕ → W → Option W)
  pub on_read_ready : Option (W → Option (ℕ × W))
  pub on_write_ready : Option (W → Option (ℕ × W))
  pub on_block_ready : Option (W → Option (ℕ × W))

-- `struct state_machine`. `current` is an index of `states`, or NULL.
pub record Machine (W : Type 0) : Type 0 where
  pub initial : ℕ
  pub states : List (StateDefinition W)
  pub max_state : ℕ
  pub current : Option ℕ

module _ {W : Type 0} where
  -- The loop of `stm_init`, from state `i` on for so many states.
  unfoldable pub check_states : List (StateDefinition W) → ℕ → ℕ → Option (Unit {0})
  check_states states i zero = some tt
  check_states states i (suc left) = do
    d ← get_elem? states i
    assert (i == d.state)
    check_states states (i + 1) left

  unfoldable pub init : Machine W → Option (Machine W)
  unfolding check_states
  init stm = do
    check_states stm.states 0 (stm.max_state + 1)
    assert (ltb stm.initial stm.max_state)
    some (record stm { current = none })

  -- A callback that may be NULL.
  unfoldable pub call_if_set : Option (ℕ → W → Option W) → ℕ → W → Option W
  call_if_set none state w = some w
  call_if_set (some f) state w = f state w

  -- `handle_first`: the current state, entered now if there is none yet.
  unfoldable pub handle_first : Machine W → W → Option (ℕ × W)
  unfolding call_if_set
  handle_first stm w = elim stm.current [
    | some c ↦ some (c, w)
    | none ↦ (do
      d ← get_elem? stm.states stm.initial
      w' ← call_if_set d.on_arrival d.state w
      some (stm.initial, w'))
  ]

  -- `jump` from the state `c`.
  unfoldable pub jump : Machine W → ℕ → ℕ → W → Option (Machine W × W)
  unfolding call_if_set
  jump stm c next w = do
    assert (leb next stm.max_state)
    let stay : Option (Machine W × W) = some (record stm { current = some c }, w)
    let move : Option (Machine W × W) = (do
      old ← get_elem? stm.states c
      w' ← call_if_set old.on_departure old.state w
      new ← get_elem? stm.states next
      w'' ← call_if_set new.on_arrival new.state w'
      some (record stm { current = some next }, w''))
    if c == next then stay else move

  -- The callback for an event.
  abbrev pub ready : Event → StateDefinition W → Option (W → Option (ℕ × W))
  ready readable d = d.on_read_ready
  ready writable d = d.on_write_ready
  ready resolved d = d.on_block_ready

  -- A callback that must not be NULL.
  unfoldable pub call_ready : Option (W → Option (ℕ × W)) → W → Option (ℕ × W)
  call_ready none w = none
  call_ready (some f) w = f w

  -- `stm_handler_read`, `stm_handler_write` and `stm_handler_block`, which differ in the callback.
  unfoldable pub handler : Event → Machine W → W → Option (ℕ × Machine W × W)
  unfolding handle_first jump call_ready
  handler e stm w = do
    (c, w1) ← handle_first stm w
    d ← get_elem? stm.states c
    (ret, w2) ← call_ready (ready e d) w1
    (stm', w3) ← jump stm c ret w2
    some (ret, stm', w3)

  unfoldable pub handler_close : Machine W → W → Option W
  unfolding call_if_set
  handler_close stm w = elim stm.current [
    | none ↦ some w
    | some c ↦ (do d ← get_elem? stm.states c; call_if_set d.on_departure d.state w)
  ]

  -- `stm_state`
  unfoldable pub state_of : Machine W → Option ℕ
  state_of stm = elim stm.current [
    | none ↦ some stm.initial
    | some c ↦ (do d ← get_elem? stm.states c; some d.state)
  ]
