-- ===== src/MyParser.antt =====
-- src/myParser.c and include/myParser.h: the parser that runs a list of sub-states, each a byte, a
-- length or a string of that length. An access outside an array and a use of NULL are `none`. The
-- `malloc`s of `parser_feed` are not checked there, and are taken to succeed; the memory that they
-- give is written before it is read, so that it holds 0 here.
pub mod Strings
pub mod Consume
use proyecto_protos.Buffer.{Buffer, can_read}
use proyecto_protos.Buffer.Drain.{drain}
use proyecto_protos.Bytes.{set_byte}
use proyecto_protos.Prelude.{
  ℕ, suc, ◌+◌, ◌-◌, ◌%◌, Bool, true, false, Option, none, some, List, [], ◌∷◌, get_elem?, set,
  replicate, leb, ◌==◌, if◌then◌else◌, ◌>>=◌, ◌>>◌, assert,
}

-- `enum parser_state`
pub data State : Type 0 where
  single_read read_n long_read done_read error_read : State

-- `check`: the answer, and what is then in `*error`. `none` is a read outside the array.
abbrev pub Check : Type 0
Check = List ℕ → ℕ → ℕ → Option (Bool × ℕ)

-- `struct parser_substate`; NULL is `none`. The sizes are `uint8_t`.
pub record Substate : Type 0 where
  pub state : State
  pub result : Option (List ℕ)
  pub check_function : Option Check
  pub size : ℕ
  pub remaining : ℕ

-- `struct parser`
pub record Parser : Type 0 where
  pub index : ℕ
  pub size : ℕ
  pub current : State
  pub states : List Substate
  pub error : ℕ

unfoldable pub init : Parser → Option Parser
init p = do s ← get_elem? p.states 0; some (record p { current = s.state; index = 0; error = 0 })

-- The step to the next sub-state that ends a string and a length of 0.
unfoldable pub advance : Parser → Option Parser
advance p =
    let i : ℕ = (p.index + 1) % 256 in
    let next : Option Parser = (do
      s ← get_elem? p.states i
      some (record p { index = i; current = s.state })) in
    if leb p.size i then some (record p { index = i; current = done_read }) else next

-- The same where a byte has been read: the next sub-state is fetched before the end is tested.
unfoldable pub advance_single : Parser → Option Parser
advance_single p = do
  let i : ℕ = (p.index + 1) % 256
  s ← get_elem? p.states i
  some (record p { index = i; current = if leb p.size i then done_read else s.state })

abbrev pub with_substate : Parser → Substate → Parser
with_substate p s = record p { states = set p.states p.index s }

-- case single_read
unfoldable pub feed_single : Parser → Substate → ℕ → Option Parser
feed_single p s b = do
  array ← s.result
  array' ← set_byte array 0 b
  let s' : Substate = record s { result = some array' }
  let p' : Parser = with_substate p s'
  elim s.check_function [
    | none ↦ advance_single p'
    | some check ↦ (do
      (ok, error') ← check array' 1 p.error
      let p'' : Parser = record p' { error = error' }
      let failed : Parser = with_substate p'' (record s' { state = error_read })
      let passed : Option Parser = advance_single p''
      if ok then passed else some failed)
  ]

-- case read_N, once the sub-state of the string is at hand.
unfoldable pub feed_size : Parser → Substate → ℕ → Option Parser
feed_size p s b =
    let s' : Substate = record s { remaining = b; size = b; result = some (replicate (suc b) 0) } in
    let p' : Parser = record (with_substate p s') { current = s.state } in
    let empty : Option Parser = advance p' in if b == 0 then empty else some p'

-- case read_N
unfoldable pub feed_n : Parser → ℕ → Option Parser
feed_n p b =
    let p' : Parser = record p { index = (p.index + 1) % 256 } in
    let size : Option Parser = (do s ← get_elem? p.states p'.index; feed_size p' s b) in
    if leb p.size p'.index then some (record p' { current = error_read }) else size

-- case long_read, after the last byte.
unfoldable pub finish_long : Parser → Substate → List ℕ → Option Parser
finish_long p s array = do
  array' ← set_byte array s.size 0
  let p' : Parser = with_substate p (record s { result = some array' })
  elim s.check_function [
    | none ↦ advance p'
    | some check ↦ (do
      (ok, error') ← check array' s.size p.error
      let p'' : Parser = record p' { error = error' }
      let passed : Option Parser = advance p''
      if ok then passed else some (record p'' { current = error_read }))
  ]

-- case long_read
unfoldable pub feed_long : Parser → Substate → ℕ → Option Parser
feed_long p s b = do
  array ← s.result
  assert (leb s.remaining s.size)
  array' ← set_byte array (s.size - s.remaining) b
  let s' : Substate = record s { result = some array'; remaining = (s.remaining + 255) % 256 }
  let last : Option Parser = finish_long p s' array'
  if s'.remaining == 0 then last else some (with_substate p s')

-- The `switch` of `parser_feed`.
unfoldable pub dispatch : State → Parser → Substate → ℕ → Option Parser
dispatch single_read p s b = feed_single p s b
dispatch read_n p s b = feed_n p b
dispatch long_read p s b = feed_long p s b
dispatch done_read p s b = some p
dispatch error_read p s b = some p

-- `parser_feed`: the sub-state is fetched first, whatever the state.
unfoldable pub feed : Parser → ℕ → Option Parser
unfolding dispatch
feed p b = do s ← get_elem? p.states p.index; dispatch p.current p s b

-- `is_done`: its result, and what it stores through `error`.
unfoldable pub is_done : State → Bool × Bool
is_done error_read = (true, true)
is_done done_read = (true, false)
is_done _ = (false, false)

-- A round of `consume`.
unfoldable pub consume_byte : Parser → ℕ → Option (Parser × Bool)
unfolding feed is_done
consume_byte p b = do p' ← feed p b; some (p', (is_done p'.current).0)

-- `consume`: its result is the state after the last byte, or the first sub-state's if none waits.
unfoldable pub consume : Buffer → Parser → Option (State × Parser × Buffer)
consume b p = do
  s ← get_elem? p.states 0
  (p', b') ← drain consume_byte (suc (b.write - b.read)) b p
  some (if can_read b then p'.current else s.state, p', b')
