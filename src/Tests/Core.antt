-- ===== src/Tests/Core.antt =====
-- The buffer, the selector, the engine and the table of users.
use proyecto_protos.Bytes.{set_byte}
use proyecto_protos.Dissector.{
  Dissector, user_word_search, dispatch, feed, consume, restart, check_size, store_char,
  user_read_reset, pass_read_reset, is_ascii, user_read_handler, pass_read_handler,
  pass_word_search_handler, user_word_search_handler,
}
use proyecto_protos.Dissector
use proyecto_protos.Dissector.Safety.{IsSafe, consume_total}
use proyecto_protos.Selector.{
  Selector, Item, success, iargs, fdinuse, next_capacity, register, unregister_fd, used,
  unused_item, no_handler, op_read, items_max_size,
}
use proyecto_protos.Selector.Capacity.{next_capacity_bounds}
use proyecto_protos.Selector.Table.{set_interest-IsValid}
use proyecto_protos.Selector.Table
use proyecto_protos.Selector.Register.{registered, register_lem, unregister_fd_lem}
use proyecto_protos.Stm.{
  Machine, StateDefinition, readable, handler, init, check_states, call_ready, jump, handle_first,
  call_if_set, state_of,
}
use proyecto_protos.Stm.Run.{IsAt, init-IsValid, handler-IsValid}
use proyecto_protos.Stm.Run
use proyecto_protos.Tests.Fixtures.{
  empty_buffer, empty_buffer-IsValid, blank, blank-IsValid, busy, busy-IsValid, two_users,
  two_users-Holds, ana, beto,
}
use proyecto_protos.Trace.{Call, receive, send, squeeze, Flow, run, Conserves, run-Conserves}
use proyecto_protos.Users.{User, Users, cstr, delete_user, check_credentials}
use proyecto_protos.Users.Table.{Holds}
use proyecto_protos.Users.Delete.{remove_first, delete_user_lem}
use proyecto_protos.Users.Lookup.{Absent, check_credentials_lem}
use proyecto_protos.Prelude.{
  ℕ, ◌+◌, ◌*◌, ◌≤◌, ◌<◌, ◌≡◌, refl, ◌⊎◌, List, [], ◌∷◌, true, false, none, some, get_elem?, pos,
  if◌then◌else◌, arith,
}

some_calls : List Call
some_calls = receive (1 ∷ 2 ∷ 3 ∷ []) ∷ send 2 ∷ squeeze ∷ receive (4 ∷ []) ∷ send 9 ∷ []

run-Conserves_example :
    (f' : Flow) × (run (empty_buffer, [], []) some_calls ≡ some f') × Conserves f'
run-Conserves_example =
    run-Conserves (empty_buffer, [], []) some_calls
      (record { valid = empty_buffer-IsValid; balance = refl })

abbrev watched : ℕ
watched = 500

next_capacity_bounds_example :
    (c : ℕ) × (next_capacity watched ≡ some c)
    × (watched < c)
    × (c ≤ items_max_size + 1)
    × ((watched ≡ 0) ⊎ (c ≤ 2 * watched + 1))
next_capacity_bounds_example = next_capacity_bounds watched (omega arith)

register_lem_example :
    (it : Item) × (get_elem? (blank 1024).fds 3 ≡ some it)
    × ((used it ≡ false)
          × (register (blank 1024) (pos 3) no_handler op_read 5 true
              ≡ some (success, registered (blank 1024) 3 no_handler op_read 5))
          × (get_elem? (registered (blank 1024) 3 no_handler op_read 5).fds 3
              ≡ some (record {
                fd = some 3;
                interest = op_read;
                handler = no_handler;
                attachment = 5;
              }))
          × Table.IsValid (registered (blank 1024) 3 no_handler op_read 5)
        ⊎ (used it ≡ true)
          × (register (blank 1024) (pos 3) no_handler op_read 5 true ≡ some (fdinuse, blank 1024)))
register_lem_example =
    register_lem (blank 1024) 3 no_handler op_read 5 true (blank-IsValid 1024) (omega arith)
      (omega arith)

unregister_fd_lem_example :
    (it : Item) × (get_elem? busy.fds 0 ≡ some it)
    × (((s' : Selector) × (used it ≡ true)
          × (unregister_fd busy (pos 0)
              ≡ some (success, s', if it.handler.on_close then some it.attachment else none))
          × (get_elem? s'.fds 0 ≡ some unused_item)
          × (s'.master_r 0 ≡ false)
          × (s'.master_w 0 ≡ false)
          × Table.IsValid s')
        ⊎ (used it ≡ false) × (unregister_fd busy (pos 0) ≡ some (iargs, busy, none)))
unregister_fd_lem_example = unregister_fd_lem busy 0 busy-IsValid (omega arith) (omega arith)

-- Two states; the first counts in the world and goes to the second.
abbrev first : StateDefinition ℕ
first = record {
  state = 0;
  on_arrival = none;
  on_departure = some (λ s w. some (w + 10));
  on_read_ready = some (λ w. some (1, w + 1));
  on_write_ready = none;
  on_block_ready = none;
}

abbrev second : StateDefinition ℕ
second = record {
  state = 1;
  on_arrival = none;
  on_departure = none;
  on_read_ready = none;
  on_write_ready = none;
  on_block_ready = none;
}

abbrev machine : Machine ℕ
machine = record { initial = 0; states = first ∷ second ∷ []; max_state = 1; current = none }

accepted : init machine ≡ some machine
unfolding init check_states
accepted = refl

machine-IsValid : Run.IsValid machine
machine-IsValid = init-IsValid machine accepted

moves : handler readable machine 0 ≡ some (1, record machine { current = some 1 }, 11)
unfolding handler call_ready jump handle_first call_if_set state_of
moves = refl

handler-IsValid_example : IsAt machine (record machine { current = some 1 }) 1
handler-IsValid_example = handler-IsValid readable machine 0 machine-IsValid moves

text_c : cstr (99 ∷ 0 ∷ []) ≡ some (99 ∷ [])
unfolding cstr
text_c = refl

text_a : cstr (97 ∷ 0 ∷ []) ≡ some (97 ∷ [])
unfolding cstr
text_a = refl

text_1 : cstr (49 ∷ 0 ∷ []) ≡ some (49 ∷ [])
unfolding cstr
text_1 = refl

delete_user_lem_example :
    (t' : Users) × (delete_user two_users (97 ∷ 0 ∷ []) ≡ some t')
    × Holds t' (remove_first (97 ∷ []) (ana ∷ beto ∷ []))
delete_user_lem_example =
    delete_user_lem two_users (ana ∷ beto ∷ []) (97 ∷ 0 ∷ []) two_users-Holds text_a

check_credentials_lem_example :
    ((n : ℕ) × (u : User) × (check_credentials two_users (97 ∷ 0 ∷ []) (49 ∷ 0 ∷ []) 3
        ≡ some (0x00, n))
      × (get_elem? (ana ∷ beto ∷ []) n ≡ some u)
      × (u.name ≡ 97 ∷ [])
      × (u.pass ≡ 49 ∷ []))
    ⊎ (check_credentials two_users (97 ∷ 0 ∷ []) (49 ∷ 0 ∷ []) 3 ≡ some (0x01, 3))
      × Absent (97 ∷ []) (49 ∷ []) (ana ∷ beto ∷ [])
check_credentials_lem_example =
    check_credentials_lem two_users (ana ∷ beto ∷ []) (97 ∷ 0 ∷ []) (49 ∷ 0 ∷ []) 3 two_users-Holds
      text_a text_1

abbrev dissector : Dissector
dissector = record {
  current = user_word_search;
  current_index = 0;
  last = false;
  username = none;
  password = none;
  printed = [];
}

-- "user a\r\n+OK\r\npass b\r\n"
abbrev login : List ℕ
login =
    0x75 ∷ 0x73 ∷ 0x65 ∷ 0x72 ∷ 0x20 ∷ 97 ∷ 0x0D ∷ 0x0A ∷ 0x2B ∷ 0x4F ∷ 0x4B ∷ 0x0D ∷ 0x0A ∷ 0x70
    ∷ 0x61 ∷ 0x73 ∷ 0x73 ∷ 0x20 ∷ 98 ∷ 0x0D ∷ 0x0A ∷ []

login_printed :
    consume (some ana.name) login (Dissector.init dissector)
    ≡ some (record dissector { printed = (ana.name, 97 ∷ [], 98 ∷ []) ∷ [] })
unfolding consume Dissector.init feed dispatch restart check_size store_char set_byte cstr
    user_read_reset pass_read_reset is_ascii user_read_handler pass_read_handler
    pass_word_search_handler user_word_search_handler
login_printed = refl

consume_total_example :
    (d' : Dissector) × (consume (some ana.name) login (Dissector.init dissector) ≡ some d')
    × IsSafe d'
consume_total_example = consume_total ana.name dissector login
