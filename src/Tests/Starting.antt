-- ===== src/Tests/Starting.antt =====
-- The options of a start, the sockets that it registers, and a loop that sends all it has.
use proyecto_protos.Args.{
  Library, Args, Opt, socks_port, no_disectors, user, port, split_at, user_of, set_port, take_user,
  parse_option, parse_options, address_processing, set_default, default_args, parse_args,
}
use proyecto_protos.Args.Options.{Given, InRange, options_taken}
use proyecto_protos.Buffer.{Buffer, contents, can_read}
use proyecto_protos.Buffer.Valid.{filled, filled-IsValid}
use proyecto_protos.Netutils.{blocking_write}
use proyecto_protos.Netutils.Sending.{all_sent}
use proyecto_protos.Selector.{Selector}
use proyecto_protos.Server.{Masters, start}
use proyecto_protos.Server.Start.{Listens, can_listen, among, added, added_one, all_listen}
use proyecto_protos.Socket.{accepts}
use proyecto_protos.Users.{User, Users}
use proyecto_protos.Users.Table.{Holds}
use proyecto_protos.Tests.Fixtures.{
  empty_buffer, empty_buffer-IsValid, ana, beto, two_users, two_users-Holds,
}
use proyecto_protos.Prelude.{
  ◌≡◌, refl, true, false, Option, none, some, List, [], ◌∷◌, ◌++◌, pos, arith,
}

-- Every number is 1081 and every text an address.
abbrev library : Library
library = record {
  strtol =
      λ s. record { value = pos 1081; no_digits = false; unfinished = false; out_of_range = false };
  inet_pton = λ f s. some (127 ∷ 0 ∷ 0 ∷ 1 ∷ []);
  inet_addr = λ s. 127 ∷ 0 ∷ 0 ∷ 1 ∷ [];
}

abbrev options : List Opt
options = socks_port (49 ∷ 48 ∷ 56 ∷ 49 ∷ []) ∷ user (99 ∷ 58 ∷ 51 ∷ []) ∷ no_disectors ∷ []

abbrev the_result : Option (Args × Users) → Args × Users
the_result none = (default_args, two_users)
the_result (some x) = x

abbrev parsed : Option (Args × Users)
parsed = parse_args library options false two_users

accepted : parsed ≡ some ((the_result parsed).0, (the_result parsed).1)
unfolding parse_args parse_options parse_option set_port port take_user user_of split_at set_default
    address_processing
accepted = refl

options_taken_example :
    (news : List User) × Given options news
    × Holds ((the_result parsed).1) ((ana ∷ beto ∷ []) ++ news)
    × InRange ((the_result parsed).0)
options_taken_example =
    options_taken library options false two_users (ana ∷ beto ∷ []) two_users-Holds accepted

abbrev three_bytes : Buffer
three_bytes = filled empty_buffer (1 ∷ 2 ∷ 3 ∷ [])

waiting : can_read three_bytes ≡ true
unfolding can_read
waiting = refl

all_sent_example :
    (b' : Buffer) × (blocking_write 3 (λ i. accepts 2) three_bytes
      ≡ some (true, b', contents three_bytes))
    × (contents b' ≡ [])
all_sent_example =
    all_sent 3 (λ i. accepts 2) three_bytes
      (filled-IsValid empty_buffer (1 ∷ 2 ∷ 3 ∷ []) empty_buffer-IsValid (omega arith)) waiting
      (omega arith) (λ i. (1, refl))

abbrev socks_masters : Masters
socks_masters = record { socket = some 3; socket6 = some 4 }

abbrev mng_masters : Masters
mng_masters = record { socket = some 5; socket6 = some 6 }

different : can_listen (added mng_masters (added socks_masters [])) ≡ true
unfolding can_listen among added added_one
different = refl

all_listen_example :
    (s : Selector) × (start socks_masters mng_masters true ≡ some s)
    × Listens s (added mng_masters (added socks_masters []))
all_listen_example = all_listen socks_masters mng_masters different
