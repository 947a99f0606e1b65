-- ===== src/Tests/Resolving.antt =====
-- A name that is resolved, and one that is not.
use proyecto_protos.Buffer.{contents}
use proyecto_protos.Connecting.{OriginSt, Resolved, in_progress, init, connection, subscribe}
use proyecto_protos.Connecting.Outcome.{reply_bytes}
use proyecto_protos.Connection.{Key}
use proyecto_protos.Proxy.{World, connecting_init}
use proyecto_protos.Proxy.Negotiation.{standing_in}
use proyecto_protos.Proxy.Resolving.{
  alone, Asked, chosen, served, service, name_resolved, name_unknown,
}
use proyecto_protos.Request.{inet, general_socks_server_failure}
use proyecto_protos.Resolver.{digits, resolv_blocking}
use proyecto_protos.Selector.{unused_item, op_write, register, set_interest}
use proyecto_protos.Selector.Loop.{handle_block_notifications}
use proyecto_protos.Selector.Open.{IsOpen}
use proyecto_protos.SocksState
use proyecto_protos.Tests.Fixtures.{empty_buffer-IsValid}
use proyecto_protos.Tests.Lifetimes.{held, held-IsOpen, answers, world, table}
use proyecto_protos.Tests.Reaching.{memory, towards}
use proyecto_protos.Users.Lookup.{until_zero}
use proyecto_protos.Prelude.{
  Bool, ◌&&◌, ◌==◌, if◌then◌else◌, false, ℕ, ◌≡◌, refl, List, [], ◌∷◌, ◌++◌, true, Option, some,
  none, arith,
}

-- A connection that asked for the port 80 of the host "a.b".
abbrev asking : World
asking = record (world 2 (table unused_item)) {
  origin = record (towards []) {
    request = record ((towards []).request) {
      parser = record ((towards []).request.parser) {
        request = record memory {
          address = 97 ∷ 46 ∷ 98 ∷ 0 ∷ [];
          fqdn_size = 3;
          dest_port_bytes = 0 ∷ 80 ∷ [];
        };
      };
    };
  };
  answers = record answers { connect = in_progress };
}

asking-Asked : Asked asking 0 held (97 ∷ 46 ∷ 98 ∷ []) (0 ∷ []) 0 80
asking-Asked = record {
  own = refl;
  opens = held-IsOpen unused_item;
  entry = refl;
  blocks = refl;
  idle = refl;
  host = refl;
  size = refl;
  port = refl;
}

-- The address 10.0.0.1, at the port that the service "80" names.
abbrev here : Resolved
here = record { family = some inet; address = 10 ∷ 0 ∷ 0 ∷ 1 ∷ []; port = 0 ∷ 80 ∷ [] }

abbrev same : List ℕ → List ℕ → Bool
same [] [] = true
same [] (y ∷ ys) = false
same (x ∷ xs) [] = false
same (x ∷ xs) (y ∷ ys) = x == y && same xs ys

-- A server of names that knows the one host, for that service.
abbrev directory : List ℕ → List ℕ → List Resolved
directory name port =
    if same name (97 ∷ 46 ∷ 98 ∷ []) && same port (56 ∷ 48 ∷ []) then here ∷ [] else []

found : directory (until_zero (97 ∷ 46 ∷ 98 ∷ [])) (service 0 80) ≡ here ∷ []
unfolding digits
found = refl

abbrev the_world : Option World → World
the_world none = asking
the_world (some w) = w

abbrev arriving : Option World
arriving = connecting_init SocksState.request_connecting (chosen asking 0 here [])

arrived : arriving ≡ some (the_world arriving)
unfolding connecting_init init connection subscribe set_interest register
arrived = refl

name_resolved_example :
    (k : Key) × (o : OriginSt) × (resolv_blocking directory true asking.key asking.origin
      ≡ some (k, o))
    × (handle_block_notifications alone
          (standing_in SocksState.request_resolv, record asking { key = k; origin = o })
        ≡ some (standing_in SocksState.request_connecting, served (the_world arriving)))
name_resolved_example =
    name_resolved directory asking 0 held (97 ∷ 46 ∷ 98 ∷ []) (0 ∷ []) 0 80 here []
      (the_world arriving) asking-Asked found arrived

-- A server of names that knows none.
abbrev nowhere : List ℕ → List ℕ → List Resolved
nowhere name port = []

name_unknown_example :
    (k : Key) × (o : OriginSt) × (w' : World) × (resolv_blocking nowhere true asking.key
        asking.origin
      ≡ some (k, o))
    × (handle_block_notifications alone
          (standing_in SocksState.request_resolv, record asking { key = k; origin = o })
        ≡ some (standing_in SocksState.request_write, w'))
    × (contents w'.key.conn.write_buffer
        ≡ contents asking.key.conn.write_buffer ++ reply_bytes general_socks_server_failure)
    × IsOpen w'.key.selector 0 (record held { interest = op_write })
    × (w'.key.selector.resolution_jobs ≡ [])
name_unknown_example =
    name_unknown nowhere asking 0 held (97 ∷ 46 ∷ 98 ∷ []) (0 ∷ []) 0 80 asking-Asked refl
      empty_buffer-IsValid (omega arith)
