-- ===== src/Tests/Ending.antt =====
-- The end of the server, with one connection that has both of its descriptors.
use proyecto_protos.Selector.{Item, used, success, items_max_size}
use proyecto_protos.Selector.Ending.{told}
use proyecto_protos.Server.{Masters}
use proyecto_protos.Server.Finish.{TwoPools, Finished, finish}
use proyecto_protos.Server.Balance.{count, IsBalanced, given_back_once}
use proyecto_protos.Tests.Lifetimes.{far, table}
use proyecto_protos.Prelude.{
  ℕ, ◌<◌, ◌≡◌, refl, true, false, some, none, [], get_elem?, get_elem?_within, min, arith,
}

abbrev pools : TwoPools
pools = record {
  socks = record { objects = []; size = 0 };
  mng = record { objects = []; size = 0 };
}

abbrev masters : Masters
masters = record { socket = some 3; socket6 = none }

-- The connection is the object 1, with two references.
balanced : IsBalanced (λ x. 2) (told (table far).fds)
unfolding used
balanced y some_left = ground (arith, some_left)

watchable :
    (n : ℕ) (it : Item)
    → get_elem? (table far).fds n ≡ some it
    → used it ≡ true
    → n < items_max_size
watchable n it at busy = omega (arith, get_elem?_within (table far).fds n at)

given_back_once_example :
    (e : Finished) × (finish success true (some (table far)) (λ x. false) (λ x. 2) pools masters
      ≡ some e)
    × ((y : ℕ) → count y e.given ≡ min 1 (count y (told (table far).fds)))
given_back_once_example =
    given_back_once success true (table far) (λ x. false) (λ x. 2) pools masters refl refl watchable
      balanced
