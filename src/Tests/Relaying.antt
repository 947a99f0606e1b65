-- ===== src/Tests/Relaying.antt =====
-- Passing bytes between a client and its origin.
use proyecto_protos.Buffer.Valid.{filled}
use proyecto_protos.Connection.{Key}
use proyecto_protos.Copy.{Pair, CopySt, client, origin, rb, with_rb, compute_interests}
use proyecto_protos.Dissector.{Dissector, user_word_search}
use proyecto_protos.Selector.{Selector, Item, no_handler, op_noop}
use proyecto_protos.SocksState
use proyecto_protos.Tests.Fixtures.{connection}
use proyecto_protos.Prelude.{[], ◌∷◌, true, false, Option, none, some, pos}

abbrev both : Item
both = record { fd = some 0; interest = op_noop; handler = no_handler; attachment = 1 }

abbrev two : Selector
two = record {
  allocated = true;
  fds = both ∷ record both { fd = some 1 } ∷ [];
  fd_size = 2;
  max_fd = 1;
  master_r = λ n. false;
  master_w = λ n. false;
  resolution_jobs = [];
}

abbrev relay_key : Key
relay_key = record { fd = pos 0; selector = two; conn = record connection { origin_fd = pos 1 } }

abbrev open_half : CopySt
open_half = record { fd = pos 0; interest = record { reading = true; writing = true } }

abbrev pair : Pair
pair = record {
  client = open_half;
  origin = record open_half { fd = pos 1 };
  dissector = record {
    current = user_word_search;
    current_index = 0;
    last = false;
    username = none;
    password = none;
    printed = [];
  };
  closed = [];
}

abbrev the_key : Option Key → Key
the_key none = relay_key
the_key (some k) = k

abbrev full : Key
full = with_rb client relay_key (filled (rb client relay_key) (104 ∷ 105 ∷ []))

abbrev asked_once : Option Key
asked_once = compute_interests full pair.client client

abbrev asked_twice : Option Key
asked_twice = compute_interests (the_key asked_once) pair.origin origin
