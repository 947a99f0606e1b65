-- ===== src/Tests/Looping.antt =====
-- A call of `selector_select` with a connection whose client greets.
use proyecto_protos.Buffer.{contents}
use proyecto_protos.Hello.{socks_version}
use proyecto_protos.Hello.Message.{chosen}
use proyecto_protos.Proxy.{World}
use proyecto_protos.Proxy.Negotiation.{Greeted, standing, standing_in}
use proyecto_protos.Proxy.Resolving.{alone}
use proyecto_protos.Proxy.Serving.{hello_served}
use proyecto_protos.Selector.{Selector, Item, op_read, op_write, success, unused_item, used}
use proyecto_protos.Selector.Iteration.{Ready, Waits}
use proyecto_protos.Selector.Loop.{ready, select}
use proyecto_protos.Selector.Open.{IsOpen}
use proyecto_protos.Selector.Table.{IsValid, Entry}
use proyecto_protos.SocksState
use proyecto_protos.Tests.Fixtures.{empty_buffer-IsValid, globals}
use proyecto_protos.Tests.Lifetimes.{held, greeted}
use mathlib.Core.Path.{subst}
use proyecto_protos.Prelude.{
  ℕ, zero, suc, ◌≡◌, refl, inl, inr, [], ◌∷◌, ◌++◌, true, false, get_elem?, some, ◌==◌, the_some,
  arith,
}

-- The client's descriptor, which waits to be read, and a free entry.
abbrev reading : Item
reading = record held { interest = op_read }

abbrev table : Selector
table = record {
  allocated = true;
  fds = reading ∷ unused_item ∷ [];
  fd_size = 2;
  max_fd = 0;
  master_r = λ n. n == 0;
  master_w = λ n. false;
  resolution_jobs = [];
}

abbrev arriving : World
arriving = record greeted { key = record (greeted.key) { selector = table } }

entries :
    (n : ℕ) (i : Item) → get_elem? table.fds n ≡ some i → Entry 0 (λ m. m == 0) (λ m. false) n i
unfolding used
entries zero i e =
    subst (Entry 0 (λ m. m == 0) (λ m. false) 0) (the_some e)
      (record { own = inr (refl, omega arith); watch_r = refl; watch_w = refl })
entries (suc zero) i e =
    subst (Entry 0 (λ m. m == 0) (λ m. false) 1) (the_some e)
      (record { own = inl refl; watch_r = refl; watch_w = refl })
entries (suc (suc n)) i e = cc

table-IsValid : IsValid table
table-IsValid = record { size = refl; entries = entries }

arriving-Waits : Waits table 0 reading
arriving-Waits = record {
  valid = table-IsValid;
  covered = omega arith;
  entry = refl;
  own = refl;
  reading = refl;
  readable = refl;
}

arriving-IsOpen : IsOpen table 0 reading
unfolding used
arriving-IsOpen = record { watchable = omega arith; entry = refl; busy = refl }

arriving-Greeted : Greeted arriving 0 reading (0 ∷ 2 ∷ []) []
arriving-Greeted = record {
  socks = refl;
  memory = refl;
  own = refl;
  opens = arriving-IsOpen;
  reading = empty_buffer-IsValid;
  drained = refl;
  writing = empty_buffer-IsValid;
  room = omega arith;
  few = omega arith;
  fits = omega arith;
  hello = refl;
}

only_first : Ready (λ n. n == 0) (λ n. false) 0
only_first = record { here = refl; others = λ m ne. ground (arith, ne); unwritten = λ m. refl }

hello_served_example :
    (w' : World) × (select alone (standing, arriving) (ready (λ n. n == 0) (λ n. false))
      ≡ some (success, (standing_in SocksState.hello_write, w')))
    × (w'.hello.method ≡ chosen globals.auth_method 0xFF (0 ∷ 2 ∷ []))
    × (contents w'.key.conn.write_buffer
        ≡ contents arriving.key.conn.write_buffer
          ++ (socks_version ∷ chosen globals.auth_method 0xFF (0 ∷ 2 ∷ []) ∷ []))
    × (contents w'.key.conn.read_buffer ≡ [])
    × IsOpen w'.key.selector 0 (record reading { interest = op_write })
    × IsValid w'.key.selector
hello_served_example =
    hello_served arriving 0 reading (0 ∷ 2 ∷ []) [] (λ n. n == 0) (λ n. false) arriving-Greeted
      arriving-Waits only_first refl
