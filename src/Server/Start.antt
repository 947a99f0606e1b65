-- ===== src/Server/Start.antt =====
-- The start of src/main.c: which sockets the selector holds after it.
use native.Mathlib.Decide.{ℕ_discrete}
use proyecto_protos.Selector.{
  Selector, Item, op_read, unused_item, used, items_max_size, new, update_fdset, next_capacity,
  ensure_capacity,
}
use proyecto_protos.Selector.Register.{registered}
use proyecto_protos.Selector.Open.{
  IsOpen, IsFree, register_free, registered-IsOpen, registered-IsOpen_other,
}
use proyecto_protos.Server.{
  Masters, accepting, initial_elements, register_one, register_masters, start,
}
use proyecto_protos.Prelude.{
  ℕ, zero, suc, ◌<◌, ◌≡◌, ◌≢◌, refl, ◌∙◌, sym, Bool, true, false, Option, none, some, List, [], ◌∷◌,
  replicate, get_elem?, get_elem?-set_ne, ltb, ◌==◌, if◌then◌else◌, arith,
}

-- The number is in the list.
unfoldable pub among : ℕ → List ℕ → Bool
among n [] = false
among n (m ∷ ms) = if n == m then true else among n ms

-- Descriptors that `select` can watch, all different.
unfoldable pub can_listen : List ℕ → Bool
can_listen [] = true
can_listen (n ∷ ns) =
    if among n ns then false else if ltb n items_max_size then can_listen ns else false

-- The descriptors of the sockets of a service, in front of others.
unfoldable pub added_one : Option ℕ → List ℕ → List ℕ
added_one none ns = ns
added_one (some n) ns = n ∷ ns

unfoldable pub added : Masters → List ℕ → List ℕ
added m ns = added_one m.socket (added_one m.socket6 ns)

-- The entry of a socket that listens.
abbrev pub listening_item : ℕ → Item
listening_item n = record { fd = some n; interest = op_read; handler = accepting; attachment = 0 }

-- The table has the sockets of the list, and nothing else.
pub record Listens (s : Selector) (ns : List ℕ) : Type 0 where
  pub opened : (n : ℕ) → among n ns ≡ true → IsOpen s n (listening_item n)
  pub others : (n : ℕ) → n < items_max_size → among n ns ≡ false → IsFree s n unused_item

get_elem?-replicate : (k n : ℕ) → n < k → get_elem? (replicate k unused_item) n ≡ some unused_item
get_elem?-replicate zero n l = absurd (omega (arith, l))
get_elem?-replicate (suc k) zero l = refl
get_elem?-replicate (suc k) (suc n) l = get_elem?-replicate k n (omega (arith, l))

abbrev fresh : Selector
fresh = record {
  allocated = true;
  fds = replicate 1025 unused_item;
  fd_size = 1025;
  max_fd = 0;
  master_r = λ n. false;
  master_w = λ n. false;
  resolution_jobs = [];
}

new-fresh : new initial_elements true ≡ some (some fresh)
unfolding new ensure_capacity next_capacity
new-fresh = refl

fresh-Listens : Listens fresh []
unfolding among used
fresh-Listens = record {
  opened = λ n e. ground (arith, e);
  others = λ n l e. record {
    watchable = l;
    inside = omega (arith, l);
    entry = get_elem?-replicate 1025 n (omega (arith, l));
    idle = refl;
  };
}

registered-IsFree_other :
    {s : Selector} {n m : ℕ} {jt : Item}
    → n ≢ m
    → IsFree s m jt
    → IsFree (registered s n accepting op_read 0) m jt
unfolding update_fdset
registered-IsFree_other {s} {n} {m} ne o = record {
  watchable = o.watchable;
  inside = o.inside;
  entry = get_elem?-set_ne s.fds n m _ ne ∙ o.entry;
  idle = o.idle;
}

register-Listens :
    (s : Selector) (n : ℕ) (ns : List ℕ)
    → n < items_max_size
    → among n ns ≡ false
    → Listens s ns
    → Listens (registered s n accepting op_read 0) (n ∷ ns)
unfolding among
register-Listens s n ns l new v = record {
  opened = λ m e. elim (ℕ_discrete n m) [
    | yes p ↦ rw (sym p) (registered-IsOpen accepting op_read 0 (v.others n l new))
    | no ne ↦ registered-IsOpen_other accepting op_read 0 ne (v.opened m (ground (arith, ne, e)))
  ];
  others = λ m k e. registered-IsFree_other (ground (arith, e)) (v.others m k (ground (arith, e)));
}

-- A list that may listen has a rest that may, and a first that is new.
can_listen-tail :
    (n : ℕ) (ns : List ℕ)
    → can_listen (n ∷ ns) ≡ true
    → (n < items_max_size) × (among n ns ≡ false) × (can_listen ns ≡ true)
unfolding can_listen
can_listen-tail n ns h = ground (arith, h)

can_listen-added_one :
    (o : Option ℕ) (ns : List ℕ) → can_listen (added_one o ns) ≡ true → can_listen ns ≡ true
unfolding added_one
can_listen-added_one none ns h = h
can_listen-added_one (some n) ns h = let (l, new, rest) = can_listen-tail n ns h in rest

register_one_lem :
    (o : Option ℕ) (memory : Bool) (s : Selector) (ns : List ℕ)
    → can_listen (added_one o ns) ≡ true
    → Listens s ns
    → (s' : Selector) × (register_one o memory (true, s) ≡ some (true, s'))
      × Listens s' (added_one o ns)
unfolding added_one register_one
register_one_lem none memory s ns h v = (s, refl, v)
register_one_lem (some n) memory s ns h v =
    let (l, new, rest) = can_listen-tail n ns h in
    (
      registered s n accepting op_read 0,
      rw (register_free accepting op_read 0 memory (v.others n l new)) refl,
      register-Listens s n ns l new v,
    )

register_masters_lem :
    (m : Masters) (memory : Bool) (s : Selector) (ns : List ℕ)
    → can_listen (added m ns) ≡ true
    → Listens s ns
    → (s' : Selector) × (register_masters m memory s ≡ some s') × Listens s' (added m ns)
unfolding added register_masters
register_masters_lem m memory s ns h v =
    let (s1, e1, v1) =
      register_one_lem m.socket6 memory s ns (can_listen-added_one m.socket _ h) v in
    let (s2, e2, v2) = register_one_lem m.socket memory s1 _ h v1 in (s2, rw (e1, e2) refl, v2)

can_listen-added :
    (m : Masters) (ns : List ℕ) → can_listen (added m ns) ≡ true → can_listen ns ≡ true
unfolding added
can_listen-added m ns h = can_listen-added_one m.socket6 ns (can_listen-added_one m.socket _ h)

-- When the sockets of the two services have different descriptors that `select` can watch, and the
-- table is allocated, the start gives a selector. Its table waits to read from each of these sockets,
-- with the handler that accepts, and every other descriptor that `select` can watch is free.
pub all_listen :
    (socks mng : Masters)
    → can_listen (added mng (added socks [])) ≡ true
    → (s : Selector) × (start socks mng true ≡ some s) × Listens s (added mng (added socks []))
unfolding start
all_listen socks mng h =
    let (s1, e1, v1) =
      register_masters_lem socks true fresh [] (can_listen-added mng _ h) fresh-Listens in
    let (s2, e2, v2) = register_masters_lem mng true s1 _ h v1 in
    (s2, rw (new-fresh, e1, e2) refl, v2)
