-- ===== src/Selector/Open.antt =====
-- `selector_set_interest`, `selector_register` and `selector_unregister_fd` of src/selector.c, on a
-- descriptor that is in use and on one that is free.
use proyecto_protos.Selector.{
  Selector, Item, Interest, Handler, op_noop, success, iargs, unused_item, used, items_max_size,
  items_max_fd, valid_fd, set_interest, update_fdset, place, register, unregister_fd,
}
use proyecto_protos.Selector.Register.{registered}
use proyecto_protos.Prelude.{
  Bool, false, ◌≤◌, refl, if◌then◌else◌, ℕ, ◌<◌, ◌≡◌, ◌≢◌, ◌∙◌, ap, ℤ, some, none, true, get_elem?,
  get_elem?-set_self, get_elem?-set_ne, get_elem?_within, set, pos, arith,
}

-- The descriptor is one that `select` can watch, and its entry is in use.
pub record IsOpen (s : Selector) (n : ℕ) (it : Item) : Type 0 where
  pub watchable : n < items_max_size
  pub entry : get_elem? s.fds n ≡ some it
  pub busy : used it ≡ true

-- The selector once it watches `n` for `i`.
abbrev pub asked : Selector → ℕ → Item → Interest → Selector
asked s n it i = update_fdset (record s { fds = set s.fds n (record it { interest = i }) }) n i

-- The interest of a descriptor in use is taken.
pub set_interest_lem :
    {s : Selector} {n : ℕ} {it : Item} (i : Interest)
    → IsOpen s n it
    → set_interest s (pos n) i ≡ some (success, asked s n it i)
unfolding set_interest valid_fd
set_interest_lem i o = ground (arith, o.watchable, o.entry, o.busy)

pub set_interest_at :
    {s : Selector} {n : ℕ} {it : Item} {fd : ℤ} (i : Interest)
    → fd ≡ pos n
    → IsOpen s n it
    → set_interest s fd i ≡ some (success, asked s n it i)
set_interest_at {s} i e o = ap (λ x. set_interest s x i) e ∙ set_interest_lem i o

-- The descriptor then waits for it.
pub asked-IsOpen :
    {s : Selector} {n : ℕ} {it : Item} (i : Interest)
    → IsOpen s n it
    → IsOpen (asked s n it i) n (record it { interest = i })
unfolding update_fdset used
asked-IsOpen {s} {n} {it} i o = record {
  watchable = o.watchable;
  entry =
      get_elem?-set_self s.fds n (record it { interest = i }) (get_elem?_within s.fds n o.entry);
  busy = o.busy;
}

-- Any other one stays as it is.
pub asked-IsOpen_other :
    {s : Selector} {n m : ℕ} (it : Item) {jt : Item} (i : Interest)
    → n ≢ m
    → IsOpen s m jt
    → IsOpen (asked s n it i) m jt
unfolding update_fdset
asked-IsOpen_other {s} {n} {m} it i ne o = record {
  watchable = o.watchable;
  entry = get_elem?-set_ne s.fds n m (record it { interest = i }) ne ∙ o.entry;
  busy = o.busy;
}

-- The table once a descriptor is given back.
abbrev pub freed : Selector → ℕ → Selector
freed s n =
    let cleared : Selector = update_fdset (record s { fds = set s.fds n unused_item }) n op_noop in
    record cleared { max_fd = items_max_fd cleared }

-- A descriptor in use is given back, and its object is told where it has a callback for that.
pub unregister_open :
    {s : Selector} {n : ℕ} {it : Item}
    → IsOpen s n it
    → unregister_fd s (pos n)
      ≡ some (success, freed s n, if it.handler.on_close then some it.attachment else none)
unfolding unregister_fd valid_fd
unregister_open {s} {n} {it} o = ground (arith, o.watchable, o.entry, o.busy)

-- Its entry is then unused.
pub freed-unused :
    {s : Selector} {n : ℕ} {it : Item}
    → IsOpen s n it
    → get_elem? (freed s n).fds n ≡ some unused_item
unfolding update_fdset
freed-unused {s} {n} o = get_elem?-set_self s.fds n unused_item (get_elem?_within s.fds n o.entry)

pub get_elem?-freed :
    (s : Selector) (n m : ℕ) → n ≢ m → get_elem? (freed s n).fds m ≡ get_elem? s.fds m
unfolding update_fdset
get_elem?-freed s n m ne = get_elem?-set_ne s.fds n m unused_item ne

-- Any other one stays as it is.
pub freed-IsOpen_other :
    {s : Selector} {n m : ℕ} {jt : Item} → n ≢ m → IsOpen s m jt → IsOpen (freed s n) m jt
unfolding update_fdset
freed-IsOpen_other {s} {n} {m} ne o = record {
  watchable = o.watchable;
  entry = get_elem?-freed s n m ne ∙ o.entry;
  busy = o.busy;
}

-- The descriptor is one that `select` can watch, inside the table, and its entry is free.
pub record IsFree (s : Selector) (n : ℕ) (it : Item) : Type 0 where
  pub watchable : n < items_max_size
  pub inside : n ≤ s.fd_size
  pub entry : get_elem? s.fds n ≡ some it
  pub idle : used it ≡ false

-- A free one is registered, and its entry filled.
pub register_free :
    {s : Selector} {n : ℕ} {it : Item} (h : Handler) (i : Interest) (a : ℕ) (memory : Bool)
    → IsFree s n it
    → register s (pos n) h i a memory ≡ some (success, registered s n h i a)
unfolding register place valid_fd
register_free h i a memory o = ground (arith, o.watchable, o.inside, o.entry, o.idle)

pub register_at :
    {s : Selector} {n : ℕ} {it : Item} {fd : ℤ} (h : Handler) (i : Interest) (a : ℕ) (memory : Bool)
    → fd ≡ pos n
    → IsFree s n it
    → register s fd h i a memory ≡ some (success, registered s n h i a)
register_at {s} h i a memory e o =
    ap (λ x. register s x h i a memory) e ∙ register_free h i a memory o

pub registered-IsOpen :
    {s : Selector} {n : ℕ} {it : Item} (h : Handler) (i : Interest) (a : ℕ)
    → IsFree s n it
    → IsOpen
        (registered s n h i a)
        n
        (record { fd = some n; interest = i; handler = h; attachment = a })
unfolding update_fdset used
registered-IsOpen {s} {n} h i a o = record {
  watchable = o.watchable;
  entry = get_elem?-set_self s.fds n _ (get_elem?_within s.fds n o.entry);
  busy = refl;
}

pub registered-IsOpen_other :
    {s : Selector} {n m : ℕ} {jt : Item} (h : Handler) (i : Interest) (a : ℕ)
    → n ≢ m
    → IsOpen s m jt
    → IsOpen (registered s n h i a) m jt
unfolding update_fdset
registered-IsOpen_other {s} {n} {m} h i a ne o = record {
  watchable = o.watchable;
  entry = get_elem?-set_ne s.fds n m _ ne ∙ o.entry;
  busy = o.busy;
}

-- An interest of another one leaves it free.
pub asked-IsFree :
    {s : Selector} {n m : ℕ} (it : Item) {jt : Item} (i : Interest)
    → n ≢ m
    → IsFree s m jt
    → IsFree (asked s n it i) m jt
unfolding update_fdset
asked-IsFree {s} {n} {m} it i ne o = record {
  watchable = o.watchable;
  inside = o.inside;
  entry = get_elem?-set_ne s.fds n m (record it { interest = i }) ne ∙ o.entry;
  idle = o.idle;
}

-- A free one takes no interest, and is not given back: the call changes nothing.
pub set_interest_free :
    {s : Selector} {n : ℕ} {it : Item} (i : Interest)
    → IsFree s n it
    → set_interest s (pos n) i ≡ some (iargs, s)
unfolding set_interest valid_fd
set_interest_free i o = ground (arith, o.watchable, o.entry, o.idle)

pub unregister_free :
    {s : Selector} {n : ℕ} {it : Item}
    → IsFree s n it
    → unregister_fd s (pos n) ≡ some (iargs, s, none)
unfolding unregister_fd valid_fd
unregister_free o = ground (arith, o.watchable, o.entry, o.idle)
