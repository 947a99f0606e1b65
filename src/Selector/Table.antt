-- ===== src/Selector/Table.antt =====
-- The table of src/selector.c stays consistent: each descriptor has its own entry, `select` watches
-- exactly what the entries ask for, and no entry lies above `max_fd`.
use mathlib.Core.Path.{subst}
use native.Mathlib.Decide.{ℕ_discrete}
use proyecto_protos.Selector.{
  Selector, Status, success, iargs, Item, Interest, used, items_max_size, largest, fd_update,
  update_fdset, set_interest,
}
use proyecto_protos.Prelude.{
  ℕ, zero, suc, ◌≤◌, ◌<◌, ◌≡◌, ◌∙◌, sym, ◌≢◌, ◌⊎◌, inl, inr, List, [], ◌∷◌, some, none, Bool, true,
  ◌&&◌, length, length-set, get_elem?, get_elem?_total, get_elem?-set_self, get_elem?-set_ne, set,
  pos, Bool-cases, arith,
}

-- The entry at `n`, in a table watched by `r` and `w` and scanned up to `top`.
pub record Entry (top : ℕ) (r w : ℕ → Bool) (n : ℕ) (i : Item) : Type 0 where
  pub own : (i.fd ≡ none) ⊎ (i.fd ≡ some n) × (n ≤ top)
  pub watch_r : r n ≡ (used i && i.interest.reading)
  pub watch_w : w n ≡ (used i && i.interest.writing)

pub record IsValid (s : Selector) : Type 0 where
  pub size : s.fd_size ≡ length s.fds
  pub entries :
      (n : ℕ) (i : Item) → get_elem? s.fds n ≡ some i → Entry s.max_fd s.master_r s.master_w n i

-- An entry that is left alone, while bits of another one change.
Entry-other :
    (top top' ufd n : ℕ) (r w : ℕ → Bool) (x y : Bool) (i : Item)
    → n ≢ ufd
    → (i.fd ≡ some n → n ≤ top → n ≤ top')
    → Entry top r w n i
    → Entry top' (fd_update r ufd x) (fd_update w ufd y) n i
unfolding fd_update
Entry-other top top' ufd n r w x y i ne up old = record {
  own = elim old.own [ inl e ↦ inl e | inr p ↦ inr (p.0, up p.0 p.1) ];
  watch_r = ground (arith, old.watch_r);
  watch_w = ground (arith, old.watch_w);
}

-- The entry that is replaced, together with its bits.
Entry-new :
    (top ufd : ℕ) (r w : ℕ → Bool) (x y : Bool) (i : Item)
    → x ≡ (used i && i.interest.reading)
    → y ≡ (used i && i.interest.writing)
    → (i.fd ≡ none) ⊎ (i.fd ≡ some ufd) × (ufd ≤ top)
    → Entry top (fd_update r ufd x) (fd_update w ufd y) ufd i
unfolding fd_update
Entry-new top ufd r w x y i ex ey o = record {
  own = o;
  watch_r = ground arith;
  watch_w = ground arith;
}

-- One entry and its bits replaced, under a bound that still covers the others.
pub replace :
    (fds : List Item) (top top' ufd : ℕ) (r w : ℕ → Bool) (x y : Bool) (i' : Item)
    → ufd < length fds
    → x ≡ (used i' && i'.interest.reading)
    → y ≡ (used i' && i'.interest.writing)
    → ((n : ℕ) (i : Item)
        → get_elem? (set fds ufd i') n ≡ some i
        → n ≢ ufd
        → i.fd ≡ some n
        → n ≤ top
        → n ≤ top')
    → ((n : ℕ) (i : Item) → get_elem? fds n ≡ some i → Entry top r w n i)
    → (i'.fd ≡ none) ⊎ (i'.fd ≡ some ufd) × (ufd ≤ top')
    → (n : ℕ) (i : Item) → get_elem? (set fds ufd i') n ≡ some i
    → Entry top' (fd_update r ufd x) (fd_update w ufd y) n i
replace fds top top' ufd r w x y i' inside ex ey up old new n i e = elim (ℕ_discrete n ufd) [
  | yes p ↦
      (let same : i' ≡ i = cc (get_elem?-set_self fds ufd i' inside) in
        rw p (
          subst (λ j. Entry top' (fd_update r ufd x) (fd_update w ufd y) ufd j) same
            (Entry-new top' ufd r w x y i' ex ey new)))
  | no ne ↦
      Entry-other top top' ufd n r w x y i ne (up n i e ne)
        (old n i (sym (get_elem?-set_ne fds ufd n i' (λ q. ne (sym q))) ∙ e))
]

largest_ge : (is : List Item) (left max : ℕ) → max ≤ largest is left max
unfolding largest
largest_ge [] left max = omega arith
largest_ge (i ∷ is) zero max = omega arith
largest_ge (i ∷ is) (suc left) max = grind (arith, largest_ge is left)

-- The loop of `items_max_fd` reaches every entry in its range.
pub largest_above :
    (is : List Item) (left max n : ℕ) (i : Item) (fd : ℕ)
    → get_elem? is n ≡ some i
    → i.fd ≡ some fd
    → n < left
    → fd ≤ largest is left max
unfolding largest
largest_above [] left max n i fd e f h = cc
largest_above (j ∷ is) zero max n i fd e f h = elim h [ ]
largest_above (j ∷ is) (suc left) max zero i fd e f h =
    ground (arith, largest_ge is left fd, largest_ge is left max)
largest_above (j ∷ is) (suc left) max (suc n) i fd e f h =
    largest_above is left _ n i fd e f (omega arith)

pub used-own :
    {top n : ℕ} {r w : ℕ → Bool} {i : Item}
    → used i ≡ true
    → Entry top r w n i
    → (i.fd ≡ some n) × (n ≤ top)
unfolding used
used-own {i} u e = ground (arith, e.own)

-- `selector_set_interest` keeps the table consistent.
pub set_interest-IsValid :
    (s : Selector) (n : ℕ) (i : Interest)
    → IsValid s
    → n < items_max_size
    → n < s.fd_size
    → (ret : Status) × (s' : Selector) × (set_interest s (pos n) i ≡ some (ret, s')) × IsValid s'
unfolding set_interest
set_interest-IsValid s n i v m h =
    let (it, e) = get_elem?_total s.fds n (omega (arith, v.size)) in
    elim (Bool-cases (used it)) [
      | inl u ↦
          (let it' : Item = record it { interest = i } in
            let u' : used it' ≡ true = ground (arith, u) in
            let ok : (it.fd ≡ some n) × (n ≤ s.max_fd) = used-own u (v.entries n it e) in
            (
              success,
              update_fdset (record s { fds = set s.fds n it' }) n i,
              ground (arith, e),
              record {
                size = v.size ∙ sym (length-set s.fds n it');
                entries =
                    replace s.fds s.max_fd s.max_fd n s.master_r s.master_w i.reading i.writing it'
                      (omega (arith, v.size)) (ground (arith, u')) (ground (arith, u'))
                      (λ k j _ _ _ l. l) v.entries (inr ok);
              },
            ))
      | inr f ↦ (iargs, s, ground (arith, e), v)
    ]
