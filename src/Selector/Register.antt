-- ===== src/Selector/Register.antt =====
-- `selector_register` and `selector_unregister_fd` of src/selector.c.
use proyecto_protos.Selector.Table.{IsValid, replace, largest_above}
use proyecto_protos.Selector.{
  Selector, success, iargs, fdinuse, Item, Interest, Handler, op_noop, unused_item, used,
  items_max_size, items_max_fd, update_fdset, register, unregister_fd,
}
use proyecto_protos.Prelude.{
  ℕ, zero, suc, ◌+◌, ◌≤◌, ◌<◌, ◌≡◌, refl, ◌∙◌, sym, ◌⊎◌, inl, inr, List, [], ◌∷◌, some, none, Bool,
  true, false, length, length-set, get_elem?, get_elem?_total, get_elem?-set_self, set, ltb,
  if◌then◌else◌, pos, Bool-cases, arith,
}

-- What `place` writes into a free entry.
abbrev pub registered : Selector → ℕ → Handler → Interest → ℕ → Selector
registered s n h i a =
    update_fdset
      (record s {
        fds = set s.fds n (record { fd = some n; interest = i; handler = h; attachment = a });
        max_fd = if ltb s.max_fd n then n else s.max_fd;
      })
      n i

registered-IsValid :
    (s : Selector) (n : ℕ) (h : Handler) (i : Interest) (a : ℕ)
    → IsValid s
    → n < s.fd_size
    → IsValid (registered s n h i a)
unfolding update_fdset used
registered-IsValid s n h i a v m =
    let it : Item = record { fd = some n; interest = i; handler = h; attachment = a } in
    let top : ℕ = if ltb s.max_fd n then n else s.max_fd in
    record {
      size = v.size ∙ sym (length-set s.fds n it);
      entries =
          replace s.fds s.max_fd top n s.master_r s.master_w i.reading i.writing it
            (omega (arith, v.size)) (refl) (refl) (λ k j _ _ _ l. ground arith) v.entries
            (inr (refl, ground arith));
    }

-- With a table that covers all that `select` can watch (`selector_new` of 1024 makes one),
-- `selector_register` of a free descriptor succeeds and fills its entry; of one in use it refuses and
-- changes nothing. The table stays consistent.
pub register_lem :
    (s : Selector) (n : ℕ) (h : Handler) (i : Interest) (a : ℕ) (memory : Bool)
    → IsValid s
    → n < items_max_size
    → items_max_size ≤ s.fd_size
    → (it : Item) × (get_elem? s.fds n ≡ some it)
      × ((used it ≡ false)
            × (register s (pos n) h i a memory ≡ some (success, registered s n h i a))
            × (get_elem? (registered s n h i a).fds n
                ≡ some (record { fd = some n; interest = i; handler = h; attachment = a }))
            × IsValid (registered s n h i a)
          ⊎ (used it ≡ true) × (register s (pos n) h i a memory ≡ some (fdinuse, s)))
unfolding register update_fdset
register_lem s n h i a memory v m c =
    let (it, e) = get_elem?_total s.fds n (omega (arith, v.size)) in
    (
      it,
      e,
      elim (Bool-cases (used it)) [
        | inl u ↦ inr (u, ground (arith, e))
        | inr f ↦ inl (
          f,
          ground (arith, e),
          get_elem?-set_self s.fds n _ (omega (arith, v.size)),
          registered-IsValid s n h i a v (omega arith),
        )
      ],
    )

get_elem?-length : (is : List Item) (n : ℕ) → length is ≤ n → get_elem? is n ≡ none
get_elem?-length [] n h = refl
get_elem?-length (i ∷ is) zero h = elim h [ ]
get_elem?-length (i ∷ is) (suc n) h = get_elem?-length is n (omega arith)

-- In a smaller table the descriptor that equals the table's size passes the test for room, and
-- `selector_register` reads and writes the entry one past the end of the table.
pub register_past_end :
    (s : Selector) (h : Handler) (i : Interest) (a : ℕ) (memory : Bool)
    → IsValid s
    → s.fd_size < items_max_size
    → register s (pos s.fd_size) h i a memory ≡ none
unfolding register
register_past_end s h i a memory v m =
    ground (arith, get_elem?-length s.fds s.fd_size (omega (arith, v.size)))

abbrev cleared : Selector → ℕ → Selector
cleared s n = update_fdset (record s { fds = set s.fds n unused_item }) n op_noop

cleared-IsValid :
    (s : Selector) (n : ℕ)
    → IsValid s
    → n < s.fd_size
    → IsValid (record (cleared s n) { max_fd = items_max_fd (cleared s n) })
unfolding items_max_fd update_fdset used
cleared-IsValid s n v c = record {
  size = v.size ∙ sym (length-set s.fds n unused_item);
  entries =
      replace s.fds s.max_fd (items_max_fd (cleared s n)) n s.master_r s.master_w false false
        unused_item (omega (arith, v.size)) refl refl
        (λ k j e _ f l.
          largest_above (set s.fds n unused_item) (s.max_fd + 1) 0 k j k e f (omega arith))
        v.entries (inl refl);
}

-- `selector_unregister_fd` of a descriptor in use frees its entry, stops watching it, calls the close
-- callback of its object if there is one, and keeps the table consistent; of a free one it refuses
-- and changes nothing.
pub unregister_fd_lem :
    (s : Selector) (n : ℕ)
    → IsValid s
    → n < items_max_size
    → n < s.fd_size
    → (it : Item) × (get_elem? s.fds n ≡ some it)
      × (((s' : Selector) × (used it ≡ true)
            × (unregister_fd s (pos n)
                ≡ some (success, s', if it.handler.on_close then some it.attachment else none))
            × (get_elem? s'.fds n ≡ some unused_item)
            × (s'.master_r n ≡ false)
            × (s'.master_w n ≡ false)
            × IsValid s')
          ⊎ (used it ≡ false) × (unregister_fd s (pos n) ≡ some (iargs, s, none)))
unfolding unregister_fd update_fdset
unregister_fd_lem s n v m c =
    let (it, e) = get_elem?_total s.fds n (omega (arith, v.size)) in
    (
      it,
      e,
      elim (Bool-cases (used it)) [
        | inl u ↦ inl (
          record (cleared s n) { max_fd = items_max_fd (cleared s n) },
          u,
          ground (arith, e),
          get_elem?-set_self s.fds n _ (omega (arith, v.size)),
          ground arith,
          ground arith,
          cleared-IsValid s n v c,
        )
        | inr f ↦ inr (f, ground (arith, e))
      ],
    )
