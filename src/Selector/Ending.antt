-- ===== src/Selector/Ending.antt =====
-- Which objects `selector_destroy` of src/selector.c tells.
use proyecto_protos.Selector.{Selector, Item, used, items_max_size}
use proyecto_protos.Selector.Loop.{destroy, destroy_all}
use proyecto_protos.Selector.Open.{IsOpen, freed, unregister_open, get_elem?-freed}
use proyecto_protos.Prelude.{
  ℕ, suc, ◌+◌, ◌<◌, ◌≡◌, ◌≢◌, refl, ◌∙◌, ap, inl, inr, Bool-cases, true, some, List, [], ◌∷◌,
  length, get_elem?, ◌&&◌, if◌then◌else◌, arith,
}

-- The objects of the descriptors of a table that have a callback for their end, in its order.
abbrev pub told : List Item → List ℕ
told [] = []
told (it ∷ more) = if used it && it.handler.on_close then it.attachment ∷ told more else told more

-- From `i` on the table holds these entries, and what is in use among them can be watched.
record Holds (s : Selector) (i : ℕ) (items : List Item) : Type 0 where
  pub entries : (k : ℕ) → k < length items → get_elem? s.fds (i + k) ≡ get_elem? items k
  pub watchable :
      (k : ℕ) (it : Item) → get_elem? items k ≡ some it → used it ≡ true → i + k < items_max_size

later :
    (s s' : Selector) (i : ℕ) (it : Item) (more : List Item)
    → ((m : ℕ) → i ≢ m → get_elem? s'.fds m ≡ get_elem? s.fds m)
    → Holds s i (it ∷ more)
    → Holds s' (i + 1) more
later s s' i it more same h = record {
  entries = λ k low.
      (let next : i + 1 + k ≡ i + suc k = omega arith in
        same (i + 1 + k) (λ e. omega (arith, e))
        ∙ ap (λ n. get_elem? s.fds n) next
        ∙ h.entries (suc k) (omega (arith, low)));
  watchable = λ k x at busy. omega (arith, h.watchable (suc k) x at busy);
}

destroy_all_lem :
    (s : Selector) (i : ℕ) (items : List Item)
    → Holds s i items
    → destroy_all (length items) i s ≡ some (told items)
unfolding destroy_all
destroy_all_lem s i [] h = refl
destroy_all_lem s i (it ∷ more) h =
    let first : i ≡ i + 0 = omega arith in
    let here : get_elem? s.fds i ≡ some it =
      ap (λ n. get_elem? s.fds n) first ∙ h.entries 0 (omega arith) in
    elim (Bool-cases (used it)) [
      | inl busy ↦
          (let opens : IsOpen s i it = record {
            watchable = omega (arith, h.watchable 0 it refl busy);
            entry = here;
            busy = busy;
          } in
            ground (
              arith,
              here,
              busy,
              unregister_open opens,
              destroy_all_lem (freed s i) (i + 1) more
                  (later s (freed s i) i it more (λ m ne. get_elem?-freed s i m ne) h),
            ))
      | inr idle ↦
          ground (
            arith,
            here,
            idle,
            destroy_all_lem s (i + 1) more (later s s i it more (λ m ne. refl) h),
          )
    ]

-- Of a table whose descriptors in use can be watched, `selector_destroy` tells each object once for each
-- of its descriptors.
pub destroy_lem :
    (s : Selector)
    → s.allocated ≡ true
    → s.fd_size ≡ length s.fds
    → ((n : ℕ) (it : Item) → get_elem? s.fds n ≡ some it → used it ≡ true → n < items_max_size)
    → destroy s ≡ some (told s.fds)
unfolding destroy
destroy_lem s made size watchable =
    let whole : destroy_all (length s.fds) 0 s ≡ some (told s.fds) =
      destroy_all_lem s 0 s.fds (record {
        entries = λ k low. ap (λ n. get_elem? s.fds n) (omega arith);
        watchable = λ k it at busy. omega (arith, watchable k it at busy);
      }) in
    ground (arith, made, size, whole)
