-- ===== src/Selector/Loop.antt =====
-- src/selector.c: a round of the event loop, `selector_select` with what it calls. The callbacks, and the
-- state that they share, are those of the host; what `pselect` answers is an argument. A failed
-- `assert`, a call through NULL and an access outside the table are `none`.
use proyecto_protos.Selector.{unregister_fd, used, Selector, Status, success, io, Item, Handler}
use proyecto_protos.Stm.{Event, readable, writable, resolved}
use proyecto_protos.Prelude.{
  pos, ℕ, zero, suc, ◌+◌, Bool, true, ◌&&◌, Option, none, some, List, [], ◌∷◌, get_elem?, ◌==◌,
  if◌then◌else◌, ◌>>=◌,
}

-- Where the selector stands in the state of the program, and the callback of a handler for an event,
-- which gets the descriptor and the object of its key.
pub record Host (W : Type 0) : Type 0 where
  pub selector : W → Selector
  pub with_selector : W → Selector → W
  pub callback : Event → Handler → ℕ → ℕ → W → Option W

-- What `pselect` answers: an interruption (EAGAIN or EINTR), EBADF, another error, or the descriptors
-- that are ready, `slave_r` and `slave_w`.
pub data Wait : Type 0 where
  interrupted bad_descriptor failed : Wait
  ready : (ℕ → Bool) → (ℕ → Bool) → Wait

module _ {W : Type 0} (host : Host W) where
  -- One of the two calls of `handle_iteration`: whether it is due, and whether the callback is set.
  unfoldable pub serve : Event → Bool → Bool → Handler → ℕ → ℕ → W → Option W
  serve e due is_set h fd attachment w =
      let called : Option W = host.callback e h fd attachment w in
      if due then (if is_set then called else none) else some w

  -- The body of the loop of `handle_iteration` for an item in use. The key keeps the descriptor and
  -- the object from before the first call. The pointer to the item is kept too: what it points to is
  -- read again, if the descriptor is ready to be written to, and is gone if the first call has made the
  -- table grow, with `realloc`.
  unfoldable pub visit_item : (ℕ → Bool) → (ℕ → Bool) → ℕ → Item → ℕ → W → Option W
  visit_item slave_r slave_w i item fd w = do
    w1 ←
        serve readable (slave_r fd && item.interest.reading) item.handler.on_read item.handler fd
          item.attachment w
    let again : Option W = (do
      item' ← get_elem? (host.selector w1).fds i
      serve writable item'.interest.writing item'.handler.on_write item'.handler fd item.attachment
          w1)
    let kept : Option W =
        if (host.selector w1).fd_size == (host.selector w).fd_size then again else none
    if slave_w i then kept else some w1

  unfoldable pub visit : (ℕ → Bool) → (ℕ → Bool) → ℕ → W → Option W
  visit slave_r slave_w i w = do
    item ← get_elem? (host.selector w).fds i
    elim item.fd [ none ↦ some w | some fd ↦ visit_item slave_r slave_w i item fd w ]

  -- The loop, from `i` on for so many items.
  unfoldable pub visit_all : (ℕ → Bool) → (ℕ → Bool) → ℕ → ℕ → W → Option W
  visit_all slave_r slave_w zero i w = some w
  visit_all slave_r slave_w (suc left) i w = do
    w' ← visit slave_r slave_w i w
    visit_all slave_r slave_w left (i + 1) w'

  unfoldable pub handle_iteration : (ℕ → Bool) → (ℕ → Bool) → W → Option W
  handle_iteration slave_r slave_w w = visit_all slave_r slave_w ((host.selector w).max_fd + 1) 0 w

  -- The loop of `handle_block_notifications`.
  unfoldable pub notify_all : List ℕ → W → Option W
  notify_all [] w = some w
  notify_all (j ∷ js) w = do
    item ← get_elem? (host.selector w).fds j
    w' ← elim item.fd [
      | none ↦ some w
      | some fd ↦ serve resolved true item.handler.on_block item.handler fd item.attachment w
    ]
    notify_all js w'

  unfoldable pub handle_block_notifications : W → Option W
  handle_block_notifications w = do
    w' ← notify_all (host.selector w).resolution_jobs w
    some (host.with_selector w' (record (host.selector w') { resolution_jobs = [] }))

  -- `selector_select`; what it prints of bad descriptors is left out.
  unfoldable pub select : W → Wait → Option (Status × W)
  select w answer =
      let notified : W → Option (Status × W) =
        λ v. (do v' ← handle_block_notifications v; some (success, v')) in
      elim answer [
        | interrupted ↦ notified w
        | bad_descriptor ↦ some (io, w)
        | failed ↦ some (io, w)
        | ready slave_r slave_w ↦ (do v ← handle_iteration slave_r slave_w w; notified v)
      ]

-- The loop of `selector_destroy`, from `i` on for so many items, with the objects whose `handle_close`
-- is called.
unfoldable pub destroy_all : ℕ → ℕ → Selector → Option (List ℕ)
destroy_all zero i s = some []
destroy_all (suc left) i s = do
  item ← get_elem? s.fds i
  let freed : Option (Selector × Option ℕ) = (do
    (ret, s', object) ← unregister_fd s (pos i)
    some (s', object))
  (s', object) ← if used item then freed else some (s, none)
  rest ← destroy_all left (i + 1) s'
  some (elim object [ none ↦ rest | some n ↦ n ∷ rest ])

-- `selector_destroy`: nothing of the selector is left.
unfoldable pub destroy : Selector → Option (List ℕ)
destroy s = let closed = destroy_all s.fd_size 0 s in if s.allocated then closed else some []
