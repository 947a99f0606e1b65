-- ===== src/Selector.antt =====
-- src/selector.c and include/selector.h: the table of file descriptors of the event loop.
-- `select(2)`, signals, threads and `malloc` are outside; the result of an allocation is an argument.
-- An access outside the table and a failed `assert` are `none`.
pub mod Capacity
pub mod Table
pub mod Register
pub mod Open
pub mod Loop
pub mod Ending
pub mod Iteration
use proyecto_protos.Prelude.{
  ℕ, zero, suc, ◌+◌, ◌*◌, ◌/◌, ◌^◌, Bool, true, false, not, ◌&&◌, ◌||◌, Option, none, some, List,
  [], ◌-◌, ◌∷◌, ◌++◌, length, get_elem?, set, replicate, ltb, leb, ◌==◌, if◌then◌else◌, ◌>>=◌, ◌>>◌,
  assert, ℤ, pos, negsuc,
}

-- `selector_status`
pub data Status : Type 0 where
  success enomem maxfd iargs fdinuse io : Status

-- `fd_interest`, the set of the bits OP_READ and OP_WRITE.
pub record Interest : Type 0 where
  pub reading : Bool
  pub writing : Bool

abbrev pub op_noop : Interest
op_noop = record { reading = false; writing = false }

abbrev pub op_read : Interest
op_read = record { reading = true; writing = false }

abbrev pub op_write : Interest
op_write = record { reading = false; writing = true }

-- `fd_handler`: which of its callbacks are not NULL.
pub record Handler : Type 0 where
  pub on_read : Bool
  pub on_write : Bool
  pub on_block : Bool
  pub on_close : Bool

-- `struct item`. FD_UNUSED is `none`; `attachment` tells the objects behind `data` apart.
pub record Item : Type 0 where
  pub fd : Option ℕ
  pub interest : Interest
  pub handler : Handler
  pub attachment : ℕ

-- `struct fdselector`, its table, its sets for `select` and the queue of finished jobs. `fds` is NULL
-- until it is `allocated`.
pub record Selector : Type 0 where
  pub allocated : Bool
  pub fds : List Item
  pub fd_size : ℕ
  pub max_fd : ℕ
  pub master_r : ℕ → Bool
  pub master_w : ℕ → Bool
  pub resolution_jobs : List ℕ

-- FD_SETSIZE
abbrev pub items_max_size : ℕ
items_max_size = 1024

-- The loop of `next_capacity`. The fuel is the width of `size_t`.
unfoldable pub count_bits : ℕ → ℕ → ℕ → ℕ
count_bits zero tmp bits = bits
count_bits (suc fuel) tmp bits =
    let rest = count_bits fuel (tmp / 2) (bits + 1) in if tmp == 0 then bits else rest

unfoldable pub next_capacity : ℕ → Option ℕ
unfolding count_bits
next_capacity n = do
  let tmp = 2 ^ count_bits 64 n 0
  assert (leb n tmp)
  some ((if ltb items_max_size tmp then items_max_size else tmp) + 1)

abbrev pub no_handler : Handler
no_handler = record { on_read = false; on_write = false; on_block = false; on_close = false }

-- `item_init` on a zeroed item.
abbrev pub unused_item : Item
unused_item = record { fd = none; interest = op_noop; handler = no_handler; attachment = 0 }

unfoldable pub used : Item → Bool
used i = elim i.fd [ none ↦ false | some n ↦ true ]

-- `ensure_capacity`; `memory` says whether `calloc` or `realloc` succeeds.
unfoldable pub ensure_capacity : Selector → ℕ → Bool → Option (Status × Selector)
unfolding next_capacity
ensure_capacity s n memory =
    if ltb n s.fd_size
    then some (success, s)
    else if ltb items_max_size n
    then some (maxfd, s)
    else (do
      new_size ← next_capacity n
      some (
          if memory
          then (
            success,
            record s {
              allocated = true;
              fds = s.fds ++ replicate (new_size - s.fd_size) unused_item;
              fd_size = new_size;
            },
          )
          else (enomem, s)))

abbrev pub empty_selector : Selector
empty_selector = record {
  allocated = false;
  fds = [];
  fd_size = 0;
  max_fd = 0;
  master_r = λ n. false;
  master_w = λ n. false;
  resolution_jobs = [];
}

-- `selector_new`; the inner `none` is the NULL that it returns.
unfoldable pub new : ℕ → Bool → Option (Option Selector)
unfolding ensure_capacity
new initial_elements memory = do
  (ret, s) ← ensure_capacity empty_selector initial_elements memory
  some (elim ret [ success ↦ some s | _ ↦ none ])

-- FD_SET and FD_CLR of one descriptor.
unfoldable pub fd_update : (ℕ → Bool) → ℕ → Bool → ℕ → Bool
fd_update bits fd v n = if n == fd then v else bits n

-- `items_update_fdset_for_fd`, for an item with a descriptor.
unfoldable pub update_fdset : Selector → ℕ → Interest → Selector
unfolding fd_update
update_fdset s fd i = record s {
  master_r = fd_update s.master_r fd i.reading;
  master_w = fd_update s.master_w fd i.writing;
}

-- `items_max_fd`: the loop over the first items, `max` so far.
unfoldable pub largest : List Item → ℕ → ℕ → ℕ
largest [] left max = max
largest (i ∷ is) zero max = max
largest (i ∷ is) (suc left) max =
    largest is left (elim i.fd [ none ↦ max | some fd ↦ if ltb max fd then fd else max ])

unfoldable pub items_max_fd : Selector → ℕ
unfolding largest
items_max_fd s = largest s.fds (s.max_fd + 1) 0

-- A descriptor for which INVALID_FD fails.
unfoldable pub valid_fd : ℤ → Option ℕ
valid_fd (negsuc n) = none
valid_fd (pos n) = if ltb n items_max_size then some n else none

-- `selector_register` from step 2 on.
unfoldable pub place : Selector → ℕ → Handler → Interest → ℕ → Option (Status × Selector)
unfolding used update_fdset
place s ufd handler interest attachment = do
  item ← get_elem? s.fds ufd
  let item' : Item = record {
    fd = some ufd;
    interest = interest;
    handler = handler;
    attachment = attachment;
  }
  some (
      if used item then (fdinuse, s) else (
        success,
        update_fdset
            (record s {
              fds = set s.fds ufd item';
              max_fd = if ltb s.max_fd ufd then ufd else s.max_fd;
            })
            ufd interest,
      ))

-- `selector_register`, with a handler that is not NULL.
unfoldable pub register : Selector → ℤ → Handler → Interest → ℕ → Bool → Option (Status × Selector)
unfolding place ensure_capacity valid_fd
register s fd handler interest attachment memory = elim (valid_fd fd) [
  | none ↦ some (iargs, s)
  | some ufd ↦
      if ltb s.fd_size ufd
      then (do
        (ret, s') ← ensure_capacity s ufd memory
        elim ret [
          | success ↦ place s' ufd handler interest attachment
          | failure ↦ some (failure, s')
        ])
      else place s ufd handler interest attachment
]

-- `selector_unregister_fd`. The last part is the object whose `handle_close` is called.
unfoldable pub unregister_fd : Selector → ℤ → Option (Status × Selector × Option ℕ)
unfolding used update_fdset items_max_fd valid_fd
unregister_fd s fd = elim (valid_fd fd) [
  | none ↦ some (iargs, s, none)
  | some ufd ↦ (do
    item ← get_elem? s.fds ufd
    let closed = if item.handler.on_close then some item.attachment else none
    let cleared = update_fdset (record s { fds = set s.fds ufd unused_item }) ufd op_noop
    some (
        if used item
        then (success, record cleared { max_fd = items_max_fd cleared }, closed)
        else (iargs, s, none)))
]

unfoldable pub set_interest : Selector → ℤ → Interest → Option (Status × Selector)
unfolding used update_fdset valid_fd
set_interest s fd i = elim (valid_fd fd) [
  | none ↦ some (iargs, s)
  | some ufd ↦ (do
    item ← get_elem? s.fds ufd
    some (
        if used item
        then (
          success,
          update_fdset (record s { fds = set s.fds ufd (record item { interest = i }) }) ufd i,
        )
        else (iargs, s)))
]

-- `selector_notify_block`: the job goes to the front of the queue.
unfoldable pub notify_block : Selector → ℕ → Bool → Status × Selector
notify_block s fd memory =
    if memory then (success, record s { resolution_jobs = fd ∷ s.resolution_jobs }) else (enomem, s)
