-- ===== src/Proxy/Serving.antt =====
-- From `selector_select` of src/selector.c to the machine of a connection (src/socks5nio.c).
use proyecto_protos.Buffer.{contents}
use proyecto_protos.Hello.{socks_version}
use proyecto_protos.Hello.Message.{chosen}
use proyecto_protos.Proxy.{World}
use proyecto_protos.Proxy.Lifetime.{on_event}
use proyecto_protos.Proxy.Negotiation.{Greeted, standing, standing_in, hello_event}
use proyecto_protos.Proxy.Resolving.{alone, served}
use proyecto_protos.Selector.{Selector, Item, op_write, success, update_fdset}
use proyecto_protos.Selector.Iteration.{Ready, Waits, round_lem}
use proyecto_protos.Selector.Loop.{ready, notify_all, handle_block_notifications, select}
use proyecto_protos.Selector.Open.{IsOpen, asked, set_interest_lem, asked-IsOpen}
use proyecto_protos.Selector.Table.{IsValid, set_interest-IsValid}
use proyecto_protos.SocksState
use proyecto_protos.Stm.{Machine, readable}
use mathlib.Core.Path.{subst}
use proyecto_protos.Prelude.{
  ℕ, ◌<◌, ◌≡◌, refl, ◌∙◌, sym, ap, Bool, some, List, [], ◌∷◌, ◌++◌, length, length-set,
  get_elem?_within, the_some, arith,
}

-- An interest leaves a consistent table.
asked-IsValid :
    (s : Selector) (c : ℕ) (it : Item) → IsValid s → IsOpen s c it → IsValid (asked s c it op_write)
asked-IsValid s c it v o =
    let inside : c < s.fd_size = omega (arith, v.size, get_elem?_within s.fds c o.entry) in
    let (ret, s', e, v') = set_interest-IsValid s c op_write v o.watchable inside in
    subst IsValid (ap (λ x. x.1) (the_some (sym e ∙ set_interest_lem op_write o))) v'

length-asked :
    (s : Selector) (c : ℕ) (it : Item) → length (asked s c it op_write).fds ≡ length s.fds
unfolding update_fdset
length-asked s c it = length-set s.fds c (record it { interest = op_write })

jobs-asked :
    (s : Selector) (c : ℕ) (it : Item) → (asked s c it op_write).resolution_jobs ≡ s.resolution_jobs
unfolding update_fdset
jobs-asked s c it = refl

-- Where no name has been resolved, the notifications change nothing but the empty queue.
idle_lem :
    (stm : Machine World) (w : World)
    → w.key.selector.resolution_jobs ≡ []
    → handle_block_notifications alone (stm, w) ≡ some (stm, served w)
unfolding handle_block_notifications notify_all
idle_lem stm w idle = rw idle refl

-- The call of the loop is the event of the connection.
called_lem :
    (w : World) (c : ℕ) (it : Item) (ms rest : List ℕ) (x : Machine World × World)
    → Greeted w c it ms rest
    → on_event readable standing w ≡ some x
    → alone.callback readable it.handler c it.attachment (standing, w) ≡ some x
called_lem w c it ms rest x g e =
    ap (λ f. on_event readable standing (record w { key = record (w.key) { fd = f } })) (sym g.own)
    ∙ e

-- A call of `selector_select` that finds one descriptor ready, that of a new connection which waits to be
-- read and whose client sends a whole hello, succeeds. It takes the machine of the connection to
-- HELLO_WRITE: the reply, with the method that is chosen, stands behind what the write buffer held, what
-- follows the hello waits for the next stage, and the descriptor waits to be written to. The table stays
-- consistent. It is consistent before, covers the round, and no name has been resolved.
pub hello_served :
    (w : World) (c : ℕ) (it : Item) (ms rest : List ℕ) (slave_r slave_w : ℕ → Bool)
    → Greeted w c it ms rest
    → Waits w.key.selector c it
    → Ready slave_r slave_w c
    → w.key.selector.resolution_jobs ≡ []
    → (w' : World) × (select alone (standing, w) (ready slave_r slave_w)
        ≡ some (success, (standing_in SocksState.hello_write, w')))
      × (w'.hello.method ≡ chosen w.globals.auth_method 0xFF ms)
      × (contents w'.key.conn.write_buffer
          ≡ contents w.key.conn.write_buffer
            ++ (socks_version ∷ chosen w.globals.auth_method 0xFF ms ∷ []))
      × (contents w'.key.conn.read_buffer ≡ rest)
      × IsOpen w'.key.selector c (record it { interest = op_write })
      × IsValid w'.key.selector
unfolding select
hello_served w c it ms rest slave_r slave_w g waits r idle =
    let (w', e, m, p, q, same) = hello_event w c it ms rest g in
    let valid : IsValid w'.key.selector =
      subst IsValid (sym same) (asked-IsValid w.key.selector c it waits.valid g.opens) in
    let opens : IsOpen w'.key.selector c (record it { interest = op_write }) =
      subst (λ s. IsOpen s c (record it { interest = op_write })) (sym same)
        (asked-IsOpen op_write g.opens) in
    let round =
      round_lem alone slave_r slave_w (standing, w) (standing_in SocksState.hello_write, w') c it r
        waits valid (ap (λ s. length s.fds) same ∙ length-asked w.key.selector c it)
        (called_lem w c it ms rest _ g e) in
    let quiet =
      idle_lem (standing_in SocksState.hello_write) w'
        (ap (λ s. s.resolution_jobs) same ∙ jobs-asked w.key.selector c it ∙ idle) in
    (
      served w',
      rw (round, quiet) refl,
      m,
      p,
      q,
      record { watchable = opens.watchable; entry = opens.entry; busy = opens.busy },
      record { size = valid.size; entries = valid.entries },
    )
