-- ===== src/Proxy/Closing.antt =====
-- How src/socks5nio.c ends a connection.
use proyecto_protos.Connecting.Writing.{release}
use proyecto_protos.Copy.{same_fd}
use proyecto_protos.Pool.{destroy, max_pool}
use proyecto_protos.Proxy.{World}
use proyecto_protos.Proxy.Lifetime.{closing, socks5_destroy, done_with, socksv5_done}
use proyecto_protos.Selector.{Item, unused_item}
use proyecto_protos.Selector.Open.{
  IsOpen, freed, unregister_open, freed-unused, get_elem?-freed, freed-IsOpen_other,
}
use proyecto_protos.Prelude.{
  negsuc, ℕ, ◌+◌, ◌<◌, ◌≤◌, ◌⊎◌, inl, inr, Bool-cases, ltb, ◌≡◌, refl, ◌∙◌, sym, ap, ◌≢◌, true,
  some, ◌∷◌, get_elem?, pos, ℤ, arith,
}

-- The connection once a descriptor is given back and closed.
abbrev pub given_back : World → ℕ → World
given_back w n =
    closing
      (socks5_destroy (record w { key = record (w.key) { selector = freed w.key.selector n } }))
      (pos n)

done_with_open :
    (w : World) (fd : ℤ) (n : ℕ) {it : Item}
    → fd ≡ pos n
    → IsOpen w.key.selector n it
    → it.handler.on_close ≡ true
    → done_with w fd ≡ some (given_back w n)
unfolding done_with same_fd
done_with_open w fd n e o h = ap (done_with w) e ∙ (rw (unregister_open o, h))

nothing_to_close : (w : World) → done_with w (negsuc 0) ≡ some w
unfolding done_with same_fd
nothing_to_close w = refl

-- A connection that has only the client's descriptor.
pub client_closed :
    (w : World) (c : ℕ) {it : Item}
    → w.key.conn.client_fd ≡ pos c
    → w.key.conn.origin_fd ≡ negsuc 0
    → IsOpen w.key.selector c it
    → it.handler.on_close ≡ true
    → socksv5_done w ≡ some (given_back w c)
unfolding socksv5_done
client_closed w c client origin o h =
    rw (done_with_open w w.key.conn.client_fd c client o h)
      (ap (done_with (given_back w c)) origin ∙ nothing_to_close (given_back w c))

-- A connection with two references, whose two descriptors are registered with a callback for their end,
-- ends without `abort`: both are taken out of the table and closed, the client's first. Its object goes
-- back to the pool once, while the pool has counted fewer than 50; after that it is freed, and the pool
-- stays as it is.
pub both_closed :
    (w : World) (c n : ℕ) {it jt : Item}
    → w.key.conn.client_fd ≡ pos c
    → w.key.conn.origin_fd ≡ pos n
    → c ≢ n
    → IsOpen w.key.selector c it
    → IsOpen w.key.selector n jt
    → it.handler.on_close ≡ true
    → jt.handler.on_close ≡ true
    → w.origin.references ≡ 2
    → (v : World) × (socksv5_done w ≡ some v)
      × (get_elem? v.key.selector.fds c ≡ some unused_item)
      × (get_elem? v.key.selector.fds n ≡ some unused_item)
      × (v.origin.closed ≡ pos n ∷ pos c ∷ w.origin.closed)
      × ((w.origin.pool.size < max_pool)
            × (v.origin.pool ≡ record {
              objects = w.origin.object ∷ w.origin.pool.objects;
              size = w.origin.pool.size + 1;
            })
          ⊎ (max_pool ≤ w.origin.pool.size) × (v.origin.pool ≡ w.origin.pool))
unfolding socksv5_done release destroy
both_closed w c n {it} {jt} client origin ne o p h q refs =
    let first = done_with_open w w.key.conn.client_fd c client o h in
    let second =
      done_with_open (given_back w c) w.key.conn.origin_fd n origin (freed-IsOpen_other ne p) q in
    (
      given_back (given_back w c) n,
      rw (first, second),
      get_elem?-freed (freed w.key.selector c) n c (λ e. ne (sym e)) ∙ freed-unused o,
      freed-unused (freed-IsOpen_other ne p),
      refl,
      elim (Bool-cases (ltb w.origin.pool.size max_pool)) [
        | inl room ↦ inl (ground (arith, room), ground (arith, refs, room))
        | inr full ↦ inr (ground (arith, full), ground (arith, refs, full))
      ],
    )
