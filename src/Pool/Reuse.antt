-- ===== src/Pool/Reuse.antt =====
-- How often the pool of src/socks5nio.c serves an object again.
use proyecto_protos.Pool.{Pool, take, destroy, max_pool}
use proyecto_protos.Prelude.{ℕ, ◌+◌, ◌≤◌, ◌≡◌, Option, [], length, ◌==◌, if◌then◌else◌, arith}

-- `pool_size` covers the list, and stays within `max_pool`.
pub record IsValid (p : Pool) : Type 0 where
  pub covers : length p.objects ≤ p.size
  pub bounded : p.size ≤ max_pool

-- A run of the two operations, and how many of its objects came from the pool.
pub data Run : ℕ → Pool → Pool → Type 0 where
  stop : {p : Pool} → Run 0 p p
  accept :
      {n : ℕ} (p : Pool) (fresh : Option ℕ) {p' : Pool}
      → Run n ((take p fresh).1) p'
      → Run (n + (if length p.objects == 0 then 0 else 1)) p p'
  release :
      {n : ℕ} (p : Pool) (object references : ℕ) {p' : Pool}
      → Run n ((destroy p object references).1) p'
      → Run n p p'

take_lem :
    (p : Pool) (fresh : Option ℕ)
    → (length (take p fresh).1.objects + (if length p.objects == 0 then 0 else 1)
        ≡ length p.objects)
      × ((take p fresh).1.size ≡ p.size)
unfolding take
take_lem p fresh = ground arith

destroy_lem :
    (p : Pool) (object references : ℕ)
    → p.size ≤ max_pool
    → ((destroy p object references).1.size ≤ max_pool)
      × (p.size + length (destroy p object references).1.objects
          ≡ (destroy p object references).1.size + length p.objects)
unfolding destroy
destroy_lem p object references h = ground arith

-- Along a run, the objects served again and the count stay within `max_pool`, but for those that wait.
reuse_bounded :
    {n : ℕ} {p p' : Pool}
    → IsValid p
    → Run n p p'
    → IsValid p' × (n + p.size ≤ max_pool + length p.objects)
reuse_bounded v stop = (v, omega (arith, v.covers, v.bounded))
reuse_bounded v (accept p fresh run) =
    let (e, s) = take_lem p fresh in
    let (v', h) =
      reuse_bounded
        (record { covers = omega (arith, e, s, v.covers); bounded = omega (arith, s, v.bounded) })
        run in
    (v', omega (arith, e, s, h))
reuse_bounded v (release p object references run) =
    let (b, e) = destroy_lem p object references v.bounded in
    let (v', h) = reuse_bounded (record { covers = omega (arith, e, v.covers); bounded = b }) run in
    (v', omega (arith, e, h))

-- Since `pool_size` counts up and never down, the pool serves at most `max_pool` objects again in the
-- life of the process, whatever connections come and go, and it never holds more.
pub reused_at_most :
    {n : ℕ} {p : Pool}
    → Run n (record { objects = []; size = 0 }) p
    → (n ≤ max_pool) × (length p.objects ≤ max_pool)
reused_at_most run =
    let (v, h) = reuse_bounded (record { covers = omega arith; bounded = omega arith }) run in
    (omega (arith, h), omega (arith, v.covers, v.bounded))
