-- ===== src/Server/Finish.antt =====
-- The end of src/main.c, with `socksv5_close` of src/socks5nio.c and `mng_close` of src/mng_nio.c, which
-- `selector_destroy` calls, and the end of the two pools.
use proyecto_protos.Pool.{Pool}
use proyecto_protos.Pool as Pools
use proyecto_protos.Selector.{Selector, Status}
use proyecto_protos.Selector.Loop.{destroy}
use proyecto_protos.Server.{Masters, exit_code}
use proyecto_protos.Prelude.{
  ℕ, Bool, Option, none, some, List, [], ◌∷◌, ◌++◌, ◌==◌, if◌then◌else◌, ◌>>=◌,
}

-- The pools of the two services.
pub record TwoPools : Type 0 where
  pub socks : Pool
  pub mng : Pool

-- `socksv5_close` or `mng_close` of an object with so many references: what they become, and the pools.
unfoldable pub close : Bool → ℕ → ℕ → TwoPools → ℕ × TwoPools
close is_mng object references pools =
    if is_mng
    then (let (left, p) = Pools.destroy pools.mng object references in
        (left, record pools { mng = p }))
    else (let (left, p) = Pools.destroy pools.socks object references in
        (left, record pools { socks = p }))

-- The same for the objects that `selector_destroy` tells: the pools, and the objects that are given back,
-- to a pool or to `free`. The function says how many references each object has.
unfoldable pub close_all : (ℕ → Bool) → List ℕ → (ℕ → ℕ) → TwoPools → TwoPools × List ℕ
close_all is_mng [] references pools = (pools, [])
close_all is_mng (x ∷ xs) references pools =
    let (left, pools') = close (is_mng x) x (references x) pools in
    let (pools'', given) =
      close_all is_mng xs (λ y. if y == x then left else references y) pools' in
    (pools'', if references x == 1 then x ∷ given else given)

-- `socksv5_pool_destroy` or `mng_pool_destroy`: the objects that are freed.
unfoldable pub pool_destroy : Pool → List ℕ
pool_destroy p = p.objects

-- The sockets of a service that are there.
unfoldable pub closed_sockets : Masters → List ℕ
closed_sockets m =
    elim m.socket [ none ↦ [] | some n ↦ n ∷ [] ] ++ elim m.socket6 [ none ↦ [] | some n ↦ n ∷ [] ]

-- What `main` leaves: its result, the objects given back by the selector's end, those freed with the pools,
-- and the sockets that are closed.
pub record Finished : Type 0 where
  pub exit : ℕ
  pub given : List ℕ
  pub freed : List ℕ
  pub closed : List ℕ

-- The end once `selector_destroy` has told these objects, with the sockets of the proxy; those of the
-- management are left open.
unfoldable pub ended : Status → Bool → (ℕ → Bool) → (ℕ → ℕ) → TwoPools → Masters → List ℕ → Finished
ended ss message is_mng references pools socks objects =
    let (pools', given) = close_all is_mng objects references pools in
    record {
      exit = exit_code ss message;
      given = given;
      freed = pool_destroy pools'.mng ++ pool_destroy pools'.socks;
      closed = closed_sockets socks;
    }

-- `main` from `finally` on.
unfoldable pub finish :
    Status → Bool → Option Selector → (ℕ → Bool) → (ℕ → ℕ) → TwoPools → Masters → Option Finished
finish ss message selector is_mng references pools socks = do
  objects ← elim selector [ none ↦ some [] | some s ↦ destroy s ]
  some (ended ss message is_mng references pools socks objects)
