-- ===== src/Main/Lifespan/Laws.antt =====
-- Who closes the pool.
use honest_agent.Prelude.{ℕ, Bool, ◌+◌, ◌-◌, ◌≡◌, inl, inr, arith, if◌then◌else◌}
use honest_agent.Py.Unicode.{Unicode}
use honest_agent.Py.Exec.{ok, Action, try_finally, Result-cases}
use honest_agent.Core.Db.{PoolConfig, pool_config, with_context, returned}
use honest_agent.Core.Settings.{Settings}
use honest_agent.Main.Lifespan.{Resources, AppState, app_state, lifespan}

-- The number of open pools: creating one that returns adds one, closing one takes one away, also
-- where closing raises, and nothing else opens or closes any.
pub record CountsPools {S Pool A : Type 0} (resources : Resources S Pool) (open_pools : S → ℕ)
    (serve : AppState S Pool → Action S A) : Type 0 where
  pub created :
      (config : PoolConfig) (pool : Pool) (s t : S)
      → resources.create_pool config s ≡ (ok pool, t)
      → open_pools t ≡ 1 + open_pools s
  pub closed : (pool : Pool) (s : S) → open_pools (resources.close pool s).1 ≡ open_pools s - 1
  pub entered : (s : S) → open_pools (resources.enter s).1 ≡ open_pools s
  pub left : (returned : Bool) (s : S) → open_pools (resources.leave returned s).1 ≡ open_pools s
  pub served : (state : AppState S Pool) (s : S) → open_pools (serve state s).1 ≡ open_pools s

module _ {S Pool A : Type 0} (unicode : Unicode) (resources : Resources S Pool) (open_pools : S → ℕ)
    (serve : AppState S Pool → Action S A) where
  block_closes :
      (pool : Pool) (s : S)
      → CountsPools resources open_pools serve
      → open_pools
          (try_finally (serve (app_state unicode resources pool)) (resources.close pool) s).1
        ≡ open_pools s - 1
  unfolding try_finally
  block_closes pool s laws =
      let state = app_state unicode resources pool in
      let t = (serve state s).1 in
      let served = laws.served state s in
      let closed = laws.closed pool t in
      elim (Result-cases (resources.close pool t).0) [
        | inl (x, fine) ↦ ground arith
        | inr (e, failed) ↦ ground arith
      ]

  -- With `CountsPools`, where the pool is created, and whether the app then returns or raises: where
  -- the session manager is entered, as many pools are open afterwards as were before, whatever
  -- closing and leaving do; where entering raises, one more is.
  pub lifespan_closes :
      (settings : Settings) (pool : Pool) (s t : S)
      → CountsPools resources open_pools serve
      → resources.create_pool (pool_config settings) s ≡ (ok pool, t)
      → open_pools (lifespan unicode resources serve settings s).1
        ≡ (if returned (resources.enter t).0 then open_pools s else 1 + open_pools s)
  unfolding lifespan with_context returned
  lifespan_closes settings pool s t laws created =
      let more = laws.created (pool_config settings) pool s t created in
      let entered = laws.entered t in
      elim (Result-cases (resources.enter t).0) [
        | inr (e, failed) ↦ ground arith
        | inl (x, fine) ↦
            let u = (resources.enter t).1 in
            let block =
              try_finally (serve (app_state unicode resources pool)) (resources.close pool) u in
            let closes = block_closes pool u laws in
            let left = laws.left (returned block.0) block.1 in
            elim (Result-cases (resources.leave (returned block.0) block.1).0) [
              | inl (y, fine') ↦ ground arith
              | inr (e, failed) ↦ ground arith
            ]
      ]
