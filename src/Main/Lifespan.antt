-- ===== src/Main/Lifespan.antt =====
-- backend/src/app/main.py: `_lifespan`, which holds the pool for as long as the app runs. The pool
-- and the MCP session manager are parameters.
pub mod Laws
pub mod Tests
use honest_agent.Prelude.{Bool, Option}
use honest_agent.Py.Str.{Str}
use honest_agent.Py.Unicode.{Unicode}
use honest_agent.Py.Exec.{Action, try_finally, ◌>>=◌}
use honest_agent.Core.Db.{PoolConfig, pool_config, with_context}
use honest_agent.Core.Settings.{Settings}
use honest_agent.Tenants.RateLimit.{RateLimiter, allow_all_rate_limiter}
use honest_agent.Tenants.WidgetKeys.{WidgetKeyStore, Row, postgres_store}

-- `asyncpg.create_pool`, `close` of a pool, its query for a widget key, and the two ends of
-- `async with session_manager.run()`.
pub record Resources (S Pool : Type 0) : Type 0 where
  pub create_pool : PoolConfig → Action S Pool
  pub close : Pool → Action S (Unit {0})
  pub fetchrow : Pool → Str → Action S (Option Row)
  pub enter : Action S (Unit {0})
  pub leave : (returned : Bool) → Action S (Unit {0})

-- What `_lifespan` leaves in `app.state`.
pub record AppState (S Pool : Type 0) : Type 0 where
  pub db_pool : Pool
  pub widget_key_store : WidgetKeyStore S
  pub rate_limiter : RateLimiter S

module _ {S Pool : Type 0} (unicode : Unicode) (resources : Resources S Pool) where
  unfoldable pub app_state : Pool → AppState S Pool
  unfolding postgres_store allow_all_rate_limiter
  app_state pool = record {
    db_pool = pool;
    widget_key_store = postgres_store unicode (resources.fetchrow pool);
    rate_limiter = allow_all_rate_limiter;
  }

  -- `serve` is what the app does at the `yield`, until it is shut down or fails.
  unfoldable pub lifespan :
      {A : Type 0} → (serve : AppState S Pool → Action S A) → Settings → Action S A
  unfolding pool_config with_context app_state
  lifespan serve settings = do
    pool ← resources.create_pool (pool_config settings)
    with_context resources.enter resources.leave
        (try_finally (serve (app_state pool)) (resources.close pool))
