-- ===== src/Core/Db.antt =====
-- backend/src/app/core/db.py: the pool, and the one way to a tenant's data. What asyncpg does at
-- the two ends of `async with` is a parameter.
pub mod Laws
pub mod Tests
use honest_agent.Prelude.{ℕ, Bool, true, false}
use honest_agent.Py.Str.{Str, codes}
use honest_agent.Py.Exec.{Result, ok, raised, Action, attempt, lift, ◌>>=◌, ◌>>◌}
use honest_agent.Core.Settings.{Settings}

abbrev pub pool_min_size : ℕ
pool_min_size = 5

abbrev pub pool_max_size : ℕ
pool_max_size = 10

-- What the pool is created with.
pub record PoolConfig : Type 0 where
  pub dsn : Str
  pub min_size : ℕ
  pub max_size : ℕ

unfoldable pub pool_config : Settings → PoolConfig
pool_config settings = record {
  dsn = settings.app_database_url;
  min_size = pool_min_size;
  max_size = pool_max_size;
}

-- A connection of the pool: `acquire` and `release` are the ends of `async with pool.acquire()`,
-- `begin` and `finish` those of `async with conn.transaction()`; each of the ending calls is told
-- whether the block returned. `execute` takes a statement and its one bind parameter.
pub record Connection (S : Type 0) : Type 0 where
  pub acquire : Action S (Unit {0})
  pub release : Bool → Action S (Unit {0})
  pub begin : Action S (Unit {0})
  pub finish : Bool → Action S (Unit {0})
  pub execute : Str → Str → Action S (Unit {0})

unfoldable pub returned : {A : Type 0} → Result A → Bool
returned (ok a) = true
returned (raised e) = false

-- `async with`: the block runs where entering succeeds, the ending call runs whatever the block
-- does, and what the ending call raises takes the place of the block's result.
unfoldable pub with_context :
    {S A : Type 0} → Action S (Unit {0}) → (Bool → Action S (Unit {0})) → Action S A → Action S A
unfolding returned
with_context enter leave block = do
  enter
  outcome ← attempt block
  leave (returned outcome)
  lift outcome

abbrev pub set_tenant : Str
set_tenant = codes "SELECT set_config('app.tenant_id', $1, true)"

-- `async with tenant_txn(pool, tenant_id) as conn: block`.
unfoldable pub tenant_txn : {S A : Type 0} → Connection S → Str → Action S A → Action S A
unfolding with_context
tenant_txn connection tenant_id block = with_context connection.acquire connection.release (
    with_context connection.begin connection.finish
      (do connection.execute set_tenant tenant_id; block))
