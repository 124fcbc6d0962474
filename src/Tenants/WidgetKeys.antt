-- ===== src/Tenants/WidgetKeys.antt =====
-- backend/src/app/tenants/widget_keys.py: from a public widget key to its tenant and hosts.
use honest_agent.Prelude.{Option, none, some, List, map}
use honest_agent.Py.Str.{Str}
use honest_agent.Py.Unicode.{Unicode}
use honest_agent.Py.Dict.{Dict, lookup}
use honest_agent.Py.Exec.{Action, pure, ◌>>=◌}

pub record WidgetKeyRecord : Type 0 where
  pub tenant_id : Str
  pub allowed_hosts : List Str

-- The protocol, over the state of whatever keeps the keys.
pub record WidgetKeyStore (S : Type 0) : Type 0 where
  pub lookup : Str → Action S (Option WidgetKeyRecord)

unfoldable pub in_memory_store : {S : Type 0} → Dict WidgetKeyRecord → WidgetKeyStore S
in_memory_store records = record { lookup = λ key. pure (lookup key records) }

-- A row of `SELECT tenant_id, allowed_hosts FROM widget_keys WHERE key = $1`.
pub record Row : Type 0 where
  pub tenant_id : Str
  pub allowed_hosts : List Str

module _ {S : Type 0} (unicode : Unicode) (fetchrow : Str → Action S (Option Row)) where
  unfoldable pub record_of : Option Row → Option WidgetKeyRecord
  record_of none = none
  record_of (some row) =
      some
        (record { tenant_id = row.tenant_id; allowed_hosts = map unicode.lower row.allowed_hosts })

  -- `fetchrow` stands for the parameterized query on the pool.
  unfoldable pub postgres_lookup : Str → Action S (Option WidgetKeyRecord)
  unfolding record_of
  postgres_lookup widget_key = do row ← fetchrow widget_key; pure (record_of row)

  unfoldable pub postgres_store : WidgetKeyStore S
  unfolding postgres_lookup
  postgres_store = record { lookup = postgres_lookup }
