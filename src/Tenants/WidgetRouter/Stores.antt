-- ===== src/Tenants/WidgetRouter/Stores.antt =====
-- The door over the table of keys, and over the keys in memory that the tests put in its place.
use honest_agent.Prelude.{◌≡◌, ap, Option, Option-cases, none, some, map, inl, inr, arith}
use mathlib.Core.Path.{fun_ext}
use honest_agent.Py.Str.{Str}
use honest_agent.Py.Unicode.{Unicode}
use honest_agent.Py.Dict.{Dict, lookup}
use honest_agent.Py.Value.{Value}
use honest_agent.Py.Exec.{Result, ok, Action}
use honest_agent.Core.Errors.{Response}
use honest_agent.Agent.Schemas.{AnswerResult}
use honest_agent.Tenants.WidgetKeys.{
  WidgetKeyRecord, WidgetKeyStore, Row, record_of, postgres_lookup, postgres_store, in_memory_store,
}
use honest_agent.Tenants.Gate.{Bytes, VisitorGate, Request}
use honest_agent.Tenants.WidgetRouter.{widget_door}

-- The table holds these records: a query changes nothing and gives the row of the key, hosts in
-- letters of either case.
pub record Represents {S : Type 0} (unicode : Unicode) (fetchrow : Str → Action S (Option Row))
    (records : Dict WidgetKeyRecord) : Type 0 where
  pub row : Str → Option Row
  pub fetches : (key : Str) (s : S) → fetchrow key s ≡ (ok (row key), s)
  pub missing : (key : Str) → row key ≡ none → lookup key records ≡ none
  pub found :
      (key : Str) (r : Row)
      → row key ≡ some r
      → lookup key records
        ≡ some
            (record { tenant_id = r.tenant_id; allowed_hosts = map unicode.lower r.allowed_hosts })

module _ {S : Type 0} (unicode : Unicode) (fetchrow : Str → Action S (Option Row))
    (records : Dict WidgetKeyRecord) (represents : Represents unicode fetchrow records) where
  lookup-Represents :
      (key : Str) (s : S) → postgres_lookup unicode fetchrow key s ≡ (ok (lookup key records), s)
  unfolding postgres_lookup record_of
  lookup-Represents key s =
      let fetched = represents.fetches key s in
      elim (Option-cases (represents.row key)) [
        | inl none_there ↦ ground (arith, represents.missing key none_there)
        | inr (r, there) ↦ ground (arith, represents.found key r there)
      ]

  store-Represents : postgres_store unicode fetchrow ≡ in_memory_store records
  unfolding postgres_store in_memory_store
  store-Represents =
      ap (λ (f : Str → Action S (Option WidgetKeyRecord)). record { lookup = f })
        (fun_ext (λ key. fun_ext (λ s. lookup-Represents key s)))

  -- For a table that holds these records, the whole door does over the table what it does over the
  -- records in memory: the same answer or exception, and the same state, for every request.
  pub widget_door-Represents :
      (core : Str → Str → AnswerResult) (render : AnswerResult → Response)
      (loads : Bytes → Result Value) (gate : VisitorGate S) (request : Request S) (s : S)
      → widget_door core render unicode loads
          (record gate { store = postgres_store unicode fetchrow })
          request
          s
        ≡ widget_door core render unicode loads
            (record gate { store = in_memory_store records })
            request
            s
  widget_door-Represents core render loads gate request s =
      ap
        (λ (store : WidgetKeyStore S).
          widget_door core render unicode loads (record gate { store = store }) request s)
        store-Represents
