-- ===== src/Scripts/SeedLocal/Resolves.antt =====
-- A seeded key at the visitor gate: the script and the gate share the table.
use honest_agent.Prelude.{◌≡◌, ◌↔◌, true, Option, some, List, map, arith, length}
use mathlib.Core.Path.{subst}
use honest_agent.Py.Str.{Str}
use honest_agent.Py.Unicode.{Unicode}
use honest_agent.Py.Dict.{lookup}
use honest_agent.Py.Value.{ℤ, Value}
use honest_agent.Py.Exec.{Result, ok, Action}
use honest_agent.Core.Settings.{Settings}
use honest_agent.Tenants.Contexts.{VisitorRequestContext}
use honest_agent.Tenants.WidgetKeys.{Row, WidgetKeyRecord, postgres_store, postgres_lookup}
use honest_agent.Tenants.RateLimit.{RateLimiter}
use honest_agent.Tenants.Gate.{Bytes, VisitorGate, Visit, authorize}
use honest_agent.Tenants.Gate.Limits.{Fits}
use honest_agent.Tenants.Gate.Checks.{given_key, check_origin, sanitize_query}
use honest_agent.Tenants.Gate.Authorize.{authorize_iff}
use honest_agent.Scripts.SeedLocal.{widget_keys, OwnerPool, seed_widget_keys}
use honest_agent.Scripts.SeedLocal.Keys.{TableLaws, or_row, seed_widget_keys-row}

-- The gate over the table that the script writes.
abbrev pub seeded_gate :
    {S : Type 0} → Unicode → (Str → Action S (Option Row)) → RateLimiter S → ℤ → VisitorGate S
seeded_gate unicode fetchrow limiter limit = record {
  store = postgres_store unicode fetchrow;
  rate_limiter = limiter;
  max_body_bytes = limit;
}

-- What a visitor with a seeded key still has to pass at such a gate.
pub record Passes {S : Type 0} (unicode : Unicode) (loads : Bytes → Result Value)
    (limiter : RateLimiter S) (limit : ℤ) (visit : Visit) (key tenant_id : Str) (hosts : List Str)
    (t u : S) (context : VisitorRequestContext) : Type 0 where
  pub fits : Fits (length visit.body) limit
  pub origin_passes :
      check_origin unicode visit.origin visit.referer (map unicode.lower hosts) ≡ ok tt
  pub under_limit : limiter.check key visit.client_ip t ≡ (ok true, u)
  pub tenant : context.tenant_id ≡ tenant_id
  pub query : sanitize_query loads visit.body ≡ ok context.query

module _ {S : Type 0} (unicode : Unicode) (loads : Bytes → Result Value) (pool : OwnerPool S)
    (row : S → Str → Option Row) (laws : TableLaws pool row)
    (fetchrow : Str → Action S (Option Row))
    (reads : (key : Str) (s : S) → fetchrow key s ≡ (ok (row s key), s)) (limiter : RateLimiter S)
    (limit : ℤ) where
  seeded_lookup :
      (settings : Settings) (s t : S) (key tenant_id : Str) (hosts : List Str)
      → seed_widget_keys pool settings s ≡ (ok tt, t)
      → lookup key widget_keys ≡ some (tenant_id, hosts)
      → postgres_lookup unicode fetchrow key t
        ≡ (ok (some (record { tenant_id = tenant_id; allowed_hosts = map unicode.lower hosts })), t)
  unfolding postgres_lookup or_row
  seeded_lookup settings s t key tenant_id hosts seeded named =
      ground (arith, reads key t, seed_widget_keys-row pool row laws settings s t key seeded)

  -- Where the table keeps `TableLaws` and the app's query reads its rows and changes nothing, after
  -- a seeding that returns: a visit with a seeded key is let in exactly when its body is not
  -- over the limit and holds a query, its origin is one of the hosts that `WIDGET_KEYS` gives the
  -- key, and the limiter allows it; the context has the tenant that `WIDGET_KEYS` gives the key.
  pub seed-authorize_iff :
      (settings : Settings) (s t u : S) (key tenant_id : Str) (hosts : List Str) (visit : Visit)
      (context : VisitorRequestContext)
      → seed_widget_keys pool settings s ≡ (ok tt, t)
      → lookup key widget_keys ≡ some (tenant_id, hosts)
      → given_key visit.widget_key ≡ some key
      → (authorize unicode loads (seeded_gate unicode fetchrow limiter limit) visit t
          ≡ (ok context, u))
        ↔ Passes unicode loads limiter limit visit key tenant_id hosts t u context
  unfolding postgres_store
  seed-authorize_iff settings s t u key tenant_id hosts visit context seeded named given =
      let stored = seeded_lookup settings s t key tenant_id hosts seeded named in
      let both =
        authorize_iff unicode loads (seeded_gate unicode fetchrow limiter limit) visit t u
          context in
      (
        λ admitted.
            let c = both.0 admitted in
            let same_key : c.key ≡ key = ground arith in
            let known : postgres_lookup unicode fetchrow key t ≡ (ok (some c.found), c.t) =
              subst (λ k. postgres_lookup unicode fetchrow k t ≡ (ok (some c.found), c.t)) same_key
                c.is_known in
            let same : c.found
                ≡ record { tenant_id = tenant_id; allowed_hosts = map unicode.lower hosts } =
              ground arith in
            let same_state : c.t ≡ t = ground arith in
            record {
              fits = c.fits;
              origin_passes =
                  subst
                    (λ (r : WidgetKeyRecord).
                      check_origin unicode visit.origin visit.referer r.allowed_hosts ≡ ok tt)
                    same c.origin_passes;
              under_limit = ground arith;
              tenant = ground arith;
              query = c.query;
            },
        λ p. both.1 (record {
          key = key;
          found = record { tenant_id = tenant_id; allowed_hosts = map unicode.lower hosts };
          t = t;
          fits = p.fits;
          has_key = given;
          is_known = stored;
          origin_passes = p.origin_passes;
          under_limit = p.under_limit;
          tenant = p.tenant;
          query = p.query;
        }),
      )
