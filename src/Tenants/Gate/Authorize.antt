-- ===== src/Tenants/Gate/Authorize.antt =====
-- When `authorize` lets a visitor in, and what it has touched when it does not.
use honest_agent.Prelude.{
  ◌≡◌, refl, ◌↔◌, ◌⊎◌, inl, inr, true, Option, none, some, arith, Option-cases, length,
}
use honest_agent.Py.Str.{Str}
use honest_agent.Py.Unicode.{Unicode}
use honest_agent.Py.Value.{Value}
use honest_agent.Py.Exec.{Exception, Result, ok, raised}
use honest_agent.Tenants.Contexts.{VisitorRequestContext}
use honest_agent.Tenants.WidgetKeys.{WidgetKeyRecord}
use honest_agent.Tenants.Gate.{Bytes, VisitorGate, Visit, authorize}
use honest_agent.Tenants.Gate.Limits.{Fits, exceeds-Fits, Fits-exceeds}
use honest_agent.Tenants.Gate.Checks.{given_key, check_origin, sanitize_query}

pub found-cases :
    {A : Type 0} (r : Result (Option A))
    → ((a : A) × (r ≡ ok (some a))) ⊎ ((r ≡ ok none) ⊎ ((e : Exception) × (r ≡ raised e)))
found-cases (ok (some a)) = inl (a, refl)
found-cases (ok none) = inr (inl refl)
found-cases (raised e) = inr (inr (e, refl))

module _ {S : Type 0} (unicode : Unicode) (loads : Bytes → Result Value) where
  -- Everything that a visitor has passed: `t` is the state after the store, `u` the one after
  -- the rate limiter.
  pub record Cleared (gate : VisitorGate S) (visit : Visit) (s u : S)
      (context : VisitorRequestContext) : Type 0 where
    pub key : Str
    pub found : WidgetKeyRecord
    pub t : S
    pub fits : Fits (length visit.body) gate.max_body_bytes
    pub has_key : given_key visit.widget_key ≡ some key
    pub is_known : gate.store.lookup key s ≡ (ok (some found), t)
    pub origin_passes : check_origin unicode visit.origin visit.referer found.allowed_hosts ≡ ok tt
    pub under_limit : gate.rate_limiter.check key visit.client_ip t ≡ (ok true, u)
    pub tenant : context.tenant_id ≡ found.tenant_id
    pub query : sanitize_query loads visit.body ≡ ok context.query

  authorize_sound :
      (gate : VisitorGate S) (visit : Visit) (s u : S) (context : VisitorRequestContext)
      → authorize unicode loads gate visit s ≡ (ok context, u)
      → Cleared gate visit s u context
  unfolding authorize
  authorize_sound gate visit s u context h = elim (Option-cases (given_key visit.widget_key)) [
    | inl missing ↦ absurd (ground arith)
    | inr (key, given) ↦ elim (found-cases (gate.store.lookup key s).0) [
      | inl (found, known) ↦ record {
        key = key;
        found = found;
        t = (gate.store.lookup key s).1;
        fits = exceeds-Fits (length visit.body) gate.max_body_bytes (ground arith);
        has_key = given;
        is_known = ground arith;
        origin_passes = ground arith;
        under_limit = ground arith;
        tenant = ground arith;
        query = ground arith;
      }
      | inr (inl unknown) ↦ absurd (ground arith)
      | inr (inr (e, failed)) ↦ absurd (ground arith)
    ]
  ]

  authorize_complete :
      (gate : VisitorGate S) (visit : Visit) (s u : S) (context : VisitorRequestContext)
      → Cleared gate visit s u context
      → authorize unicode loads gate visit s ≡ (ok context, u)
  unfolding authorize
  authorize_complete gate visit s u context c =
      ground (arith, Fits-exceeds (length visit.body) gate.max_body_bytes c.fits)

  -- A visit is let in, with a context and a state, exactly when it has passed every check in their
  -- order: the body is not over the limit, a key is given, the store knows it, the origin is one of
  -- the row's hosts, the limiter allows it, and the body holds a query. The context has the tenant
  -- of the key's row and the query of the body.
  pub authorize_iff :
      (gate : VisitorGate S) (visit : Visit) (s u : S) (context : VisitorRequestContext)
      → (authorize unicode loads gate visit s ≡ (ok context, u)) ↔ Cleared gate visit s u context
  authorize_iff gate visit s u context =
      (authorize_sound gate visit s u context, authorize_complete gate visit s u context)

  -- Two visits with one key that are let in from one state resolve one tenant, whatever else they
  -- carry.
  authorize-tenant :
      (gate : VisitorGate S) (visit other : Visit) (s u v : S)
      (context context' : VisitorRequestContext)
      → visit.widget_key ≡ other.widget_key
      → authorize unicode loads gate visit s ≡ (ok context, u)
      → authorize unicode loads gate other s ≡ (ok context', v)
      → context.tenant_id ≡ context'.tenant_id
  authorize-tenant gate visit other s u v context context' same h k =
      let c = authorize_sound gate visit s u context h in
      let d = authorize_sound gate other s v context' k in
      ground (arith, c.tenant, d.tenant, c.has_key, d.has_key, c.is_known, d.is_known)

  -- Where the browser sent an Origin, the Referer changes nothing.
  authorize-referer :
      (gate : VisitorGate S) (visit : Visit) (origin : Str) (referer : Option Str) (s : S)
      → visit.origin ≡ some origin
      → authorize unicode loads gate (record visit { referer = referer }) s
        ≡ authorize unicode loads gate visit s
  unfolding authorize check_origin
  authorize-referer gate visit origin referer s h = rw h refl
