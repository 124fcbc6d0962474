-- ===== src/Scripts/E2eDoors/Served.antt =====
-- The visitor's checks against the visitor's door as it is modelled.
use honest_agent.Prelude.{◌≡◌, refl, true, false, Option, some, none, [], ◌∷◌, arith, length}
use honest_agent.Py.Str.{Str, codes, starts_with, strip, is_empty, str_eq}
use honest_agent.Py.Unicode.{Unicode}
use honest_agent.Py.Value.{Value, get}
use honest_agent.Py.Exec.{app, Result, ok, raised}
use honest_agent.Core.Errors.{authentication_error, tenant_access_error}
use honest_agent.Core.Origins.{host_allowed}
use honest_agent.Tenants.WidgetKeys.{WidgetKeyRecord}
use honest_agent.Tenants.Gate.{Bytes, VisitorGate, Request, authorize, visit_of, widget_path_prefix}
use honest_agent.Tenants.Gate.Limits.{Fits, Fits-exceeds}
use honest_agent.Tenants.Gate.Checks.{
  given_key, check_origin, check_listed, sanitize_query, query_field, query_text, decode_failure,
  declares_more,
}
use honest_agent.Scripts.E2eDoors.Checks.{query_of}

abbrev pub seeded_key : Str
seeded_key = codes "wk_tenant_a_public"

abbrev pub seeded_record : WidgetKeyRecord
seeded_record = record {
  tenant_id = codes "tenant-a";
  allowed_hosts = codes "tenant-a.example.com" ∷ codes "localhost" ∷ [];
}

-- A gate over a store that the seed script has filled, with the limiter that allows all.
pub record Seeded {S : Type 0} (gate : VisitorGate S) : Type 0 where
  pub known : (s : S) → gate.store.lookup seeded_key s ≡ (ok (some seeded_record), s)
  pub unknown : (s : S) → gate.store.lookup (codes "wk_unknown") s ≡ (ok none, s)
  pub allows :
      (key : Str) (ip : Option Str) (s : S) → gate.rate_limiter.check key ip s ≡ (ok true, s)

-- What a request shows that asks a question with a key and an origin.
pub record Asks {S : Type 0} (unicode : Unicode) (loads : Bytes → Result Value)
    (gate : VisitorGate S) (request : Request S) (widget_key origin query : Str) : Type 0 where
  pub on_path : starts_with widget_path_prefix request.path ≡ true
  pub has_key : request.header (codes "x-widget-key") ≡ some widget_key
  pub has_origin : request.header (codes "origin") ≡ some origin
  pub declared :
      declares_more unicode (request.header (codes "content-length")) gate.max_body_bytes ≡ ok false
  pub body : Bytes
  pub reads : (s : S) → request.read_body s ≡ (ok body, s)
  pub fits : Fits (length body) gate.max_body_bytes
  pub json : loads body ≡ ok (query_of query)

module _ {S : Type 0} (unicode : Unicode) (loads : Bytes → Result Value) (gate : VisitorGate S)
    (seeded : Seeded gate) where
  pub authorize-unknown :
      (request : Request S) (origin query : Str) (s : S)
      → (asks : Asks unicode loads gate request (codes "wk_unknown") origin query)
      → authorize unicode loads gate (visit_of request asks.body) s ≡ (
        raised (app (record { kind = authentication_error; detail = codes "unknown widget key" })),
        s,
      )
  unfolding authorize visit_of
  authorize-unknown request origin query s asks =
      let given : given_key (some (codes "wk_unknown")) ≡ some (codes "wk_unknown") =
        unfold given_key codes in refl in
      ground (
        arith,
        asks.has_key,
        Fits-exceeds (length asks.body) gate.max_body_bytes asks.fits,
        seeded.unknown s,
      )

  pub authorize-unlisted :
      (request : Request S) (origin query : Str) (s : S)
      → (asks : Asks unicode loads gate request seeded_key origin query)
      → host_allowed unicode origin seeded_record.allowed_hosts ≡ ok false
      → authorize unicode loads gate (visit_of request asks.body) s ≡ (
        raised (app (record { kind = tenant_access_error; detail = codes "origin not allowed" })),
        s,
      )
  unfolding authorize visit_of check_origin check_listed
  authorize-unlisted request origin query s asks unlisted =
      let given : given_key (some seeded_key) ≡ some seeded_key = unfold given_key codes in refl in
      ground (
        arith,
        asks.has_key,
        asks.has_origin,
        Fits-exceeds (length asks.body) gate.max_body_bytes asks.fits,
        seeded.known s,
      )

  pub authorize-listed :
      (request : Request S) (origin query : Str) (s : S)
      → (asks : Asks unicode loads gate request seeded_key origin query)
      → host_allowed unicode origin seeded_record.allowed_hosts ≡ ok true
      → is_empty (strip query) ≡ false
      → authorize unicode loads gate (visit_of request asks.body) s
        ≡ (ok (record { tenant_id = codes "tenant-a"; query = query }), s)
  unfolding authorize visit_of check_origin check_listed sanitize_query decode_failure query_field
      query_text
  authorize-listed request origin query s asks listed given_query =
      let given : given_key (some seeded_key) ≡ some seeded_key = unfold given_key codes in refl in
      let found : query_field (query_of query) ≡ ok query =
        unfold get codes str_eq in ground arith in
      ground (
        arith,
        asks.has_key,
        asks.has_origin,
        Fits-exceeds (length asks.body) gate.max_body_bytes asks.fits,
        asks.json,
        seeded.known s,
        seeded.allows seeded_key request.client_host s,
      )
