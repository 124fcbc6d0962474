-- ===== src/Tenants/WidgetRouter/Total.antt =====
-- When the door answers at all.
use honest_agent.Prelude.{
  ap, ◌≡◌, refl, inl, inr, Bool, true, false, Option, none, some, List, arith, Option-cases,
  Bool-cases,
}
use honest_agent.Py.Str.{Str, codes, starts_with}
use honest_agent.Py.Unicode.{Unicode}
use honest_agent.Py.Value.{Value, obj, str, get}
use honest_agent.Py.Exec.{
  Exception, app, json_decode_error, Result, ok, raised, Action, Result-cases,
}
use honest_agent.Py.Exec.Returns.{Returns}
use honest_agent.Core.Errors.{Response, app_error_response, authentication_error}
use honest_agent.Core.Origins.{host_allowed}
use honest_agent.Agent.Schemas.{AnswerResult}
use honest_agent.Agent.Service.{answer_in_process}
use honest_agent.Tenants.Contexts.{VisitorRequestContext}
use honest_agent.Tenants.Gate.{
  Bytes, VisitorGate, Request, authorize, visit_of, admit, proceed, too_large,
  visitor_gate_middleware, widget_path_prefix,
}
use honest_agent.Tenants.Gate.Checks.{
  check_origin, check_listed, sanitize_query, decode_failure, query_field, query_text,
  declares_more,
}
use honest_agent.Tenants.Gate.Denials.{
  Denied, no_key, lookup_failed, unknown_key, origin_refused, limiter_failed, over_limit, bad_query,
  denied_iff,
}
use honest_agent.Tenants.Gate.Inputs.{claimed_origin}
use honest_agent.Tenants.WidgetRouter.{widget_door, widget_endpoint}

-- An exception that a handler of the program answers.
is_app : Exception → Bool
is_app (app error) = true
is_app _ = false

query_text-is_app : (v : Value) (e : Exception) → query_text v ≡ raised e → is_app e ≡ true
unfolding query_text is_app
query_text-is_app (str query) e h = ground arith
query_text-is_app _ e h = ground arith

query_field-is_app : (v : Value) (e : Exception) → query_field v ≡ raised e → is_app e ≡ true
unfolding query_field is_app
query_field-is_app (obj fields) e h = query_text-is_app (get (codes "query") fields) e h
query_field-is_app _ e h = ground arith

module _ (unicode : Unicode) (loads : Bytes → Result Value) where
  sanitize_query-is_app :
      (body : Bytes) (e : Exception)
      → ((e' : Exception) → loads body ≡ raised e' → e' ≡ json_decode_error)
      → sanitize_query loads body ≡ raised e
      → is_app e ≡ true
  unfolding sanitize_query decode_failure is_app
  sanitize_query-is_app body e json h = elim (Result-cases (loads body)) [
    | inl (payload, read) ↦ query_field-is_app payload e (ground arith)
    | inr (e', failed) ↦ let same = json e' failed in ground arith
  ]

  check_origin-is_app :
      (origin referer : Option Str) (hosts : List Str) (e : Exception)
      → ((value : Str)
          → claimed_origin origin referer ≡ some value
          → (listed : Bool) × (host_allowed unicode value hosts ≡ ok listed))
      → check_origin unicode origin referer hosts ≡ raised e
      → is_app e ≡ true
  unfolding check_origin check_listed is_app
  check_origin-is_app (some value) referer hosts e calm h =
      let (listed, fine) = calm value refl in ground arith
  check_origin-is_app none (some value) hosts e calm h =
      let (listed, fine) = calm value refl in ground arith
  check_origin-is_app none none hosts e calm h = ground arith

module _ {S : Type 0} (unicode : Unicode) (loads : Bytes → Result Value) where
  -- What must not fail for a request to be answered: the store, the limiter and the body return,
  -- `loads` raises nothing but a `JSONDecodeError` on the body that is read, and neither the
  -- declared length nor the origin is malformed.
  pub record Calm (gate : VisitorGate S) (request : Request S) : Type 0 where
    pub stored : (key : Str) → Returns (gate.store.lookup key)
    pub limited : (key : Str) (ip : Option Str) → Returns (gate.rate_limiter.check key ip)
    pub received : Returns request.read_body
    pub json :
        (body : Bytes) (s t : S) (e : Exception)
        → request.read_body s ≡ (ok body, t)
        → loads body ≡ raised e
        → e ≡ json_decode_error
    pub declared :
        (more : Bool) × (declares_more unicode
            (request.header (codes "content-length"))
            gate.max_body_bytes
          ≡ ok more)
    pub origin :
        (value : Str) (hosts : List Str)
        → claimed_origin (request.header (codes "origin")) (request.header (codes "referer"))
          ≡ some value
        → (listed : Bool) × (host_allowed unicode value hosts ≡ ok listed)

  Denied-is_app :
      (gate : VisitorGate S) (request : Request S) (body : Bytes) (s u : S) (e : Exception)
      → Calm gate request
      → ((e' : Exception) → loads body ≡ raised e' → e' ≡ json_decode_error)
      → Denied unicode loads gate (visit_of request body) s u e
      → is_app e ≡ true
  unfolding visit_of is_app
  Denied-is_app gate request body s u e calm json (Denied.too_large over same kept) = ground arith
  Denied-is_app gate request body s u e calm json (no_key fits missing same kept) = ground arith
  Denied-is_app gate request body s u e calm json (lookup_failed key fits given failed) =
      let (r, (t, returned)) = calm.stored key s in absurd (ground arith)
  Denied-is_app gate request body s u e calm json (unknown_key key fits given unknown same) =
      ground arith
  Denied-is_app gate request body s u e calm json (origin_refused key found known refused) =
      check_origin-is_app unicode loads (request.header (codes "origin"))
        (request.header (codes "referer")) found.allowed_hosts e
        (λ value. calm.origin value found.allowed_hosts) refused
  Denied-is_app gate request body s u e calm json (limiter_failed key found t known passed failed) =
      let (r, (t', returned)) = calm.limited key request.client_host t in absurd (ground arith)
  Denied-is_app gate request body s u e calm json (over_limit key found t known passed over same) =
      ground arith
  Denied-is_app gate request body s u e calm json (bad_query key found t known passed allowed bad) =
      sanitize_query-is_app unicode loads body e json bad

-- The door's answer to a request, whichever it is.
abbrev pub Answers : {S : Type 0} → Action S Response → S → Type 0
Answers {S} m s = (response : Response) × ((u : S) × (m s ≡ (ok response, u)))

module _ {S : Type 0} (unicode : Unicode) (loads : Bytes → Result Value)
    (core : Str → Str → AnswerResult) (render : AnswerResult → Response) where
  widget_endpoint-Answers :
      (request : Request S) (s : S) → Answers (widget_endpoint core render request) s
  unfolding widget_endpoint
  widget_endpoint-Answers request s = elim (Option-cases request.visitor_context) [
    | inl ungated ↦ (
      app_error_response
          (record { kind = authentication_error; detail = codes "visitor gate did not run" })
          request.path,
      (s, ground arith),
    )
    | inr (context, gated) ↦ (render (answer_in_process core context), (s, ground arith))
  ]

  proceed-Answers :
      (request : Request S) (outcome : Result VisitorRequestContext) (s : S)
      → ((e : Exception) → outcome ≡ raised e → is_app e ≡ true)
      → Answers (proceed request (widget_endpoint core render) outcome) s
  unfolding proceed is_app
  proceed-Answers request (ok context) s calm =
      widget_endpoint-Answers (record request { visitor_context = some context }) s
  proceed-Answers request (raised (app error)) s calm =
      (app_error_response error request.path, (s, refl))
  proceed-Answers request (raised e) s calm = absurd (let no = calm e refl in ground arith)

  admit-Answers :
      (gate : VisitorGate S) (request : Request S) (s : S)
      → Calm unicode loads gate request
      → Answers (admit unicode loads gate request (widget_endpoint core render)) s
  unfolding admit
  admit-Answers gate request s calm =
      let (body, (t, read)) = calm.received s in
      let visit = visit_of request body in
      let r = authorize unicode loads gate visit t in
      let (response, (u, answered)) = proceed-Answers request r.0 r.1 (λ e refused.
        Denied-is_app unicode loads gate request body t r.1 e calm
          (λ e'. calm.json body s t e' read)
          ((denied_iff unicode loads gate visit t r.1 e).0 (ap (λ x. (x, r.1)) refused))) in
      (response, (u, ground arith))

  -- A request is always answered with a response, never left to the server's 500, on the widget
  -- path and off it: where the store, the limiter and the reading of the body return, `json.loads`
  -- raises nothing but a `JSONDecodeError` on the body that is read, and neither the declared length
  -- nor the claimed origin makes its parser raise.
  pub widget_door_total :
      (gate : VisitorGate S) (request : Request S) (s : S)
      → Calm unicode loads gate request
      → Answers (widget_door core render unicode loads gate request) s
  unfolding widget_door visitor_gate_middleware
  widget_door_total gate request s calm =
      let (more, declared) = calm.declared in
      elim (Bool-cases (starts_with widget_path_prefix request.path)) [
        | inr off ↦
            let (response, (u, answered)) = widget_endpoint-Answers request s in
            (response, (u, ground arith))
        | inl on ↦ elim (Bool-cases more) [
          | inl over ↦ (too_large request.path, (s, ground arith))
          | inr fits ↦
              let (response, (u, answered)) = admit-Answers gate request s calm in
              (response, (u, ground arith))
        ]
      ]
