-- ===== src/Tenants/Gate/Middleware.antt =====
-- What the gate's middleware lets through to the handlers, and what it answers itself.
pub mod Tests
use honest_agent.Prelude.{ℕ, ◌<◌, ◌≡◌, refl, ap, inl, inr, true, false, Option, some, arith}
use honest_agent.Py.Str.{Str, codes, starts_with}
use honest_agent.Py.Unicode.{Unicode}
use honest_agent.Py.Value.{Value}
use honest_agent.Py.Exec.{app, Result, ok, raised, Action, Result-cases}
use honest_agent.Core.Errors.{AppError, Response, app_error_response}
use honest_agent.Tenants.Contexts.{VisitorRequestContext}
use honest_agent.Tenants.Gate.{
  Bytes, VisitorGate, Request, authorize, visit_of, proceed, admit, too_large, widget_path_prefix,
  visitor_gate_middleware,
}
use honest_agent.Tenants.Gate.Checks.{declares_more, is_digits, parse_int}

module _ {S : Type 0} (unicode : Unicode) (loads : Bytes → Result Value) where
  abbrev middleware :
      VisitorGate S → Request S → (Request S → Action S Response) → Action S Response
  middleware = visitor_gate_middleware unicode loads

  -- The two handlers answer alike whatever `authorize` has let in.
  abbrev pub AgreeOnAdmitted :
      VisitorGate S → Request S → (next next' : Request S → Action S Response) → Type 0
  AgreeOnAdmitted gate request next next' =
      (body : Bytes) (context : VisitorRequestContext) (s t : S)
      → authorize unicode loads gate (visit_of request body) s ≡ (ok context, t)
      → next (record request { visitor_context = some context }) t
        ≡ next' (record request { visitor_context = some context }) t

  proceed_agree :
      (request : Request S) (next next' : Request S → Action S Response)
      (r : Result VisitorRequestContext) (t : S)
      → ((context : VisitorRequestContext)
          → r ≡ ok context
          → next (record request { visitor_context = some context }) t
            ≡ next' (record request { visitor_context = some context }) t)
      → proceed request next r t ≡ proceed request next' r t
  unfolding proceed
  proceed_agree request next next' (ok context) t h = h context refl
  proceed_agree request next next' (raised (app e)) t h = refl
  proceed_agree request next next' (raised _) t h = refl

  admit_agree :
      (gate : VisitorGate S) (request : Request S) (next next' : Request S → Action S Response)
      (s : S)
      → AgreeOnAdmitted gate request next next'
      → admit unicode loads gate request next s ≡ admit unicode loads gate request next' s
  unfolding admit
  admit_agree gate request next next' s h = elim (Result-cases (request.read_body s).0) [
    | inr (e, failed) ↦ ground arith
    | inl (body, read) ↦
        let s' = (request.read_body s).1 in
        let r = authorize unicode loads gate (visit_of request body) s' in
        ground (
          arith,
          proceed_agree request next next' r.0 r.1
              (λ context e. h body context s' r.1 (ap (λ x. (x, r.1)) e)),
        )
  ]

  proceed_overwrites :
      (request : Request S) (next : Request S → Action S Response)
      (planted : Option VisitorRequestContext) (r : Result VisitorRequestContext) (s : S)
      → proceed (record request { visitor_context = planted }) next r s ≡ proceed request next r s
  unfolding proceed
  proceed_overwrites request next planted (ok context) s = refl
  proceed_overwrites request next planted (raised (app e)) s = refl
  proceed_overwrites request next planted (raised _) s = refl

  admit_overwrites :
      (gate : VisitorGate S) (request : Request S) (next : Request S → Action S Response)
      (planted : Option VisitorRequestContext) (s : S)
      → admit unicode loads gate (record request { visitor_context = planted }) next s
        ≡ admit unicode loads gate request next s
  unfolding admit
  admit_overwrites gate request next planted s = elim (Result-cases (request.read_body s).0) [
    | inr (e, failed) ↦ ground arith
    | inl (body, read) ↦
        let s' = (request.read_body s).1 in
        let r = authorize unicode loads gate (visit_of request body) s' in
        ground (arith, proceed_overwrites request next planted r.0 r.1)
  ]

  -- On the widget path a handler sees nothing but what `authorize` has let in: two handlers that
  -- agree on those requests give one result.
  pub middleware-fail_closed :
      (gate : VisitorGate S) (request : Request S) (next next' : Request S → Action S Response)
      (s : S)
      → starts_with widget_path_prefix request.path ≡ true
      → AgreeOnAdmitted gate request next next'
      → visitor_gate_middleware unicode loads gate request next s
        ≡ visitor_gate_middleware unicode loads gate request next' s
  unfolding visitor_gate_middleware
  middleware-fail_closed gate request next next' s on h =
      elim (Result-cases
        (declares_more unicode (request.header (codes "content-length")) gate.max_body_bytes)) [
          | inr (e, failed) ↦ ground arith
          | inl (true, more) ↦ ground arith
          | inl (false, fits) ↦ ground (arith, admit_agree gate request next next' s h)
        ]

  -- What stood in `request.state` before the gate has no say on the widget path.
  middleware-overwrites :
      (gate : VisitorGate S) (request : Request S) (next : Request S → Action S Response)
      (planted : Option VisitorRequestContext) (s : S)
      → starts_with widget_path_prefix request.path ≡ true
      → visitor_gate_middleware unicode loads gate
          (record request { visitor_context = planted })
          next
          s
        ≡ visitor_gate_middleware unicode loads gate request next s
  unfolding visitor_gate_middleware
  middleware-overwrites gate request next planted s on =
      elim (Result-cases
        (declares_more unicode (request.header (codes "content-length")) gate.max_body_bytes)) [
          | inr (e, failed) ↦ ground arith
          | inl (true, more) ↦ ground arith
          | inl (false, fits) ↦ ground (arith, admit_overwrites gate request next planted s)
        ]

  -- Off the widget path the gate does nothing.
  pub middleware-passes :
      (gate : VisitorGate S) (request : Request S) (next : Request S → Action S Response) (s : S)
      → starts_with widget_path_prefix request.path ≡ false
      → visitor_gate_middleware unicode loads gate request next s ≡ next request s
  unfolding visitor_gate_middleware
  middleware-passes gate request next s off = rw off refl

  -- On the widget path, where the declared length is not over the limit and the body can be read: a
  -- visit that is refused with an `AppError` is answered with its problem response, and no handler
  -- runs.
  pub middleware-refuses :
      (gate : VisitorGate S) (request : Request S) (next : Request S → Action S Response)
      (body : Bytes) (error : AppError) (s t u : S)
      → starts_with widget_path_prefix request.path ≡ true
      → declares_more unicode (request.header (codes "content-length")) gate.max_body_bytes
        ≡ ok false
      → request.read_body s ≡ (ok body, t)
      → authorize unicode loads gate (visit_of request body) t ≡ (raised (app error), u)
      → visitor_gate_middleware unicode loads gate request next s
        ≡ (ok (app_error_response error request.path), u)
  unfolding visitor_gate_middleware admit proceed
  middleware-refuses gate request next body error s t u on fits reads refused = ground arith
