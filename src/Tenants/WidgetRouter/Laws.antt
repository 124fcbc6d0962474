-- ===== src/Tenants/WidgetRouter/Laws.antt =====
-- Who gets an answer at the visitor's endpoint.
use honest_agent.Prelude.{◌≡◌, ◌≢◌, true, false, none, arith}
use honest_agent.Py.Str.{Str, codes, starts_with}
use honest_agent.Py.Unicode.{Unicode}
use honest_agent.Py.Value.{Value}
use honest_agent.Py.Exec.{Result, ok}
use honest_agent.Core.Errors.{Response, app_error_response, authentication_error}
use honest_agent.Agent.Schemas.{AnswerResult}
use honest_agent.Agent.Service.{answer_in_process}
use honest_agent.Tenants.Contexts.{VisitorRequestContext}
use honest_agent.Tenants.Gate.Checks.{declares_more}
use honest_agent.Tenants.Gate.Authorize.{Cleared, authorize_iff}
use honest_agent.Tenants.Gate.Middleware.{middleware-fail_closed}
use honest_agent.Tenants.Gate.{
  admit, proceed, Bytes, VisitorGate, Request, visit_of, widget_path_prefix, authorize,
  visitor_gate_middleware,
}
use honest_agent.Tenants.WidgetRouter.{widget_endpoint, widget_door}

-- With no context from the gate the endpoint answers 401, and never with an answer of the core.
pub widget_endpoint-ungated :
    {S : Type 0} (core : Str → Str → AnswerResult) (render : AnswerResult → Response)
    (request : Request S) (s : S)
    → request.visitor_context ≡ none
    → widget_endpoint core render request s ≡ (
      ok (
          app_error_response
            (record { kind = authentication_error; detail = codes "visitor gate did not run" })
            request.path),
      s,
    )
unfolding widget_endpoint
widget_endpoint-ungated core render request s h = ground arith

module _ {S : Type 0} (unicode : Unicode) (loads : Bytes → Result Value) where
  -- On the widget path, where the declared length is not over the limit and the body can be read: a
  -- visit that the gate has cleared is answered by the core, for the tenant of the key's row and
  -- for the query of the body.
  pub widget_door_answers :
      (core : Str → Str → AnswerResult) (render : AnswerResult → Response) (gate : VisitorGate S)
      (request : Request S) (body : Bytes) (context : VisitorRequestContext) (s t u : S)
      → starts_with widget_path_prefix request.path ≡ true
      → declares_more unicode (request.header (codes "content-length")) gate.max_body_bytes
        ≡ ok false
      → request.read_body s ≡ (ok body, t)
      → (cleared : Cleared unicode loads gate (visit_of request body) t u context)
      → widget_door core render unicode loads gate request s
        ≡ (ok (render (core cleared.found.tenant_id context.query)), u)
  unfolding widget_door visitor_gate_middleware admit proceed answer_in_process
  widget_door_answers core render gate request body context s t u on fits reads cleared = ground (
    arith,
    (authorize_iff unicode loads gate (visit_of request body) t u context).1 cleared,
    cleared.tenant,
  )

  -- On the widget path, where no visit with the request's headers is let in, what the door answers
  -- has nothing of what the core answers: it is the same however answers are rendered.
  widget_door-closed :
      (core : Str → Str → AnswerResult) (render render' : AnswerResult → Response)
      (gate : VisitorGate S) (request : Request S) (s : S)
      → starts_with widget_path_prefix request.path ≡ true
      → ((body : Bytes) (context : VisitorRequestContext) (t u : S)
          → authorize unicode loads gate (visit_of request body) t ≢ (ok context, u))
      → widget_door core render unicode loads gate request s
        ≡ widget_door core render' unicode loads gate request s
  unfolding widget_door
  widget_door-closed core render render' gate request s on shut =
      middleware-fail_closed unicode loads gate request (widget_endpoint core render)
        (widget_endpoint core render') s on (λ body context t u e. absurd (shut body context t u e))
