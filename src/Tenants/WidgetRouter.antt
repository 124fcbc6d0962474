-- ===== src/Tenants/WidgetRouter.antt =====
-- backend/src/app/tenants/widget_router.py: the visitor's query endpoint, and the door made of
-- the gate's middleware and this endpoint.
pub mod Laws
pub mod Stores
pub mod Total
pub mod Bodies
pub mod BodyTests
pub mod Tests
use honest_agent.Prelude.{not, Option, none, some}
use honest_agent.Py.Str.{Str, codes}
use honest_agent.Py.Unicode.{Unicode}
use honest_agent.Py.Value.{Value}
use honest_agent.Py.Exec.{Result, ok, fail, Action, lift}
use honest_agent.Core.Errors.{Response, authentication_error}
use honest_agent.Core.Handlers.{handled}
use honest_agent.Agent.Schemas.{AnswerResult}
use honest_agent.Agent.Service.{answer_in_process}
use honest_agent.Tenants.Contexts.{VisitorRequestContext}
use honest_agent.Tenants.Gate.{Bytes, VisitorGate, Request, visitor_gate_middleware}

-- `core` is the core's `answer`.
answer_for : (core : Str → Str → AnswerResult) → Option VisitorRequestContext → Result AnswerResult
answer_for core none = fail authentication_error (codes "visitor gate did not run")
answer_for core (some context) = ok (answer_in_process core context)

unfoldable pub widget_answer :
    {S : Type 0} → (core : Str → Str → AnswerResult) → Request S → Result AnswerResult
unfolding answer_for
widget_answer core request = answer_for core request.visitor_context

module _ {S : Type 0} (core : Str → Str → AnswerResult) (render : AnswerResult → Response) where
  unfoldable pub widget_endpoint : Request S → Action S Response
  unfolding widget_answer handled
  widget_endpoint request = lift (handled request.path render (widget_answer core request))

  -- What a visitor's request to the endpoint meets.
  unfoldable pub widget_door :
      Unicode → (Bytes → Result Value) → VisitorGate S → Request S → Action S Response
  unfolding widget_endpoint visitor_gate_middleware
  widget_door unicode loads gate request =
      visitor_gate_middleware unicode loads gate request widget_endpoint
