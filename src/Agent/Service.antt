-- ===== src/Agent/Service.antt =====
-- backend/src/app/agent/service.py, backend/src/app/agent/adapters.py and
-- backend/src/app/retrieval/service.py: the one core `answer` and its two adapters.
use honest_agent.Prelude.{List, [], ◌∷◌}
use honest_agent.Py.Str.{Str, codes}
use honest_agent.Agent.Schemas.{Source, grounded, AnswerResult}
use honest_agent.Tenants.Contexts.{VisitorRequestContext, ExternalCallerContext}

-- One placeholder; the score is 1.0.
unfoldable pub retrieve : Str → Str → List Source
retrieve tenant_id query =
    record {
      document_id = codes "stub-document";
      chunk_id = codes "stub-chunk";
      score = 0x3ff0000000000000;
    }
    ∷ []

unfoldable pub answer : Str → Str → AnswerResult
answer tenant_id query =
    let text = codes "(stub) grounded answer; real grounding and refusal land on Day 6." in
    record {
      answer = text;
      verdict = grounded (record { answer = text; sources = retrieve tenant_id query });
    }

-- The core is an argument here and at the visitor's door, where the program has `answer`: what the
-- adapter hands to it is to be seen also while `answer` looks at neither tenant nor query.
unfoldable pub answer_in_process :
    (core : Str → Str → AnswerResult) → VisitorRequestContext → AnswerResult
answer_in_process core context = core context.tenant_id context.query

unfoldable pub answer_for_external_caller : ExternalCallerContext → Str → AnswerResult
answer_for_external_caller context query = answer context.tenant_id query
