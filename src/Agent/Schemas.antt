-- ===== src/Agent/Schemas.antt =====
-- backend/src/app/agent/schemas.py: an answer is grounded or an honest refusal.
use honest_agent.Prelude.{List, [], ◌∷◌}
use honest_agent.Py.Str.{Str, codes}
use honest_agent.Py.Value.{Float, Value, Items, str, float, arr, obj, no_items, item, end, field}

pub record Source : Type 0 where
  pub document_id : Str
  pub chunk_id : Str
  pub score : Float

pub record GroundedAnswer : Type 0 where
  pub answer : Str
  pub sources : List Source

pub record HonestRefusal : Type 0 where
  pub reason : Str

-- The union that `kind` discriminates.
pub data Verdict : Type 0 where
  grounded : GroundedAnswer → Verdict
  refusal : HonestRefusal → Verdict

-- The value of `kind`.
unfoldable pub kind : Verdict → Str
kind (grounded a) = codes "grounded"
kind (refusal r) = codes "refusal"

pub record AnswerResult : Type 0 where
  pub answer : Str
  pub verdict : Verdict

dump_source : Source → Value
dump_source s = obj (
    field (codes "document_id") (str s.document_id)
      (field (codes "chunk_id") (str s.chunk_id) (field (codes "score") (float s.score) end)))

dump_sources : List Source → Items
dump_sources [] = no_items
dump_sources (s ∷ ss) = item (dump_source s) (dump_sources ss)

dump_verdict : Verdict → Value
dump_verdict (grounded a) = obj (
    field (codes "kind") (str (kind (grounded a))) (
      field (codes "answer") (str a.answer)
        (field (codes "sources") (arr (dump_sources a.sources)) end)))
dump_verdict (refusal r) =
    obj (field (codes "kind") (str (kind (refusal r))) (field (codes "reason") (str r.reason) end))

-- `result.model_dump()`.
unfoldable pub model_dump : AnswerResult → Value
unfolding kind dump_verdict dump_sources dump_source
model_dump r =
    obj
      (field (codes "answer") (str r.answer) (field (codes "verdict") (dump_verdict r.verdict) end))
