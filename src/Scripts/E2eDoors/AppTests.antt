-- ===== src/Scripts/E2eDoors/AppTests.antt =====
-- The visitor's checks against a client that runs the modelled door.
use honest_agent.Prelude.{
  ℕ, ◌≤◌, ◌≡◌, refl, true, Option, some, none, [], ◌∷◌, arith, length, if◌then◌else◌,
}
use honest_agent.Py.Str.{Str, codes, str_eq}
use honest_agent.Py.Dict.{lookup}
use honest_agent.Py.Unicode.{ascii_unicode, ascii_unicode_laws}
use honest_agent.Py.Value.{pos, Value, str, obj, null, get}
use honest_agent.Py.Exec.{Result, ok, raised}
use honest_agent.Py.Http.{HttpResponse}
use honest_agent.Core.Errors.{Response}
use honest_agent.Agent.Service.{answer}
use honest_agent.Agent.Schemas.{AnswerResult, model_dump}
use honest_agent.Tenants.WidgetKeys.{in_memory_store}
use honest_agent.Tenants.RateLimit.{allow_all_rate_limiter}
use honest_agent.Tenants.Gate.{Bytes, VisitorGate, Request}
use honest_agent.Tenants.Gate.Tests.{visiting}
use honest_agent.Tenants.WidgetRouter.{widget_door}
use honest_agent.Scripts.E2eDoors.Checks.{Results, query_of}
use honest_agent.Scripts.E2eDoors.Web.{HttpClient, answer_path, ask, visitor_door}
use honest_agent.Scripts.E2eDoors.Counts.{passed_all}
use honest_agent.Scripts.E2eDoors.Served.{seeded_key, seeded_record, Seeded, Asks}
use honest_agent.Scripts.E2eDoors.Passes.{Serves, Renders, visitor_door-passes}

abbrev render : AnswerResult → Response
render r = record {
  status_code = 200;
  media_type = codes "application/json";
  content = model_dump r;
}

-- A body is the text of its question.
abbrev loads : Bytes → Result Value
loads body = ok (query_of body)

abbrev gate : VisitorGate ℕ
gate = record {
  store = in_memory_store ((seeded_key, seeded_record) ∷ []);
  rate_limiter = allow_all_rate_limiter;
  max_body_bytes = pos 100;
}

abbrev request_for : (widget_key origin query : Str) → Request ℕ
request_for widget_key origin query = record {
  path = answer_path;
  header = λ name.
      if str_eq name (codes "x-widget-key")
      then some widget_key
      else if str_eq name (codes "origin")
      then some origin
      else none;
  client_host = none;
  read_body = λ n. (ok query, n);
  visitor_context = none;
}

abbrev received : Response → HttpResponse
received response = record {
  status_code = response.status_code;
  raise_for_status = ok tt;
  json = ok response.content;
}

receive : Result Response → Result HttpResponse
receive (ok response) = ok (received response)
receive (raised e) = raised e

abbrev text_or_empty : Option Str → Str
text_or_empty none = []
text_or_empty (some s) = s

abbrev question : Value → Str
question (obj fields) = elim (get (codes "query") fields) [ str s ↦ s | _ ↦ [] ]
question _ = []

abbrev client : HttpClient ℕ
client = record {
  get = λ url headers n.
      (ok (received (record { status_code = 404; media_type = []; content = null })), n);
  post = λ url params headers body n.
      let (r, t) =
        widget_door answer render ascii_unicode loads gate
          (request_for (text_or_empty (lookup (codes "X-Widget-Key") headers))
            (text_or_empty (lookup (codes "Origin") headers)) (question body))
          n in
      (receive r, t);
}

abbrev format : Value → Str
format v = []

seeded : Seeded gate
unfolding visiting allow_all_rate_limiter
seeded = record { known = λ s. refl; unknown = λ s. refl; allows = λ key ip s. refl }

asks :
    (widget_key origin query : Str)
    → length query ≤ 100
    → Asks ascii_unicode loads gate (request_for widget_key origin query) widget_key origin query
unfolding visiting
asks widget_key origin query short = record {
  on_path = refl;
  has_key = refl;
  has_origin = refl;
  declared = refl;
  body = query;
  reads = λ s. refl;
  fits = (100, refl, short);
  json = refl;
}

served :
    (widget_key origin query : Str) (response : Response) (s t : ℕ)
    → widget_door answer render ascii_unicode loads gate (request_for widget_key origin query) s
      ≡ (ok response, t)
    → ask client format [] widget_key origin query s ≡ (ok (received response), t)
served widget_key origin query response s t h =
    unfold ask lookup get codes str_eq receive in ground arith

serves : Serves ascii_unicode loads render gate client format []
serves = record {
  request = request_for;
  asks = asks;
  received = received;
  same_status = λ response. refl;
  same_content = λ response. refl;
  served = served;
}

renders : Renders render
renders = record { fine = λ r. refl; dumped = λ r. refl }

visitor_door-passes_example :
    (results : Results) × (visitor_door client format [] (0, []) ≡ (ok tt, (0, results)))
    × (length results ≡ 3)
    × (passed_all results ≡ true)
visitor_door-passes_example =
    visitor_door-passes ascii_unicode loads render gate client format [] 0 ascii_unicode_laws seeded
      renders serves
