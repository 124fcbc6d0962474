-- ===== src/Tenants/WidgetRouter/Bodies.antt =====
-- The visitor's door from the bytes of a body to the answer.
use honest_agent.Prelude.{◌≡◌, refl, ◌∙◌, true, false, some, all, length, arith}
use honest_agent.Py.Str.{Str, codes, is_empty, strip, starts_with}
use honest_agent.Py.Unicode.{Unicode}
use honest_agent.Py.Utf8.RoundTrip.{encode}
use honest_agent.Py.Value.{Float, Fields, obj, str, null}
use honest_agent.Py.Exec.{ok}
use honest_agent.Py.Json.Decode.{Interpreter, is_ws, loads}
use honest_agent.Py.Json.Print.{print, is_readable}
use honest_agent.Py.Json.Print.Dicts.{last_at}
use honest_agent.Core.Errors.{Response}
use honest_agent.Agent.Schemas.{AnswerResult}
use honest_agent.Tenants.WidgetKeys.{WidgetKeyRecord}
use honest_agent.Tenants.Gate.{
  Bytes, VisitorGate, Request, visit_of, widget_key_header, widget_path_prefix,
}
use honest_agent.Tenants.Gate.Limits.{Fits}
use honest_agent.Tenants.Gate.Checks.{given_key, check_origin, query_text, declares_more}
use honest_agent.Tenants.Gate.Bodies.{sanitize_query-print}
use honest_agent.Tenants.WidgetRouter.{widget_door}
use honest_agent.Tenants.WidgetRouter.Laws.{widget_door_answers}

-- What the gate asks of a request before it reads the query: the row, and the states behind the
-- body, the store and the limiter.
pub record Passed {S : Type 0} (unicode : Unicode) (gate : VisitorGate S) (request : Request S)
    (body : Bytes) (found : WidgetKeyRecord) (s u : S) : Type 0 where
  pub key : Str
  pub t : S
  pub v : S
  pub on_path : starts_with widget_path_prefix request.path ≡ true
  pub declared :
      declares_more unicode (request.header (codes "content-length")) gate.max_body_bytes ≡ ok false
  pub received : request.read_body s ≡ (ok body, t)
  pub fits : Fits (length body) gate.max_body_bytes
  pub has_key : given_key (request.header widget_key_header) ≡ some key
  pub is_known : gate.store.lookup key t ≡ (ok (some found), v)
  pub origin_passes :
      check_origin unicode
        (request.header (codes "origin"))
        (request.header (codes "referer"))
        found.allowed_hosts
      ≡ ok tt
  pub under_limit : gate.rate_limiter.check key request.client_host v ≡ (ok true, u)

query_text-str : (query : Str) → is_empty (strip query) ≡ false → query_text (str query) ≡ ok query
unfolding query_text
query_text-str query h = ground arith

-- A visitor whose request passes the gate's other checks, with a body that is a printed JSON
-- object: white space or nothing behind its commas and colons, nested no deeper than the interpreter
-- admits, without floats, surrogates and integers of more than 4300 digits. Where the last `query`
-- entry is a text that is not blank, the door returns the core's answer, whatever the core is, for
-- the tenant of the key's row and for exactly this text, whatever other entries the body smuggles
-- in.
pub widget_door-print :
    {S : Type 0} (unicode : Unicode) (python : Interpreter) (repr : Float → Str) (space : Str)
    (fs : Fields) (query : Str) (core : Str → Str → AnswerResult) (render : AnswerResult → Response)
    (gate : VisitorGate S) (request : Request S) (found : WidgetKeyRecord) (s u : S)
    → all is_ws space ≡ true
    → is_readable python.depth (obj fs) ≡ true
    → last_at (codes "query") null fs ≡ str query
    → is_empty (strip query) ≡ false
    → Passed unicode gate request (encode (print repr space (obj fs))) found s u
    → widget_door core render unicode (loads python) gate request s
      ≡ (ok (render (core found.tenant_id query)), u)
unfolding visit_of
widget_door-print unicode python repr space fs query core render gate request found s u ws r last
      text p =
    widget_door_answers unicode (loads python) core render gate request
      (encode (print repr space (obj fs))) (record { tenant_id = found.tenant_id; query = query }) s
      p.t u p.on_path p.declared p.received
      (record {
        key = p.key;
        found = found;
        t = p.v;
        fits = p.fits;
        has_key = p.has_key;
        is_known = p.is_known;
        origin_passes = p.origin_passes;
        under_limit = p.under_limit;
        tenant = refl;
        query =
            sanitize_query-print python repr space fs ws r ∙ rw last (query_text-str query text);
      })
