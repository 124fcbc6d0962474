-- ===== src/Tenants/Gate/Tests.antt =====
-- A gate with two keys and a limiter that lets two calls through, and the visits that it gets.
use honest_agent.Prelude.{
  ℕ, ◌+◌, String, ◌≡◌, refl, ◌↔◌, true, none, some, [], ◌∷◌, ltb, if◌then◌else◌, all,
}
use honest_agent.Py.Str.{codes, has}
use honest_agent.Py.Dict.{Dict, lookup}
use honest_agent.Py.Unicode.{ascii_unicode, ascii_unicode_laws}
use honest_agent.Py.Url.{is_scheme}
use honest_agent.Py.Url.Plain.{is_host_char}
use honest_agent.Py.Url.Laws.{open_bracket_text}
use honest_agent.Py.Value.{pos, Value, str, obj, end, field, get}
use honest_agent.Py.Exec.{Exception, json_decode_error, Result, ok, raised}
use honest_agent.Core.Errors.{authentication_error, rate_limited_error, tenant_access_error}
use honest_agent.Core.Handlers.{answered_status}
use honest_agent.Core.Origins.Run.{running}
use honest_agent.Tenants.Contexts.{VisitorRequestContext}
use honest_agent.Tenants.WidgetKeys.{WidgetKeyRecord, in_memory_store}
use honest_agent.Tenants.Gate.{
  Bytes, VisitorGate, Visit, authorize, visit_of, admit, proceed, visitor_gate_middleware,
}
use honest_agent.Tenants.Gate.Checks.{check_origin, sanitize_query, exceeds, declares_more}
use honest_agent.Tenants.Gate.Authorize.{Cleared, authorize_iff}
use honest_agent.Tenants.Gate.Denials.{Denied, denied_iff, refusal}
use honest_agent.Tenants.Gate.Inputs.{check_origin-open_bracket}

-- Everything that a visit runs through.
unfoldable pub visiting : Unit {0}
unfolding running authorize in_memory_store lookup check_origin sanitize_query get visit_of proceed
    admit visitor_gate_middleware declares_more exceeds
visiting = tt

abbrev pub records : Dict WidgetKeyRecord
records =
    (codes "wk_a", record { tenant_id = codes "tenant-a"; allowed_hosts = codes "a.example" ∷ [] })
    ∷ (
      codes "wk_b",
      record { tenant_id = codes "tenant-b"; allowed_hosts = codes "b.example" ∷ [] },
    )
    ∷ []

-- The state counts the calls of the limiter.
abbrev pub gate : VisitorGate ℕ
gate = record {
  store = in_memory_store records;
  rate_limiter = record { check = λ widget_key client_ip n. (ok (ltb n 2), n + 1) };
  max_body_bytes = pos 20;
}

-- Reads the one document of these tests.
abbrev pub loads : Bytes → Result Value
loads body =
    if has b'{' body
    then ok (
        obj (
          field (codes "tenant_id") (str (codes "tenant-b"))
            (field (codes "query") (str (codes "hi")) end)))
    else raised json_decode_error

abbrev pub visit_at : String → String → Visit
visit_at key origin = record {
  widget_key = some (codes key);
  origin = some (codes origin);
  referer = none;
  client_ip = none;
  body = codes "{}";
}

abbrev pub good : Visit
good = visit_at "wk_a" "https://a.example"

abbrev pub context : VisitorRequestContext
context = record { tenant_id = codes "tenant-a"; query = codes "hi" }

abbrev unlisted : Visit
unlisted = visit_at "wk_a" "https://b.example"

pub authorize-good : authorize ascii_unicode loads gate good 0 ≡ (ok context, 1)
unfolding visiting
authorize-good = refl

abbrev other_port : Visit
other_port = visit_at "wk_a" "http://A.example:8443"

authorize-port : authorize ascii_unicode loads gate other_port 0 ≡ (ok context, 1)
unfolding visiting
authorize-port = refl

authorize_tests :
    (authorize ascii_unicode loads gate unlisted 0
      ≡ (raised (refusal tenant_access_error "origin not allowed"), 0))
    × (authorize ascii_unicode loads gate good 2
        ≡ (raised (refusal rate_limited_error "rate limit exceeded"), 3))
    × (authorize ascii_unicode loads gate (visit_at "wk_c" "https://a.example") 0
        ≡ (raised (refusal authentication_error "unknown widget key"), 0))
unfolding visiting
authorize_tests = (refl, refl, refl)

authorize_iff_example :
    (authorize ascii_unicode loads gate good 0 ≡ (ok context, 1))
    ↔ Cleared ascii_unicode loads gate good 0 1 context
authorize_iff_example = authorize_iff ascii_unicode loads gate good 0 1 context

denied_iff_example :
    (authorize ascii_unicode loads gate unlisted 0
      ≡ (raised (refusal tenant_access_error "origin not allowed"), 0))
    ↔ Denied ascii_unicode loads gate unlisted 0 0
        (refusal tenant_access_error "origin not allowed")
denied_iff_example =
    denied_iff ascii_unicode loads gate unlisted 0 0
      (refusal tenant_access_error "origin not allowed")

good_scheme : is_scheme (codes "https") ≡ true
unfolding running is_scheme
good_scheme = refl

good_host : all is_host_char (codes "a.example") ≡ true
unfolding running is_host_char
good_host = refl

check_origin-open_bracket_example :
    (e : Exception) × (check_origin ascii_unicode
        (some (open_bracket_text (codes "https") (codes "a.example")))
        none
        (codes "a.example" ∷ [])
      ≡ raised e)
    × (answered_status e ≡ 500)
check_origin-open_bracket_example =
    check_origin-open_bracket ascii_unicode (codes "https") (codes "a.example") none
      (codes "a.example" ∷ []) ascii_unicode_laws good_scheme good_host
