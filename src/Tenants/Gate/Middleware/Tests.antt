-- ===== src/Tenants/Gate/Middleware/Tests.antt =====
-- Requests at the gate's middleware, before a handler that answers with what it was given.
use honest_agent.Prelude.{
  ℕ, ◌≡◌, refl, true, false, Option, none, some, [], arith, if◌then◌else◌, ◌≤◌, ltb, length,
}
use honest_agent.Py.Str.{Str, codes, str_eq, starts_with}
use honest_agent.Py.Unicode.{ascii_unicode, is_ascii_digit}
use honest_agent.Py.Value.{pos, Value, null, str}
use honest_agent.Py.Exec.{recursion_error, ok, raised, Action, pure, lift}
use honest_agent.Core.Errors.{Response, tenant_access_error}
use honest_agent.Tenants.Contexts.{VisitorRequestContext}
use honest_agent.Tenants.Gate.{
  Visit, Request, authorize, visit_of, widget_path_prefix, visitor_gate_middleware, admit,
}
use honest_agent.Tenants.Gate.Checks.{declares_more}
use honest_agent.Tenants.Gate.Denials.{refusal}
use honest_agent.Tenants.Gate.Middleware.{middleware-fail_closed}
use honest_agent.Tenants.Gate.Declared.{ReadsDigits, middleware-declared}
use honest_agent.Py.Str.Decimal.{decimal}
use honest_agent.Py.Json.Numbers.{is_decimal}
use honest_agent.Tenants.Gate.Tests.{visiting, gate, loads}

-- The headers of a request: the key of tenant A, an origin and a declared length.
abbrev pub headers_of : (origin declared : Option Str) → Str → Option Str
headers_of origin declared name =
    if str_eq name (codes "x-widget-key")
    then some (codes "wk_a")
    else if str_eq name (codes "origin")
    then origin
    else if str_eq name (codes "content-length")
    then declared
    else none

abbrev pub request_of : (origin declared : Option Str) → Request ℕ
request_of origin declared = record {
  path = codes "/v1/widget/answer";
  header = headers_of origin declared;
  client_host = none;
  read_body = λ n. (ok (codes "{}"), n);
  visitor_context = none;
}

abbrev pub good_request : Request ℕ
good_request = request_of (some (codes "https://a.example")) none

abbrev long_request : Request ℕ
long_request = request_of (some (codes "https://a.example")) (some (codes "4096"))

abbrev foreign_request : Request ℕ
foreign_request = request_of (some (codes "https://evil.example")) none

shown : Option VisitorRequestContext → Value
shown none = null
shown (some c) = str c.tenant_id

-- A handler that answers with the tenant.
abbrev echo : ℕ → Request ℕ → Action ℕ Response
echo status request =
    pure (record { status_code = status; media_type = []; content = shown request.visitor_context })

-- One that serves only what is admitted.
abbrev guarded : Request ℕ → Action ℕ Response
guarded request = elim request.visitor_context [
  | none ↦ lift (raised recursion_error)
  | some c ↦ echo 200 request
]

pub on_path : starts_with widget_path_prefix (codes "/v1/widget/answer") ≡ true
unfolding visiting
on_path = refl

middleware-fail_closed_example :
    visitor_gate_middleware ascii_unicode loads gate good_request (echo 200) 0
    ≡ visitor_gate_middleware ascii_unicode loads gate good_request guarded 0
middleware-fail_closed_example =
    middleware-fail_closed ascii_unicode loads gate good_request (echo 200) guarded 0 on_path
      (λ body c s t h. refl)

four_thousand : decimal 4096 ≡ codes "4096"
unfolding decimal codes
four_thousand = refl

long_length : long_request.header (codes "content-length") ≡ some (decimal 4096)
unfolding visiting
long_length = rw four_thousand refl

short_number : length (decimal 4096) ≤ 4300
short_number = rw four_thousand (unfold codes in omega arith)

reads : ReadsDigits ascii_unicode
unfolding is_decimal is_ascii_digit
reads = record { is_digit = λ c h. h; digit_value = λ d h. ground arith }

middleware-declared_example :
    (response : Response) × (response.status_code ≡ 413)
    × (visitor_gate_middleware ascii_unicode loads gate long_request (echo 200) 0 ≡ (
        if ltb 20 4096
        then (ok response, 0)
        else admit ascii_unicode loads gate long_request (echo 200) 0))
middleware-declared_example =
    middleware-declared ascii_unicode reads loads gate long_request (echo 200) 4096 20 0 refl
      on_path long_length short_number

pub undeclared :
    declares_more ascii_unicode (good_request.header (codes "content-length")) (pos 20) ≡ ok false
unfolding visiting
undeclared = refl

abbrev foreign_visit : Visit
foreign_visit = visit_of foreign_request (codes "{}")

foreign_refused :
    authorize ascii_unicode loads gate foreign_visit 0
    ≡ (raised (refusal tenant_access_error "origin not allowed"), 0)
unfolding visiting
foreign_refused = refl

foreign_undeclared :
    declares_more ascii_unicode (foreign_request.header (codes "content-length")) (pos 20)
    ≡ ok false
unfolding visiting
foreign_undeclared = refl
