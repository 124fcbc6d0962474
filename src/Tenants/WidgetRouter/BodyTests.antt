-- ===== src/Tenants/WidgetRouter/BodyTests.antt =====
-- Bodies at the gate and at the visitor's door.
use honest_agent.Prelude.{ℕ, ◌≡◌, refl, ◌↔◌, true, false, List, [], ◌∷◌, arith, all, leb, length}
use honest_agent.Py.Str.{Str, codes, is_empty, strip}
use honest_agent.Py.Str.Decimal.{decimal}
use honest_agent.Py.Unicode.{ascii_unicode}
use honest_agent.Py.Utf8.RoundTrip.{is_scalar, encode}
use honest_agent.Py.Value.{Float, Fields, obj, str, null, int, pos, arr, item, no_items, field, end}
use honest_agent.Py.Exec.{Exception, unicode_decode_error, ok, raised}
use honest_agent.Py.Json.Decode.{Interpreter, is_ws, loads}
use honest_agent.Py.Json.Print.{print, dict_of, is_readable, print_chars, print_int}
use honest_agent.Py.Json.Print.Dicts.{last_at}
use honest_agent.Py.Json.Refused.{nested}
use honest_agent.Core.Handlers.{answered_status}
use honest_agent.Core.Errors.{Response}
use honest_agent.Agent.Schemas.{refusal, AnswerResult, model_dump}
use honest_agent.Tenants.WidgetKeys.{WidgetKeyRecord}
use honest_agent.Tenants.Gate.{VisitorGate, Request}
use honest_agent.Tenants.Gate.Checks.{sanitize_query}
use honest_agent.Tenants.Gate.Bodies.{
  sanitize_query-raised, too_deep, sanitize_query-Undecodable, Rejected,
}
use honest_agent.Tenants.Gate.Tests.{visiting, gate}
use honest_agent.Tenants.Gate.Middleware.Tests.{good_request, on_path}
use honest_agent.Tenants.WidgetRouter.{widget_door}
use honest_agent.Tenants.WidgetRouter.Bodies.{Passed, widget_door-print}

abbrev python : Interpreter
python = record { depth = 2; parse_float = λ s. 0 }

abbrev unprinted : Float → Str
unprinted x = []

-- {"tenant_id": "tenant-b", "query": "a", "tags": [7], "query": "é\n"}
abbrev entries : Fields
entries = field (codes "tenant_id") (str (codes "tenant-b")) (
    field (codes "query") (str (codes "a")) (
      field (codes "tags") (arr (item (int (pos 7)) no_items))
        (field (codes "query") (str (0xe9 ∷ 10 ∷ [])) end)))

abbrev body : List ℕ
body = encode (print unprinted (codes " ") (obj entries))

blank : all is_ws (codes " ") ≡ true
unfolding is_ws codes
blank = refl

readable : is_readable 2 (obj entries) ≡ true
unfolding is_readable codes is_scalar decimal
readable = refl

last : last_at (codes "query") null entries ≡ str (0xe9 ∷ 10 ∷ [])
unfolding last_at visiting dict_of
last = refl

sanitize_query-raised_example :
    (sanitize_query (loads python) (0x80 ∷ 0x80 ∷ []) ≡ raised unicode_decode_error)
    ↔ Rejected python (0x80 ∷ 0x80 ∷ []) unicode_decode_error
sanitize_query-raised_example = sanitize_query-raised python (0x80 ∷ 0x80 ∷ []) unicode_decode_error

sanitize_query-Undecodable_example :
    (e : Exception) × (sanitize_query (loads python) (nested 3 (codes "}")) ≡ raised e)
    × (answered_status e ≡ 500)
sanitize_query-Undecodable_example =
    sanitize_query-Undecodable python (too_deep 3 (codes "}") (omega arith) (unfold codes in refl))

abbrev wide_gate : VisitorGate ℕ
wide_gate = record gate { max_body_bytes = pos 4096 }

abbrev request : Request ℕ
request = record good_request { read_body = λ n. (ok body, n) }

abbrev row : WidgetKeyRecord
row = record { tenant_id = codes "tenant-a"; allowed_hosts = codes "a.example" ∷ [] }

short : leb (length body) 4096 ≡ true
unfolding encode print print_chars print_int codes
short = refl

request-Passed : Passed ascii_unicode wide_gate request body row 0 1
unfolding visiting
request-Passed = record {
  key = codes "wk_a";
  t = 0;
  v = 0;
  on_path = on_path;
  declared = refl;
  received = refl;
  fits = (4096, refl, ground (arith, short));
  has_key = refl;
  is_known = refl;
  origin_passes = refl;
  under_limit = refl;
}

abbrev render : AnswerResult → Response
render r = record {
  status_code = 200;
  media_type = codes "application/json";
  content = model_dump r;
}

-- A core that shows for whom and to what it answers.
abbrev tells : Str → Str → AnswerResult
tells tenant_id query = record { answer = query; verdict = refusal (record { reason = tenant_id }) }

not_blank : is_empty (strip (0xe9 ∷ 10 ∷ [])) ≡ false
unfolding strip is_empty
not_blank = refl

widget_door-print_example :
    widget_door tells render ascii_unicode (loads python) wide_gate request 0
    ≡ (ok (render (tells (codes "tenant-a") (0xe9 ∷ 10 ∷ []))), 1)
widget_door-print_example =
    widget_door-print ascii_unicode python unprinted (codes " ") entries (0xe9 ∷ 10 ∷ []) tells
      render wide_gate request row 0 1 blank readable last not_blank request-Passed
