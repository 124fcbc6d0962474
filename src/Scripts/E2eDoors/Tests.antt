-- ===== src/Scripts/E2eDoors/Tests.antt =====
-- The checks against a stand-in for the running app.
use honest_agent.Prelude.{ℕ, ◌+◌, ◌≡◌, refl, true, some, none, [], ◌∷◌, if◌then◌else◌}
use honest_agent.Py.Str.{Str, codes, str_eq, member}
use honest_agent.Py.Str.Decimal.{decimal}
use honest_agent.Py.Dict.{Dict, lookup}
use honest_agent.Py.Value.{Value, str, obj, end, field, get, find}
use honest_agent.Py.Exec.{Exception, external, ok, raised, for_each}
use honest_agent.Py.Http.{HttpResponse}
use honest_agent.Core.Db.{with_context, returned}
use honest_agent.Core.Settings.{default_settings}
use honest_agent.Core.Settings.Sample.{sample_settings}
use honest_agent.Mcp.Tokens.{mint_mcp_token}
use honest_agent.Mcp.Tokens.Plain.{plain_jwt, whole, encode_claims, frame}
use honest_agent.Scripts.SeedLocal.{is_text}
use honest_agent.Scripts.E2eDoors.Checks.{
  Results, check, labelled, token_of, has_text, is_tenant_a, is_grounded, reaches_core, has_status,
  expect, failures, exit_code,
}
use honest_agent.Scripts.E2eDoors.Web.{
  HttpClient, token_url, api_key, supabase_owner_token, owner_checks, owner_door, ask,
  visitor_checks, visitor_door,
}
use honest_agent.Scripts.E2eDoors.Session.{
  McpClient, is_some, check_called, check_refused, mcp_call, expect_called, expect_refused,
  mcp_door,
}
use honest_agent.Scripts.E2eDoors.{good_token, doors, main}

checking : Unit {0}
unfolding check labelled token_of has_text is_tenant_a is_grounded reaches_core token_url api_key
    supabase_owner_token owner_checks owner_door ask visitor_checks visitor_door has_status expect
    is_some check_called check_refused mcp_call expect_called expect_refused mcp_door failures
    exit_code good_token doors main for_each decimal lookup get find is_text with_context returned
    member mint_mcp_token
checking = tt

abbrev answer_with : ℕ → Value → HttpResponse
answer_with status payload = record {
  status_code = status;
  raise_for_status = ok tt;
  json = ok payload;
}

-- The value at a name of a header, or the empty text.
abbrev header : Str → Dict Str → Str
header name headers = elim (lookup name headers) [ none ↦ [] | some v ↦ v ]

abbrev grounded : Value
grounded = obj (
    field (codes "access_token") (str (codes "jwt"))
      (field (codes "verdict") (obj (field (codes "kind") (str (codes "grounded")) end)) end))

-- The state counts the requests.
abbrev web : HttpClient ℕ
web = record {
  get = λ url headers n. (
    ok (
        if str_eq (header (codes "Authorization") headers) (codes "Bearer jwt")
        then answer_with 200 (obj (field (codes "tenant_id") (str (codes "tenant-a")) end))
        else answer_with 401 (obj end)),
    n + 1,
  );
  post = λ url params headers body n. (
    ok (
        if str_eq (header (codes "Origin") headers) (codes "https://evil.com")
        then answer_with 403 (obj end)
        else if str_eq (header (codes "X-Widget-Key") headers) (codes "wk_unknown")
        then answer_with 401 (obj end)
        else answer_with 200 grounded),
    n + 1,
  );
}

abbrev mcp : McpClient ℕ
mcp = record {
  connect = λ url headers n. (
    if str_eq (header (codes "Origin") headers) (codes "https://evil.com")
        then raised (external 1)
        else if str_eq (header (codes "Authorization") headers) (codes "Bearer not-a-real-token")
        then raised (external 1)
        else ok tt,
    n + 1,
  );
  disconnect = λ returned n. (ok tt, n);
  enter = λ n. (ok tt, n);
  leave = λ returned n. (ok tt, n);
  initialize = λ n. (ok tt, n);
  list_tools = λ n. (ok (codes "answer" ∷ []), n);
  call_tool = λ name arguments n. (ok (some (obj end)), n);
}

abbrev format : Value → Str
format (str s) = s
format _ = []

abbrev repr : Exception → Str
repr e = codes "Error()"

abbrev base_url : Str
base_url = codes "http://127.0.0.1:8000"

abbrev full_run : Results
full_run =
    (true, codes "valid Supabase token accepted, tenant resolved (200)")
    ∷ (true, codes "no token rejected (401)")
    ∷ (true, codes "garbage token rejected (401)")
    ∷ (true, codes "allowed key + origin reaches core, verdict fused (200)")
    ∷ (true, codes "disallowed origin 403 (403)")
    ∷ (true, codes "unknown key rejected (401)")
    ∷ (true, codes "valid token + origin: listed and called the tool")
    ∷ (true, codes "bad token refused")
    ∷ (true, codes "disallowed origin refused")
    ∷ []

whole_run :
    main web mcp plain_jwt whole format repr base_url sample_settings 10 (0, [])
    ≡ (ok 0, (10, full_run))
unfolding checking codes encode_claims frame default_settings
whole_run = refl

abbrev no_failure : ℕ
no_failure = 0
