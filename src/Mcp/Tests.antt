-- ===== src/Mcp/Tests.antt =====
-- A token library over a plain serialization, and callers at the MCP door.
use honest_agent.Prelude.{
  ℕ, ◌+◌, String, ◌≡◌, refl, ◌≢◌, ◌↔◌, true, ◌&&◌, none, some, [], ◌∷◌, ◌++◌, arith, ltb, leb,
  if◌then◌else◌,
}
use honest_agent.Py.Str.{Str, codes, str_eq}
use honest_agent.Py.Dict.{Dict, lookup, assign}
use honest_agent.Py.Unicode.{ascii_unicode, ascii_unicode_laws}
use honest_agent.Py.Utf8.{decode}
use honest_agent.Py.Value.{pos, ◌+ℤ◌, get, nonempty_str}
use honest_agent.Py.Exec.{unicode_decode_error, recursion_error, ok, raised, fail, Action}
use honest_agent.Core.Bearer.{parse_bearer}
use honest_agent.Core.Errors.{app_error_response, Response, authentication_error}
use honest_agent.Core.Origins.{authority_allowed}
use honest_agent.Core.Origins.Run.{running}
use honest_agent.Tenants.Contexts.{ExternalCallerContext}
use honest_agent.Mcp.Tokens.{McpTokenVerifier, mcp_options, minted_claims, verify, mint_mcp_token}
use honest_agent.Mcp.Tokens.Library.{is_given, is_current}
use honest_agent.Mcp.Tokens.Plain.{
  frame, split, cut, text_of, number_of, size, write_claims, read_value, read_claims, encode_claims,
  accept, finish, decode_token, plain_jwt, whole, plain_decodes,
}
use honest_agent.Mcp.Server.Checks.{
  McpGuard, decode_headers, check_caller, check_host, check_origin,
}
use honest_agent.Mcp.Server.Laws.{Admissible, check_caller_iff}
use honest_agent.Mcp.Server.Flow.{AgreeOnVerified, mcp_call-fail_closed, mcp_call-restores}
use honest_agent.Mcp.Server.Minted.{Bears, mcp_call-mint_mcp_token}
use honest_agent.Mcp.Server.{World, Scope, instance_of, with_caller, send_out, mcp_call}

abbrev verifier : McpTokenVerifier
verifier = record { secret = codes "s3cret"; issuer = codes "iss"; audience = codes "mcp" }

abbrev minted : (audience tenant : String) → Str
minted audience tenant =
    mint_mcp_token plain_jwt whole 10 (codes "s3cret") (codes "iss") (codes audience) (codes tenant)
      (pos 60)

unfoldable pub calling : Unit {0}
unfolding running codes ◌+ℤ◌ get nonempty_str lookup assign verify mint_mcp_token is_current
    parse_bearer check_caller check_host check_origin decode_headers decode encode_claims
    decode_token finish cut split frame text_of number_of is_given size write_claims read_value
    read_claims accept minted_claims mcp_options send_out mcp_call
calling = tt

-- A token for tenant A, in time; the same for another audience; the same too late.
verify_tests :
    (verify plain_jwt verifier 20 (minted "mcp" "tenant-a")
      ≡ ok (record { tenant_id = codes "tenant-a" }))
    × (verify plain_jwt verifier 20 (minted "other" "tenant-a")
        ≡ fail authentication_error (codes "mcp token verification failed"))
    × (verify plain_jwt verifier 80 (minted "mcp" "tenant-a")
        ≡ fail authentication_error (codes "mcp token verification failed"))
unfolding calling
verify_tests = (refl, refl, refl)

tenant_given : codes "tenant-a" ≢ []
unfolding calling
tenant_given h = ground arith

abbrev caller : ExternalCallerContext
caller = record { tenant_id = codes "tenant-a" }

abbrev guard : McpGuard
guard = record {
  verifier = verifier;
  allowed_origin_hosts = codes "claude.ai" ∷ [];
  allowed_request_hosts = codes "localhost" ∷ [];
}

abbrev headers_for : String → Dict Str
headers_for host =
    (codes "host", codes host)
    ∷ (codes "authorization", codes "Bearer " ++ minted "mcp" "tenant-a")
    ∷ []

abbrev scope_for : String → Scope
scope_for host = record {
  type = codes "http";
  headers =
      (codes "Host", codes host)
      ∷ (codes "Authorization", codes "Bearer " ++ minted "mcp" "tenant-a")
      ∷ [];
  path = none;
}

decode_headers_good :
    decode_headers ascii_unicode (scope_for "localhost:8000").headers
    ≡ ok (headers_for "localhost:8000")
unfolding calling
decode_headers_good = refl

decode_headers_evil :
    decode_headers ascii_unicode (scope_for "evil.example").headers
    ≡ ok (headers_for "evil.example")
unfolding calling
decode_headers_evil = refl

check_caller_good :
    check_caller ascii_unicode plain_jwt guard 20 (headers_for "localhost:8000") ≡ ok caller
unfolding calling
check_caller_good = refl

check_caller_iff_example :
    (check_caller ascii_unicode plain_jwt guard 20 (headers_for "localhost:8000") ≡ ok caller)
    ↔ Admissible ascii_unicode plain_jwt guard 20 (headers_for "localhost:8000") caller
check_caller_iff_example =
    check_caller_iff ascii_unicode plain_jwt guard 20 (headers_for "localhost:8000") caller

-- The world outside counts the responses that are sent.
abbrev send : Response → Action ℕ (Unit {0})
send response n = (ok tt, n + 1)

abbrev start : World ℕ
start = record { external_caller = none; outer = 0 }

-- An app that leaves its caller and some output behind.
abbrev sloppy : Scope → Action (World ℕ) (Unit {0})
sloppy scope world =
    (raised recursion_error, record { external_caller = some caller; outer = world.outer + 5 })

-- The same where there is a caller, and another where there is none.
abbrev choosy : Scope → Action (World ℕ) (Unit {0})
choosy scope world = elim world.external_caller [
  | none ↦ (ok tt, world)
  | some c ↦ sloppy scope world
]

http_type : str_eq (codes "http") (codes "http") ≡ true
unfolding calling
http_type = refl

sloppy-agrees-choosy :
    AgreeOnVerified send ascii_unicode plain_jwt guard 20 (scope_for "localhost:8000") sloppy choosy
sloppy-agrees-choosy headers c world decoded admissible given = ground arith

mcp_call-fail_closed_example :
    mcp_call send ascii_unicode plain_jwt guard 20 sloppy (scope_for "localhost:8000") start
    ≡ mcp_call send ascii_unicode plain_jwt guard 20 choosy (scope_for "localhost:8000") start
mcp_call-fail_closed_example =
    mcp_call-fail_closed send ascii_unicode plain_jwt guard 20 (scope_for "localhost:8000") sloppy
      choosy start http_type sloppy-agrees-choosy

mcp_call-restores_example :
    (mcp_call send ascii_unicode plain_jwt guard 20 sloppy
      (scope_for "localhost:8000")
      start).1.external_caller
    ≡ none
mcp_call-restores_example =
    mcp_call-restores send ascii_unicode plain_jwt guard 20 (scope_for "localhost:8000") sloppy
      start http_type

abbrev token : Str
token = minted "mcp" "tenant-a"

served :
    authority_allowed ascii_unicode (codes "localhost:8000") guard.allowed_request_hosts ≡ ok true
unfolding calling
served = refl

bears : Bears ascii_unicode guard (scope_for "localhost:8000") token
unfolding calling
bears = record {
  http = http_type;
  headers = headers_for "localhost:8000";
  decoded = decode_headers_good;
  host = codes "localhost:8000";
  has_host = refl;
  host_served = served;
  no_origin = refl;
  authorization = refl;
  unpadded = refl;
  given = refl;
}

mcp_call-mint_mcp_token_example :
    mcp_call send ascii_unicode plain_jwt guard 20 sloppy (scope_for "localhost:8000") start ≡ (
      if str_eq (codes "s3cret") (codes "s3cret")
        && str_eq (codes "iss") (codes "iss")
        && str_eq (codes "mcp") (codes "mcp")
        && ltb 20 (10 + 60 + 10)
        && leb 10 (20 + 10)
      then with_caller caller (sloppy (scope_for "localhost:8000")) start
      else send_out send
          (app_error_response
            (record { kind = authentication_error; detail = codes "mcp token verification failed" })
            (instance_of (scope_for "localhost:8000")))
          start)
mcp_call-mint_mcp_token_example =
    mcp_call-mint_mcp_token send ascii_unicode plain_jwt whole guard 10 20 (codes "s3cret")
      (codes "iss") (codes "mcp") (codes "tenant-a") 60 sloppy (scope_for "localhost:8000") start
      ascii_unicode_laws plain_decodes tenant_given bears

-- A lone continuation byte in a header's value.
abbrev garbled : Scope
garbled = record { type = codes "http"; headers = (codes "x", 0x80 ∷ []) ∷ []; path = none }

garbled_headers : decode_headers ascii_unicode garbled.headers ≡ raised unicode_decode_error
unfolding calling
garbled_headers = refl
