-- ===== src/Mcp/Server/Minted.antt =====
-- A caller at the MCP door with a token that the service has minted.
use honest_agent.Prelude.{
  ℕ, ◌+◌, ◌≡◌, ◌≢◌, true, false, ◌&&◌, some, none, [], ◌++◌, arith, ltb, leb, if◌then◌else◌,
}
use honest_agent.Py.Str.{Str, codes, str_eq, strip, is_empty}
use honest_agent.Py.Dict.{Dict, lookup}
use honest_agent.Py.Unicode.{Unicode, UnicodeLaws}
use honest_agent.Py.Value.{pos, Float}
use honest_agent.Py.Exec.{ok, Action}
use honest_agent.Py.Jwt.{Jwt, Floats}
use honest_agent.Core.Bearer.Laws.{parse_bearer-Bearer}
use honest_agent.Core.Errors.{Response, app_error_response, authentication_error}
use honest_agent.Core.Origins.{authority_allowed}
use honest_agent.Mcp.Tokens.{verify, mint_mcp_token}
use honest_agent.Mcp.Tokens.Library.{DecodesOwnTokens}
use honest_agent.Mcp.Tokens.Laws.{verify-mint_mcp_token}
use honest_agent.Mcp.Server.Checks.{
  McpGuard, decode_headers, check_host, check_origin, check_caller,
}
use honest_agent.Mcp.Server.{World, Scope, instance_of, send_out, with_caller, forward, mcp_call}

-- What a request with this token shows besides it: HTTP, a Host that is served, no Origin, and the
-- token, which has no blanks at its ends, in the Authorization header.
pub record Bears (unicode : Unicode) (guard : McpGuard) (scope : Scope) (token : Str) : Type 0 where
  pub http : str_eq scope.type (codes "http") ≡ true
  pub headers : Dict Str
  pub decoded : decode_headers unicode scope.headers ≡ ok headers
  pub host : Str
  pub has_host : lookup (codes "host") headers ≡ some host
  pub host_served : authority_allowed unicode host guard.allowed_request_hosts ≡ ok true
  pub no_origin : lookup (codes "origin") headers ≡ none
  pub authorization : lookup (codes "authorization") headers ≡ some (codes "Bearer " ++ token)
  pub unpadded : strip token ≡ token
  pub given : is_empty token ≡ false

check_caller-token :
    (unicode : Unicode) (jwt : Jwt Str) (guard : McpGuard) (decoded_at : Float) (scope : Scope)
    (token : Str)
    → UnicodeLaws unicode
    → (bears : Bears unicode guard scope token)
    → check_caller unicode jwt guard decoded_at bears.headers
      ≡ verify jwt guard.verifier decoded_at token
unfolding check_caller check_host check_origin
check_caller-token unicode jwt guard decoded_at scope token laws bears =
    let parsed = parse_bearer-Bearer unicode token laws bears.unpadded bears.given in
    ground (arith, bears.has_host, bears.host_served, bears.no_origin, bears.authorization)

module _ {S : Type 0} (send : Response → Action S (Unit {0})) (unicode : Unicode) (jwt : Jwt Str)
    (floats : Floats) (guard : McpGuard) where
  -- With `UnicodeLaws`, a library that decodes its own tokens as PyJWT documents, and a tenant that is
  -- not empty: a
  -- request that bears a minted token runs the app behind the door, for the tenant that the token
  -- was minted for, exactly where secret, issuer and audience are the verifier's and the time is
  -- neither past the expiry nor before the issue by more than ten seconds; else it is answered with
  -- the 401 problem, and the app does not run.
  pub mcp_call-mint_mcp_token :
      (minted_at decoded_at : Float) (secret issuer audience tenant_id : Str) (ttl_seconds : ℕ)
      (inner : Scope → Action (World S) (Unit {0})) (scope : Scope) (world : World S)
      → UnicodeLaws unicode
      → DecodesOwnTokens jwt floats
      → tenant_id ≢ []
      → Bears unicode guard scope
          (mint_mcp_token jwt floats minted_at secret issuer audience tenant_id (pos ttl_seconds))
      → mcp_call send unicode jwt guard decoded_at inner scope world ≡ (
          if str_eq guard.verifier.secret secret
            && str_eq guard.verifier.issuer issuer
            && str_eq guard.verifier.audience audience
            && ltb (floats.truncate decoded_at) (floats.truncate minted_at + ttl_seconds + 10)
            && leb (floats.truncate minted_at) (floats.truncate decoded_at + 10)
          then with_caller (record { tenant_id = tenant_id }) (inner scope) world
          else send_out send
              (app_error_response
                (record {
                  kind = authentication_error;
                  detail = codes "mcp token verification failed";
                })
                (instance_of scope))
              world)
  unfolding mcp_call forward
  mcp_call-mint_mcp_token minted_at decoded_at secret issuer audience tenant_id ttl_seconds inner
        scope world laws decodes given bears =
      let token =
        mint_mcp_token jwt floats minted_at secret issuer audience tenant_id (pos ttl_seconds) in
      let checked = check_caller-token unicode jwt guard decoded_at scope token laws bears in
      let verified =
        verify-mint_mcp_token jwt floats guard.verifier minted_at decoded_at secret issuer audience
          tenant_id ttl_seconds decodes given in
      ground (arith, bears.http, bears.decoded)
