-- ===== src/Mcp/Server/Checks.antt =====
-- The checks of the MCP door that await nothing: the headers, the Host, the Origin and the token
-- (backend/src/app/mcp/server.py).
use honest_agent.Prelude.{ℕ, Option, none, some, List, [], ◌∷◌, map}
use honest_agent.Py.Str.{Str, codes}
use honest_agent.Py.Dict.{Dict, lookup, assign}
use honest_agent.Py.Unicode.{Unicode}
use honest_agent.Py.Utf8.{decode}
use honest_agent.Py.Value.{Float}
use honest_agent.Py.Exec.{Result, ok, fail, require}
use honest_agent.Py.Exec.Checked.{◌>>=◌, ◌>>◌}
use honest_agent.Py.Jwt.{Jwt}
use honest_agent.Core.Bearer.{parse_bearer}
use honest_agent.Core.Errors.{tenant_access_error}
use honest_agent.Core.Origins.{origin_host, host_allowed, authority_allowed}
use honest_agent.Core.Settings.{Settings}
use honest_agent.Mcp.Tokens.{McpTokenVerifier, verify}
use honest_agent.Tenants.Contexts.{ExternalCallerContext}

-- What the middleware is built with.
pub record McpGuard : Type 0 where
  pub verifier : McpTokenVerifier
  pub allowed_origin_hosts : List Str
  pub allowed_request_hosts : List Str

module _ (unicode : Unicode) where
  -- One entry of the `dict` of headers: a later header of the same name replaces it.
  add_header : Dict Str → List ℕ × List ℕ → Result (Dict Str)
  add_header headers (key, value) = do
    name ← decode key
    text ← decode value
    ok (assign (unicode.lower name) text headers)

  collect_headers : Dict Str → List (List ℕ × List ℕ) → Result (Dict Str)
  collect_headers headers [] = ok headers
  collect_headers headers (entry ∷ entries) =
      add_header headers entry >>= λ headers'. collect_headers headers' entries

  unfoldable pub decode_headers : List (List ℕ × List ℕ) → Result (Dict Str)
  unfolding collect_headers add_header
  decode_headers entries = collect_headers [] entries

  unfoldable pub check_host : List Str → Option Str → Result (Unit {0})
  check_host allowed_request_hosts none = fail tenant_access_error (codes "host not allowed")
  check_host allowed_request_hosts (some host) = do
    allowed ← authority_allowed unicode host allowed_request_hosts
    require allowed tenant_access_error (codes "host not allowed")

  unfoldable pub check_origin : List Str → Option Str → Result (Unit {0})
  check_origin allowed_origin_hosts none = ok tt
  check_origin allowed_origin_hosts (some origin) = do
    allowed ← host_allowed unicode origin allowed_origin_hosts
    require allowed tenant_access_error (codes "origin not allowed")

  -- The checks in their order.
  unfoldable pub check_caller : Jwt Str → McpGuard → Float → Dict Str → Result ExternalCallerContext
  check_caller jwt guard decoded_at headers = do
    check_host guard.allowed_request_hosts (lookup (codes "host") headers)
    check_origin guard.allowed_origin_hosts (lookup (codes "origin") headers)
    token ← parse_bearer unicode (lookup (codes "authorization") headers)
    verify jwt guard.verifier decoded_at token

  -- The hosts of the configured origins; an origin with no host is left out.
  unfoldable pub hosts_of : List Str → Result (List Str)
  hosts_of [] = ok []
  hosts_of (origin ∷ origins) = do
    host ← origin_host unicode origin
    hosts ← hosts_of origins
    ok (elim host [ none ↦ hosts | some h ↦ h ∷ hosts ])

  unfoldable pub mcp_allowed_origin_hosts : Settings → Result (List Str)
  unfolding hosts_of
  mcp_allowed_origin_hosts settings = hosts_of settings.mcp_allowed_origins

  unfoldable pub mcp_request_hosts : Settings → List Str
  mcp_request_hosts settings = map unicode.lower settings.mcp_allowed_hosts
