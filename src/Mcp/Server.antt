-- ===== src/Mcp/Server.antt =====
-- backend/src/app/mcp/server.py: the middleware that guards the MCP server, and its one tool.
pub mod Checks
pub mod Laws
pub mod Flow
pub mod Minted
use honest_agent.Prelude.{ℕ, Bool, true, false, not, Option, none, some, List, if◌then◌else◌}
use honest_agent.Py.Str.{Str, codes, str_eq}
use honest_agent.Py.Unicode.{Unicode}
use honest_agent.Py.Value.{Float, Value}
use honest_agent.Py.Exec.{app, Result, ok, raised, fail, Action, lift, attempt, ◌>>=◌, ◌>>◌}
use honest_agent.Py.Jwt.{Jwt}
use honest_agent.Core.Errors.{Response, app_error_response, authentication_error}
use honest_agent.Agent.Schemas.{model_dump}
use honest_agent.Agent.Service.{answer_for_external_caller}
use honest_agent.Tenants.Contexts.{ExternalCallerContext}
use Checks.{McpGuard, decode_headers, check_caller}

-- What the server of the library is built with, and the description of its tool.
pub record McpServerConfig : Type 0 where
  pub name : Str
  pub stateless_http : Bool
  pub streamable_http_path : Str
  pub enable_dns_rebinding_protection : Bool
  pub tool_description : Str

unfoldable pub mcp_server_config : McpServerConfig
mcp_server_config = record {
  name = codes "honest-agent";
  stateless_http = true;
  streamable_http_path = codes "/";
  enable_dns_rebinding_protection = false;
  tool_description =
      codes "Answer a question for the caller's tenant, fused with an honesty verdict.";
}

-- The context variable of the external caller, beside the world outside.
pub record World (S : Type 0) : Type 0 where
  pub external_caller : Option ExternalCallerContext
  pub outer : S

-- An ASGI scope, as far as the middleware reads it.
pub record Scope : Type 0 where
  pub type : Str
  pub headers : List (List ℕ × List ℕ)
  pub path : Option Str

-- `str(scope.get("path", "/mcp"))`.
unfoldable pub instance_of : Scope → Str
instance_of scope = elim scope.path [ none ↦ codes "/mcp" | some path ↦ path ]

-- Sending through the server touches the world outside alone.
unfoldable pub send_out :
    {S : Type 0} → (Response → Action S (Unit {0})) → Response → Action (World S) (Unit {0})
send_out send response world =
    let (r, outer) = send response world.outer in (r, record world { outer = outer })

-- The call of the app between `set` and `reset`, whatever it returns or raises.
unfoldable pub with_caller :
    {S : Type 0} → ExternalCallerContext → Action (World S) (Unit {0}) → Action (World S) (Unit {0})
with_caller context inner world =
    let (r, world') = inner (record world { external_caller = some context }) in
    (r, record world' { external_caller = world.external_caller })

module _ {S : Type 0} (send : Response → Action S (Unit {0})) where
  -- `except AppError` around the checks, and the call of the app behind them.
  unfoldable pub forward :
      Str → Action (World S) (Unit {0}) → Result ExternalCallerContext → Action (World S) (Unit {0})
  unfolding with_caller send_out
  forward instance_path inner (ok context) = with_caller context inner
  forward instance_path inner (raised (app error)) =
      send_out send (app_error_response error instance_path)
  forward instance_path inner (raised e) = lift (raised e)

  -- `McpSecurityMiddleware.__call__`; `decoded_at` is the time at which the token is decoded.
  unfoldable pub mcp_call :
      Unicode
      → Jwt Str
      → McpGuard
      → Float
      → (Scope → Action (World S) (Unit {0}))
      → Scope
      → Action (World S) (Unit {0})
  unfolding forward instance_of
  mcp_call unicode jwt guard decoded_at inner scope =
      if not (str_eq scope.type (codes "http")) then inner scope else do
        headers ← lift (decode_headers unicode scope.headers)
        outcome ← attempt (lift (check_caller unicode jwt guard decoded_at headers))
        forward (instance_of scope) (inner scope) outcome

answer_for : Option ExternalCallerContext → Str → Result Value
answer_for none query = fail authentication_error (codes "mcp caller was not verified")
answer_for (some context) query = ok (model_dump (answer_for_external_caller context query))

-- The tool.
unfoldable pub answer_tool : {S : Type 0} → Str → Action (World S) Value
unfolding answer_for
answer_tool query world = (answer_for world.external_caller query, world)
