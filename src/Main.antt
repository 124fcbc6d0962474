-- ===== src/Main.antt =====
-- backend/src/app/main.py: what the app factory builds the doors with.
pub mod Laws
pub mod Tests
pub mod Lifespan
pub mod Factory
use honest_agent.Py.Unicode.{Unicode}
use honest_agent.Py.Exec.{Result, ok}
use honest_agent.Py.Exec.Checked.{◌>>=◌}
use honest_agent.Core.Settings.{Settings}
use honest_agent.Tenants.Gate.{VisitorGate}
use honest_agent.Tenants.RateLimit.{RateLimiter}
use honest_agent.Tenants.WidgetKeys.{WidgetKeyStore}
use honest_agent.Mcp.Tokens.{build_mcp_verifier}
use honest_agent.Mcp.Server.Checks.{McpGuard, mcp_allowed_origin_hosts, mcp_request_hosts}

-- `store` and `limiter` are those of the app's state.
unfoldable pub visitor_gate :
    {S : Type 0} → (store : WidgetKeyStore S) → (limiter : RateLimiter S) → Settings → VisitorGate S
visitor_gate store limiter settings = record {
  store = store;
  rate_limiter = limiter;
  max_body_bytes = settings.visitor_max_body_bytes;
}

-- The arguments of the mounted `McpSecurityMiddleware`.
unfoldable pub mcp_guard : Unicode → Settings → Result McpGuard
mcp_guard unicode settings = do
  hosts ← mcp_allowed_origin_hosts unicode settings
  ok (record {
    verifier = build_mcp_verifier settings;
    allowed_origin_hosts = hosts;
    allowed_request_hosts = mcp_request_hosts unicode settings;
  })
