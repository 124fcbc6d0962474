-- ===== src/Main/Tests.antt =====
-- The doors of a service with one site that may call the MCP server.
use honest_agent.Prelude.{◌≡◌, refl, true, false, [], ◌∷◌}
use honest_agent.Py.Str.{codes}
use honest_agent.Py.Unicode.{ascii_unicode}
use honest_agent.Py.Exec.{ok}
use honest_agent.Core.Settings.{Settings, Required, default_settings}
use honest_agent.Core.Origins.{host_allowed}
use honest_agent.Core.Origins.Run.{running}
use honest_agent.Mcp.Tokens.{build_mcp_verifier}
use honest_agent.Mcp.Server.Checks.{McpGuard, hosts_of, mcp_allowed_origin_hosts, mcp_request_hosts}
use honest_agent.Main.{mcp_guard}

abbrev required : Required
required = record {
  database_url = codes "postgresql://owner";
  app_database_url = codes "postgresql://app_user";
  weaviate_url = codes "http://localhost:8080";
  supabase_jwt_issuer = codes "iss";
  supabase_jwks_url = codes "http://127.0.0.1:54321/jwks.json";
  mcp_signing_secret = codes "signing";
}

abbrev settings : Settings
settings = record (default_settings required) {
  mcp_allowed_origins = codes "https://Site.example:8443" ∷ codes "null" ∷ [];
}

abbrev guard : McpGuard
guard = record {
  verifier = build_mcp_verifier settings;
  allowed_origin_hosts = codes "site.example" ∷ [];
  allowed_request_hosts = mcp_request_hosts ascii_unicode settings;
}

built : mcp_guard ascii_unicode settings ≡ ok guard
unfolding running mcp_guard mcp_allowed_origin_hosts hosts_of default_settings
built = refl

guard_tests :
    (host_allowed ascii_unicode (codes "http://site.example") guard.allowed_origin_hosts ≡ ok true)
    × (host_allowed ascii_unicode (codes "null") guard.allowed_origin_hosts ≡ ok false)
unfolding running
guard_tests = (refl, refl)
