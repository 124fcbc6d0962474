-- ===== src/Main/Factory/Tests.antt =====
-- An app that is started, and a caller with a token for tenant A.
use honest_agent.Prelude.{ℕ, ◌+◌, ◌≡◌, refl, ◌≢◌, none, [], ◌∷◌, ◌++◌, arith}
use honest_agent.Py.Str.{Str, codes}
use honest_agent.Py.Unicode.{ascii_unicode, ascii_unicode_laws}
use honest_agent.Py.Value.{pos}
use honest_agent.Py.Exec.{ok, Action}
use honest_agent.Core.Errors.{Response}
use honest_agent.Core.Logging.{LoggingConfig, logging_config, renderer}
use honest_agent.Core.Observability.{
  Services, configure_logfire, configure_sentry, configure_observability,
}
use honest_agent.Core.Settings.{default_settings}
use honest_agent.Core.Settings.Sample.{sample_settings}
use honest_agent.Mcp.Tests.{calling}
use honest_agent.Mcp.Tokens.{mint_mcp_token, build_mcp_verifier}
use honest_agent.Mcp.Tokens.Plain.{plain_jwt, whole, plain_decodes}
use honest_agent.Mcp.Server.{World, Scope, with_caller, mcp_call}
use honest_agent.Mcp.Server.Checks.{McpGuard, hosts_of, mcp_allowed_origin_hosts, mcp_request_hosts}
use honest_agent.Mcp.Server.Minted.{Bears}
use honest_agent.Core.Handlers.{handle_app_error}
use honest_agent.Tenants.Gate.{visitor_gate_middleware}
use honest_agent.Main.{visitor_gate, mcp_guard}
use honest_agent.Main.Factory.{App, domain_routers, mcp_path, create_app}
use honest_agent.Main.Factory.Laws.{create_app-mint_mcp_token}

starting : Unit {0}
unfolding calling default_settings create_app mcp_guard mcp_allowed_origin_hosts hosts_of
    mcp_request_hosts build_mcp_verifier logging_config renderer configure_logfire configure_sentry
    configure_observability
starting = tt

-- The state counts the calls of the libraries.
abbrev log_to : LoggingConfig → Action ℕ (Unit {0})
log_to config n = (ok tt, n + 1)

abbrev services : Services ℕ
services = record {
  logfire_configure = λ token n. (ok tt, n + 1);
  instrument_fastapi = λ n. (ok tt, n + 1);
  sentry_init = λ dsn rate n. (ok tt, n + 1);
}

abbrev guard : McpGuard
guard = record {
  verifier = record {
    secret = codes "s3cret";
    issuer = codes "honest-agent";
    audience = codes "honest-agent-mcp";
  };
  allowed_origin_hosts = [];
  allowed_request_hosts = codes "127.0.0.1" ∷ codes "localhost" ∷ [];
}

abbrev app : App ℕ
app = record {
  title = codes "Honest Agent";
  version = codes "0.1.0";
  error_handler = handle_app_error;
  visitor_middleware = λ store limiter loads.
      visitor_gate_middleware ascii_unicode loads (visitor_gate store limiter sample_settings);
  routers = domain_routers;
  mcp_mount = mcp_path;
  guard = guard;
}

-- With no tokens of the services in the settings, logging alone is configured.
started : create_app log_to services ascii_unicode sample_settings 0 ≡ (ok app, 1)
unfolding starting
started = refl

abbrev token : Str
token =
    mint_mcp_token plain_jwt whole 10 (codes "s3cret") (codes "honest-agent")
      (codes "honest-agent-mcp") (codes "tenant-a") (pos 60)

abbrev scope : Scope
scope = record {
  type = codes "http";
  headers =
      (codes "Host", codes "localhost:8000")
      ∷ (codes "Authorization", codes "Bearer " ++ token)
      ∷ [];
  path = none;
}

bears : Bears ascii_unicode app.guard scope token
unfolding starting
bears = record {
  http = refl;
  headers =
      (codes "host", codes "localhost:8000")
      ∷ (codes "authorization", codes "Bearer " ++ token)
      ∷ [];
  decoded = refl;
  host = codes "localhost:8000";
  has_host = refl;
  host_served = refl;
  no_origin = refl;
  authorization = refl;
  unpadded = refl;
  given = refl;
}

tenant_given : codes "tenant-a" ≢ []
unfolding codes
tenant_given h = ground arith

-- The world outside counts the responses that are sent.
abbrev send : Response → Action ℕ (Unit {0})
send response n = (ok tt, n + 1)

abbrev start : World ℕ
start = record { external_caller = none; outer = 0 }

abbrev inner : Scope → Action (World ℕ) (Unit {0})
inner caller world = (ok tt, world)

create_app-mint_mcp_token_example :
    mcp_call send ascii_unicode plain_jwt app.guard 20 inner scope start
    ≡ with_caller (record { tenant_id = codes "tenant-a" }) (inner scope) start
create_app-mint_mcp_token_example =
    create_app-mint_mcp_token log_to services ascii_unicode plain_jwt whole sample_settings app 0 1
      10 20 (codes "tenant-a") 60 send inner scope start started ascii_unicode_laws plain_decodes
      tenant_given (unfold default_settings in bears) (omega arith) (omega arith)
