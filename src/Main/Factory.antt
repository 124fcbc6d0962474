-- ===== src/Main/Factory.antt =====
-- backend/src/app/main.py: `create_app`, with the prefixes of the routers in backend/src/app. The
-- calls of the libraries that it configures are parameters.
pub mod Laws
pub mod Tests
use honest_agent.Prelude.{List, [], ◌∷◌, ◌++◌, true}
use honest_agent.Py.Str.{Str, codes}
use honest_agent.Py.Unicode.{Unicode}
use honest_agent.Py.Value.{Value}
use honest_agent.Py.Exec.{Exception, Result, Action, pure, lift, ◌>>=◌, ◌>>◌}
use honest_agent.Core.Settings.{Settings}
use honest_agent.Core.Logging.{LoggingConfig, logging_config}
use honest_agent.Core.Observability.{Services, configure_observability}
use honest_agent.Mcp.Server.Checks.{McpGuard}
use honest_agent.Core.Errors.{Response}
use honest_agent.Core.Handlers.{handle_app_error}
use honest_agent.Tenants.WidgetKeys.{WidgetKeyStore}
use honest_agent.Tenants.RateLimit.{RateLimiter}
use honest_agent.Tenants.Gate.{Bytes, Request, visitor_gate_middleware}
use honest_agent.Main.{visitor_gate, mcp_guard}

-- A router, by its prefix.
pub record Router : Type 0 where
  pub prefix : Str

abbrev pub widget_prefix : Str
widget_prefix = codes "/widget"

abbrev tenants_router : Router
tenants_router = record { prefix = codes "/tenants" }

abbrev ingestion_router : Router
ingestion_router = record { prefix = codes "/ingestion" }

abbrev agent_router : Router
agent_router = record { prefix = codes "/agent" }

abbrev retrieval_router : Router
retrieval_router = record { prefix = codes "/retrieval" }

abbrev guardrails_router : Router
guardrails_router = record { prefix = codes "/guardrails" }

abbrev eval_router : Router
eval_router = record { prefix = codes "/eval" }

abbrev widget_router : Router
widget_router = record { prefix = widget_prefix }

abbrev pub domain_routers : List Router
domain_routers =
    tenants_router ∷ ingestion_router ∷ agent_router ∷ retrieval_router ∷ guardrails_router
    ∷ eval_router ∷ widget_router ∷ []

-- The path of a route, where `include_router` has put its router under `/v1`.
unfoldable pub mounted : Router → Str → Str
mounted router route = codes "/v1" ++ router.prefix ++ route

abbrev pub mcp_path : Str
mcp_path = codes "/mcp"

-- The app, as far as the program decides what it is, over a world `W` that its requests run in.
pub record App (W : Type 0) : Type 0 where
  pub title : Str
  pub version : Str
  -- The handler that is registered for `AppError`: of a request's path and an exception.
  pub error_handler : Str → Exception → Result Response
  -- The middleware of the visitor gate, over the store and the limiter of the app's state, with
  -- what stands for `json.loads`.
  pub visitor_middleware :
      WidgetKeyStore W
      → RateLimiter W
      → (Bytes → Result Value)
      → Request W
      → (Request W → Action W Response)
      → Action W Response
  pub routers : List Router
  pub mcp_mount : Str
  pub guard : McpGuard

module _ {S : Type 0} (configure_logging : LoggingConfig → Action S (Unit {0}))
    (services : Services S) where
  unfoldable pub create_app : {W : Type 0} → Unicode → Settings → Action S (App W)
  unfolding logging_config configure_observability mcp_guard handle_app_error visitor_gate
      visitor_gate_middleware
  create_app unicode settings = do
    configure_logging (logging_config true)
    configure_observability services settings
    guard ← lift (mcp_guard unicode settings)
    pure (record {
      title = codes "Honest Agent";
      version = codes "0.1.0";
      error_handler = handle_app_error;
      visitor_middleware = λ store limiter loads.
          visitor_gate_middleware unicode loads (visitor_gate store limiter settings);
      routers = domain_routers;
      mcp_mount = mcp_path;
      guard = guard;
    })
