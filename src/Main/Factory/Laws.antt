-- ===== src/Main/Factory/Laws.antt =====
-- What an app that `create_app` returns lets in.
use honest_agent.Prelude.{ℕ, ◌+◌, ◌<◌, ◌≤◌, ◌≡◌, refl, ◌≢◌, inl, inr, true, All, [], arith}
use honest_agent.Py.Str.{Str, codes, str_eq, starts_with}
use honest_agent.Py.Str.Laws.{str_eq_refl}
use honest_agent.Py.Unicode.{Unicode, UnicodeLaws}
use honest_agent.Py.Value.{pos, Float}
use honest_agent.Py.Exec.{Action, ok, Result-cases}
use honest_agent.Py.Jwt.{Jwt, Floats}
use honest_agent.Core.Errors.{Response}
use honest_agent.Core.Settings.{Settings}
use honest_agent.Core.Logging.{LoggingConfig, logging_config}
use honest_agent.Core.Observability.{Services, configure_observability}
use honest_agent.Tenants.Gate.{widget_path_prefix}
use honest_agent.Mcp.Tokens.{mint_mcp_token, build_mcp_verifier}
use honest_agent.Mcp.Tokens.Library.{DecodesOwnTokens}
use honest_agent.Mcp.Server.{World, Scope, with_caller, mcp_call}
use honest_agent.Mcp.Server.Checks.{McpGuard, mcp_allowed_origin_hosts}
use honest_agent.Mcp.Server.Minted.{Bears, mcp_call-mint_mcp_token}
use honest_agent.Main.{mcp_guard}
use honest_agent.Main.Factory.{Router, App, domain_routers, mounted, widget_prefix, create_app}

-- The visitor gate looks at a mounted route exactly where it is one of the widget router's.
mounted-gated :
    All
      (λ (router : Router).
        (route : Str)
        → starts_with widget_path_prefix (mounted router route)
          ≡ str_eq router.prefix widget_prefix)
      domain_routers
unfolding mounted codes starts_with str_eq
mounted-gated = (
  λ route. refl,
  (
    λ route. refl,
    (λ route. refl, (λ route. refl, (λ route. refl, (λ route. refl, (λ route. refl, tt))))),
  ),
)

pub mcp_guard-verifier :
    (unicode : Unicode) (settings : Settings) (guard : McpGuard)
    → mcp_guard unicode settings ≡ ok guard
    → guard.verifier ≡ build_mcp_verifier settings
unfolding mcp_guard
mcp_guard-verifier unicode settings guard h =
    elim (Result-cases (mcp_allowed_origin_hosts unicode settings)) [
      | inr (e, failed) ↦ absurd (ground arith)
      | inl (hosts, made) ↦ ground arith
    ]

module _ {S : Type 0} (configure_logging : LoggingConfig → Action S (Unit {0}))
    (services : Services S) where
  create_app-guard :
      {W : Type 0} (unicode : Unicode) (settings : Settings) (app : App W) (s t : S)
      → create_app configure_logging services unicode settings s ≡ (ok app, t)
      → mcp_guard unicode settings ≡ ok app.guard
  unfolding create_app
  create_app-guard unicode settings app s t h =
      elim (Result-cases (configure_logging (logging_config true) s).0) [
        | inr (e, failed) ↦ absurd (ground arith)
        | inl (x, logs) ↦
            let u = (configure_logging (logging_config true) s).1 in
            elim (Result-cases (configure_observability services settings u).0) [
              | inr (e, failed) ↦ absurd (ground arith)
              | inl (y, observed) ↦ elim (Result-cases (mcp_guard unicode settings)) [
                | inr (e, failed) ↦ absurd (ground arith)
                | inl (guard, made) ↦ ground arith
              ]
            ]
      ]

  -- With `UnicodeLaws`, a library that decodes its own tokens as PyJWT documents, and a tenant that is
  -- not empty: an app that `create_app` has returned takes a token minted with the secret, the
  -- issuer and the audience of its own settings, for as long as the token lives and ten seconds
  -- more, and not more than ten seconds before it was minted: what is mounted behind the MCP door
  -- runs for the tenant of the token.
  pub create_app-mint_mcp_token :
      {W : Type 0} (unicode : Unicode) (jwt : Jwt Str) (floats : Floats) (settings : Settings)
      (app : App W) (s t : S) (minted_at decoded_at : Float) (tenant_id : Str) (ttl_seconds : ℕ)
      (send : Response → Action W (Unit {0})) (inner : Scope → Action (World W) (Unit {0}))
      (scope : Scope) (world : World W)
      → create_app configure_logging services unicode settings s ≡ (ok app, t)
      → UnicodeLaws unicode
      → DecodesOwnTokens jwt floats
      → tenant_id ≢ []
      → Bears unicode app.guard scope (
          mint_mcp_token jwt floats minted_at settings.mcp_signing_secret settings.mcp_token_issuer
            settings.mcp_token_audience tenant_id
            (pos ttl_seconds))
      → floats.truncate decoded_at < floats.truncate minted_at + ttl_seconds + 10
      → floats.truncate minted_at ≤ floats.truncate decoded_at + 10
      → mcp_call send unicode jwt app.guard decoded_at inner scope world
        ≡ with_caller (record { tenant_id = tenant_id }) (inner scope) world
  unfolding build_mcp_verifier
  create_app-mint_mcp_token unicode jwt floats settings app s t minted_at decoded_at tenant_id
        ttl_seconds send inner scope world started laws decodes given bears alive issued =
      let made = create_app-guard unicode settings app s t started in
      let verifier = mcp_guard-verifier unicode settings app.guard made in
      let runs =
        mcp_call-mint_mcp_token send unicode jwt floats app.guard minted_at decoded_at
          settings.mcp_signing_secret settings.mcp_token_issuer settings.mcp_token_audience
          tenant_id ttl_seconds inner scope world laws decodes given bears in
      let secret = str_eq_refl settings.mcp_signing_secret in
      let issuer = str_eq_refl settings.mcp_token_issuer in
      let audience = str_eq_refl settings.mcp_token_audience in ground arith
