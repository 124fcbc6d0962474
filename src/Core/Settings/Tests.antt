-- ===== src/Core/Settings/Tests.antt =====
-- Settings with two secrets.
use honest_agent.Prelude.{◌≡◌, refl, some, [], ◌∷◌}
use honest_agent.Py.Str.{codes}
use honest_agent.Core.Settings.{Settings, Required, default_settings, secret_values}

abbrev required : Required
required = record {
  database_url = codes "postgresql://owner";
  app_database_url = codes "postgresql://app_user";
  weaviate_url = codes "http://localhost:8080";
  supabase_jwt_issuer = codes "http://127.0.0.1:54321/auth/v1";
  supabase_jwks_url = codes "http://127.0.0.1:54321/auth/v1/.well-known/jwks.json";
  mcp_signing_secret = codes "signing";
}

abbrev settings : Settings
settings = record (default_settings required) { supabase_service_role_key = some (codes "role") }

secret_values_test : secret_values settings ≡ codes "role" ∷ codes "signing" ∷ []
unfolding default_settings secret_values codes
secret_values_test = refl
