-- ===== src/Core/Settings.antt =====
-- backend/src/app/core/settings.py: the typed configuration and the secrets that it holds.
pub mod Laws
pub mod Loading
pub mod Sample
pub mod Tests
use honest_agent.Prelude.{Option, none, some, List, [], ◌∷◌, map}
use honest_agent.Py.Str.{Str, codes}
use honest_agent.Py.Value.{ℤ, pos}

pub record Settings : Type 0 where
  pub database_url : Str
  pub app_database_url : Str
  pub embedding_dim : ℤ
  pub weaviate_url : Str
  pub vertex_credentials_path : Option Str
  pub gemini_model : Str
  pub supabase_url : Option Str
  pub supabase_anon_key : Option Str
  pub supabase_service_role_key : Option Str
  pub supabase_jwt_issuer : Str
  pub supabase_jwks_url : Str
  pub supabase_jwt_audience : Str
  pub mcp_signing_secret : Str
  pub mcp_token_issuer : Str
  pub mcp_token_audience : Str
  pub mcp_allowed_origins : List Str
  pub mcp_allowed_hosts : List Str
  pub visitor_max_body_bytes : ℤ
  pub logfire_token : Option Str
  pub sentry_dsn : Option Str
  pub widget_public_key : Option Str

-- The fields that have no default.
pub record Required : Type 0 where
  pub database_url : Str
  pub app_database_url : Str
  pub weaviate_url : Str
  pub supabase_jwt_issuer : Str
  pub supabase_jwks_url : Str
  pub mcp_signing_secret : Str

-- The settings where only the required values are given.
unfoldable pub default_settings : Required → Settings
default_settings r = record {
  database_url = r.database_url;
  app_database_url = r.app_database_url;
  embedding_dim = pos 768;
  weaviate_url = r.weaviate_url;
  vertex_credentials_path = none;
  gemini_model = codes "gemini-2.5-flash";
  supabase_url = none;
  supabase_anon_key = none;
  supabase_service_role_key = none;
  supabase_jwt_issuer = r.supabase_jwt_issuer;
  supabase_jwks_url = r.supabase_jwks_url;
  supabase_jwt_audience = codes "authenticated";
  mcp_signing_secret = r.mcp_signing_secret;
  mcp_token_issuer = codes "honest-agent";
  mcp_token_audience = codes "honest-agent-mcp";
  mcp_allowed_origins = [];
  mcp_allowed_hosts = codes "127.0.0.1" ∷ codes "localhost" ∷ [];
  visitor_max_body_bytes = pos 65536;
  logfire_token = none;
  sentry_dsn = none;
  widget_public_key = none;
}

-- The fields by name, for `getattr`.
pub data SecretField : Type 0 where
  supabase_service_role_key mcp_signing_secret vertex_credentials_path : SecretField

unfoldable pub secret_settings_fields : List SecretField
secret_settings_fields =
    supabase_service_role_key ∷ mcp_signing_secret ∷ vertex_credentials_path ∷ []

-- `getattr(settings, name)`.
unfoldable pub get_field : Settings → SecretField → Option Str
get_field settings supabase_service_role_key = settings.supabase_service_role_key
get_field settings mcp_signing_secret = some settings.mcp_signing_secret
get_field settings vertex_credentials_path = settings.vertex_credentials_path

-- The values that are a `str` and not empty.
unfoldable pub present : List (Option Str) → List Str
present [] = []
present (some (c ∷ s) ∷ vs) = (c ∷ s) ∷ present vs
present (_ ∷ vs) = present vs

-- The set, as a list.
unfoldable pub secret_values : Settings → List Str
unfolding present get_field secret_settings_fields
secret_values settings = present (map (get_field settings) secret_settings_fields)
