-- ===== src/Core/Settings/Sample.antt =====
-- Settings for the tests of the modules that are started with some.
use honest_agent.Py.Str.{codes}
use honest_agent.Core.Settings.{Settings, default_settings}

abbrev pub sample_settings : Settings
sample_settings = default_settings (record {
  database_url = codes "postgresql://owner@localhost/db";
  app_database_url = codes "postgresql://app@localhost/db";
  weaviate_url = codes "http://localhost:8090";
  supabase_jwt_issuer = codes "iss";
  supabase_jwks_url = codes "http://localhost/jwks";
  mcp_signing_secret = codes "s3cret";
})
