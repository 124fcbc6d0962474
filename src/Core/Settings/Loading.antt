-- ===== src/Core/Settings/Loading.antt =====
-- backend/src/app/core/settings.py: where the values of the fields come from, and `get_settings`.
-- How pydantic reads an integer and a list of texts is a parameter; its ValidationError and
-- SettingsError are kinds of ValueError.
pub mod Laws
pub mod Tests
use honest_agent.Prelude.{Bool, if◌then◌else◌, Option, none, some, List, [], ◌∷◌}
use honest_agent.Py.Str.{Str, codes}
use honest_agent.Py.Value.{ℤ, pos}
use honest_agent.Py.Exec.{value_error, Result, ok, raised, Action, lift}
use honest_agent.Py.Exec.Checked.{◌>>=◌, ◌>>◌}
use honest_agent.Core.Settings.{Settings}

-- The values by the names of the fields, in letters of either case.
abbrev pub FieldSource : Type 0
FieldSource = Str → Option Str

pub record Pydantic : Type 0 where
  pub read_int : Str → Option ℤ
  -- Whether a source can decode the text of a list, and the list that it is validated to be.
  pub is_decodable : Str → Bool
  pub read_texts : Str → Option (List Str)

-- The variables of the process and the entries of each file, of which there are none where the file
-- is missing.
pub record Environment : Type 0 where
  pub variables : FieldSource
  pub dotenv : Str → FieldSource

abbrev pub env_file : List Str
env_file = codes ".env" ∷ codes "../.env" ∷ []

-- Of two files that give a value, the later one counts.
unfoldable pub in_files : Environment → List Str → FieldSource
in_files environment [] name = none
in_files environment (file ∷ files) name = elim (in_files environment files name) [
  | some v ↦ some v
  | none ↦ environment.dotenv file name
]

-- The real environment wins over the files.
unfoldable pub source_of : Environment → FieldSource
unfolding in_files
source_of environment name = elim (environment.variables name) [
  | some v ↦ some v
  | none ↦ in_files environment env_file name
]

-- A field with no default.
unfoldable pub required : FieldSource → Str → Result Str
required source name = elim (source name) [ none ↦ raised value_error | some v ↦ ok v ]

-- A text field with a default.
unfoldable pub text_or : Str → Option Str → Str
text_or default none = default
text_or default (some v) = v

-- A field that is read from its text, with a default.
unfoldable pub read_or {ℓ} : {A : Type ℓ} → (Str → Option A) → A → Option Str → Result A
read_or read default none = ok default
read_or read default (some v) = elim (read v) [ none ↦ raised value_error | some a ↦ ok a ]

-- The validation of the values that win.
unfoldable pub load_settings : Pydantic → FieldSource → Result Settings
unfolding required text_or read_or
load_settings pydantic source = do
  database_url ← required source (codes "database_url")
  app_database_url ← required source (codes "app_database_url")
  embedding_dim ← read_or pydantic.read_int (pos 768) (source (codes "embedding_dim"))
  weaviate_url ← required source (codes "weaviate_url")
  supabase_jwt_issuer ← required source (codes "supabase_jwt_issuer")
  supabase_jwks_url ← required source (codes "supabase_jwks_url")
  mcp_signing_secret ← required source (codes "mcp_signing_secret")
  mcp_allowed_origins ← read_or pydantic.read_texts [] (source (codes "mcp_allowed_origins"))
  mcp_allowed_hosts ←
      read_or pydantic.read_texts (codes "127.0.0.1" ∷ codes "localhost" ∷ [])
        (source (codes "mcp_allowed_hosts"))
  visitor_max_body_bytes ←
      read_or pydantic.read_int (pos 65536) (source (codes "visitor_max_body_bytes"))
  ok (record {
    database_url = database_url;
    app_database_url = app_database_url;
    embedding_dim = embedding_dim;
    weaviate_url = weaviate_url;
    vertex_credentials_path = source (codes "vertex_credentials_path");
    gemini_model = text_or (codes "gemini-2.5-flash") (source (codes "gemini_model"));
    supabase_url = source (codes "supabase_url");
    supabase_anon_key = source (codes "supabase_anon_key");
    supabase_service_role_key = source (codes "supabase_service_role_key");
    supabase_jwt_issuer = supabase_jwt_issuer;
    supabase_jwks_url = supabase_jwks_url;
    supabase_jwt_audience =
        text_or (codes "authenticated") (source (codes "supabase_jwt_audience"));
    mcp_signing_secret = mcp_signing_secret;
    mcp_token_issuer = text_or (codes "honest-agent") (source (codes "mcp_token_issuer"));
    mcp_token_audience = text_or (codes "honest-agent-mcp") (source (codes "mcp_token_audience"));
    mcp_allowed_origins = mcp_allowed_origins;
    mcp_allowed_hosts = mcp_allowed_hosts;
    visitor_max_body_bytes = visitor_max_body_bytes;
    logfire_token = source (codes "logfire_token");
    sentry_dsn = source (codes "sentry_dsn");
    widget_public_key = source (codes "widget_public_key");
  })

-- A source decodes the texts of the lists that it has, whether or not they win.
unfoldable pub decode_list : Pydantic → Option Str → Result (Unit {0})
decode_list pydantic none = ok tt
decode_list pydantic (some v) = if pydantic.is_decodable v then ok tt else raised value_error

unfoldable pub decode_source : Pydantic → FieldSource → Result (Unit {0})
unfolding decode_list
decode_source pydantic source = do
  decode_list pydantic (source (codes "mcp_allowed_origins"))
  decode_list pydantic (source (codes "mcp_allowed_hosts"))

-- `Settings()`: the environment is decoded, then the files, then the values that win are read.
unfoldable pub build_settings : Pydantic → Environment → Result Settings
unfolding decode_source load_settings source_of in_files
build_settings pydantic environment = do
  decode_source pydantic environment.variables
  decode_source pydantic (in_files environment env_file)
  load_settings pydantic (source_of environment)

-- What `get_settings` reads and keeps: `lru_cache` keeps what the first call that returns gives.
pub record Process : Type 0 where
  pub environment : Environment
  pub cached : Option Settings

-- A call that raises is not kept.
unfoldable pub keep : Process → Result Settings → Result Settings × Process
keep process (ok settings) = (ok settings, record process { cached = some settings })
keep process (raised e) = (raised e, process)

unfoldable pub get_settings : Pydantic → Action Process Settings
unfolding build_settings keep
get_settings pydantic process = elim process.cached [
  | some settings ↦ (ok settings, process)
  | none ↦ keep process (build_settings pydantic process.environment)
]
