-- ===== src/Core/Settings/Loading/Laws.antt =====
-- When the settings load, what they are, and for how long.
use honest_agent.Prelude.{
  ◌≡◌, refl, String, ◌⊎◌, inl, inr, Option-cases, Option, none, some, List, [], ◌∷◌, arith,
}
use honest_agent.Py.Str.{Str, codes, str_eq}
use honest_agent.Py.Dict.{lookup}
use honest_agent.Py.Value.{ℤ, pos}
use honest_agent.Py.Exec.{Result, ok, Result-cases}
use honest_agent.Core.Settings.{Settings, Required, default_settings}
use honest_agent.Core.Settings.Loading.{
  FieldSource, Pydantic, Environment, source_of, required, read_or, load_settings, build_settings,
  Process, keep, get_settings,
}

-- The field is given, and read where it is.
abbrev Given : FieldSource → Str → Type 0
Given source name = (v : Str) × (source name ≡ some v)

abbrev ReadsAs : {A : Type 0} → (Str → Option A) → Option Str → Type 0
ReadsAs {A} read given =
    (given ≡ none) ⊎ ((v : Str) × ((a : A) × (given ≡ some v) × (read v ≡ some a)))

-- Every field without a default is given, and the values that are not texts are well formed.
pub record Loadable (pydantic : Pydantic) (source : FieldSource) : Type 0 where
  pub database_url : Given source (codes "database_url")
  pub app_database_url : Given source (codes "app_database_url")
  pub weaviate_url : Given source (codes "weaviate_url")
  pub supabase_jwt_issuer : Given source (codes "supabase_jwt_issuer")
  pub supabase_jwks_url : Given source (codes "supabase_jwks_url")
  pub mcp_signing_secret : Given source (codes "mcp_signing_secret")
  pub embedding_dim : ReadsAs pydantic.read_int (source (codes "embedding_dim"))
  pub mcp_allowed_origins : ReadsAs pydantic.read_texts (source (codes "mcp_allowed_origins"))
  pub mcp_allowed_hosts : ReadsAs pydantic.read_texts (source (codes "mcp_allowed_hosts"))
  pub visitor_max_body_bytes : ReadsAs pydantic.read_int (source (codes "visitor_max_body_bytes"))

abbrev local : List Str
local = codes "127.0.0.1" ∷ codes "localhost" ∷ []

module _ (pydantic : Pydantic) (source : FieldSource) where
  abbrev given : String → Result Str
  given name = required source (codes name)

  abbrev dimension : Result ℤ
  dimension = read_or pydantic.read_int (pos 768) (source (codes "embedding_dim"))

  abbrev origins : Result (List Str)
  origins = read_or pydantic.read_texts [] (source (codes "mcp_allowed_origins"))

  abbrev hosts : Result (List Str)
  hosts = read_or pydantic.read_texts local (source (codes "mcp_allowed_hosts"))

  abbrev limit : Result ℤ
  limit = read_or pydantic.read_int (pos 65536) (source (codes "visitor_max_body_bytes"))

-- The six required values, and nothing else.
abbrev only : Required → FieldSource
only r name = lookup name (
    (codes "database_url", r.database_url)
    ∷ (codes "app_database_url", r.app_database_url)
    ∷ (codes "weaviate_url", r.weaviate_url)
    ∷ (codes "supabase_jwt_issuer", r.supabase_jwt_issuer)
    ∷ (codes "supabase_jwks_url", r.supabase_jwks_url)
    ∷ (codes "mcp_signing_secret", r.mcp_signing_secret)
    ∷ [])

-- Where only the required values are given, the others are the defaults.
load_settings-default :
    (pydantic : Pydantic) (r : Required) → load_settings pydantic (only r) ≡ ok (default_settings r)
unfolding load_settings lookup str_eq codes default_settings
load_settings-default pydantic r = refl

-- A variable of the process wins over the files, and of the files the one above wins.
source_of-variables :
    (environment : Environment) (name v : Str)
    → environment.variables name ≡ some v
    → source_of environment name ≡ some v
unfolding source_of
source_of-variables environment name v h = rw (h, source_of) refl

-- Once the settings are loaded, every later call returns the same ones, whatever has become of the
-- environment by then.
get_settings-keeps :
    (pydantic : Pydantic) (process after : Process) (settings : Settings)
    (environment : Environment)
    → get_settings pydantic process ≡ (ok settings, after)
    → get_settings pydantic (record after { environment = environment })
      ≡ (ok settings, record after { environment = environment })
unfolding get_settings keep
get_settings-keeps pydantic process after settings environment h =
    elim (Option-cases process.cached) [
      | inr (s, kept) ↦ ground arith
      | inl fresh ↦ elim (Result-cases (build_settings pydantic process.environment)) [
        | inl (s, loaded) ↦ ground arith
        | inr (e, failed) ↦ absurd (ground arith)
      ]
    ]
