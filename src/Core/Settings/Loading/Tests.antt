-- ===== src/Core/Settings/Loading/Tests.antt =====
-- Settings of a process with the required variables.
use honest_agent.Prelude.{◌≡◌, refl, none, some, [], ◌∷◌, if◌then◌else◌}
use honest_agent.Py.Str.{codes, str_eq}
use honest_agent.Py.Dict.{lookup}
use honest_agent.Py.Value.{pos}
use honest_agent.Py.Exec.{value_error, raised}
use honest_agent.Core.Settings.{Settings}
use honest_agent.Core.Settings.Loading.{
  FieldSource, Pydantic, Environment, source_of, load_settings, build_settings,
}

-- A reader that takes "1024" and one that takes the empty list.
abbrev pydantic : Pydantic
pydantic = record {
  read_int = λ s. if str_eq s (codes "1024") then some (pos 1024) else none;
  is_decodable = λ s. str_eq s (codes "[]");
  read_texts = λ s. if str_eq s (codes "[]") then some [] else none;
}

abbrev source : FieldSource
source name = lookup name (
    (codes "database_url", codes "postgres://owner")
    ∷ (codes "app_database_url", codes "postgres://app_user")
    ∷ (codes "weaviate_url", codes "http://weaviate:8080")
    ∷ (codes "supabase_jwt_issuer", codes "issuer")
    ∷ (codes "supabase_jwks_url", codes "jwks")
    ∷ (codes "mcp_signing_secret", codes "secret")
    ∷ (codes "visitor_max_body_bytes", codes "1024")
    ∷ [])

-- A limit that is no number, and no settings at all.
refused_tests :
    (load_settings pydantic (λ name. some (codes "many")) ≡ raised value_error)
    × (load_settings pydantic (λ name. none) ≡ raised value_error)
unfolding load_settings str_eq codes
refused_tests = (refl, refl)

-- A file of the parent folder wins over one here, and the environment over both.
abbrev layers : Environment
layers = record {
  variables = λ name. if str_eq name (codes "weaviate_url") then some (codes "env") else none;
  dotenv = λ file name. some file;
}

-- A list that is malformed in a file, where the environment gives a good one.
abbrev shadowed : Environment
shadowed = record {
  variables =
      λ name. if str_eq name (codes "mcp_allowed_hosts") then some (codes "[]") else source name;
  dotenv =
      λ file name. if str_eq name (codes "mcp_allowed_hosts") then some (codes "oops") else none;
}

shadowed_test : build_settings pydantic shadowed ≡ raised value_error
unfolding build_settings lookup str_eq codes
shadowed_test = refl

source_of_tests :
    (source_of layers (codes "weaviate_url") ≡ some (codes "env"))
    × (source_of layers (codes "gemini_model") ≡ some (codes "../.env"))
unfolding source_of str_eq codes
source_of_tests = (refl, refl)
