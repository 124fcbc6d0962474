-- ===== src/Scripts/E2eDoors/Web.antt =====
-- The owner door and the visitor door of backend/scripts/e2e_doors.py. The HTTP client is a parameter,
-- as is the running app behind it; it puts
-- `base_url` before a path.
use honest_agent.Prelude.{none, some, List, [], ◌∷◌, ◌++◌}
use honest_agent.Py.Str.{Str, codes}
use honest_agent.Py.Dict.{Dict}
use honest_agent.Py.Value.{Value, Fields, obj, str, end, field}
use honest_agent.Py.Exec.{Action, lift, for_each, ◌>>=◌, ◌>>◌}
use honest_agent.Py.Http.{HttpResponse}
use honest_agent.Core.Settings.{Settings}
use honest_agent.Scripts.SeedLocal.{owner_password}
use honest_agent.Scripts.E2eDoors.Checks.{
  Results, outside, token_of, is_tenant_a, reaches_core, has_status, HttpCheck, expect, query_of,
}

-- The calls of `httpx.AsyncClient`: address, the query of the URL or none, headers, JSON body.
pub record HttpClient (S : Type 0) : Type 0 where
  pub get : Str → Dict Str → Action S HttpResponse
  pub post : Str → Fields → Dict Str → Value → Action S HttpResponse

-- `settings.supabase_url` in an f-string, and `settings.supabase_anon_key or ""`.
unfoldable pub token_url : Settings → Str
token_url settings = elim settings.supabase_url [
  | none ↦ codes "None/auth/v1/token"
  | some url ↦ url ++ codes "/auth/v1/token"
]

unfoldable pub api_key : Settings → Str
api_key settings = elim settings.supabase_anon_key [ none ↦ [] | some key ↦ key ]

abbrev pub answer_path : Str
answer_path = codes "/v1/widget/answer"

abbrev pub me_path : Str
me_path = codes "/v1/tenants/me"

abbrev pub visitor_headers : (widget_key origin : Str) → Dict Str
visitor_headers widget_key origin =
    (codes "X-Widget-Key", widget_key) ∷ (codes "Origin", origin) ∷ []

-- `format` is how an f-string writes the token.
module _ {S : Type 0} (client : HttpClient S) (format : Value → Str) (base_url : Str) where
  unfoldable pub supabase_owner_token : Settings → Str → Action S Value
  unfolding token_of token_url api_key
  supabase_owner_token settings email = do
    response ←
        client.post (token_url settings) (field (codes "grant_type") (str (codes "password")) end)
          ((codes "apikey", api_key settings) ∷ [])
          (obj
            (field (codes "email") (str email) (field (codes "password") (str owner_password) end)))
    lift response.raise_for_status
    payload ← lift response.json
    lift (token_of payload)

  unfoldable pub owner_checks : (token : Value) → List (HttpCheck S)
  unfolding is_tenant_a has_status
  owner_checks token =
      record {
        request =
            client.get (base_url ++ me_path)
              ((codes "Authorization", codes "Bearer " ++ format token) ∷ []);
        test = is_tenant_a;
        text = codes "valid Supabase token accepted, tenant resolved";
      }
      ∷ record {
        request = client.get (base_url ++ me_path) [];
        test = has_status 401;
        text = codes "no token rejected";
      }
      ∷ record {
        request =
            client.get (base_url ++ me_path)
              ((codes "Authorization", codes "Bearer not-a-jwt") ∷ []);
        test = has_status 401;
        text = codes "garbage token rejected";
      }
      ∷ []

  unfoldable pub owner_door : Settings → Action (S × Results) (Unit {0})
  unfolding supabase_owner_token expect owner_checks
  owner_door settings = do
    token ← outside (supabase_owner_token settings (codes "owner-a@example.com"))
    for_each (owner_checks token) expect

  -- A POST to the visitor's endpoint.
  unfoldable pub ask : (widget_key origin query : Str) → Action S HttpResponse
  ask widget_key origin query =
      client.post (base_url ++ answer_path) end (visitor_headers widget_key origin) (query_of query)

  unfoldable pub visitor_checks : List (HttpCheck S)
  unfolding reaches_core has_status ask
  visitor_checks =
      record {
        request =
            ask (codes "wk_tenant_a_public") (codes "https://tenant-a.example.com")
              (codes "how do I rotate a key?");
        test = reaches_core;
        text = codes "allowed key + origin reaches core, verdict fused";
      }
      ∷ record {
        request = ask (codes "wk_tenant_a_public") (codes "https://evil.com") (codes "hi");
        test = has_status 403;
        text = codes "disallowed origin 403";
      }
      ∷ record {
        request = ask (codes "wk_unknown") (codes "https://tenant-a.example.com") (codes "hi");
        test = has_status 401;
        text = codes "unknown key rejected";
      }
      ∷ []

  unfoldable pub visitor_door : Action (S × Results) (Unit {0})
  unfolding expect visitor_checks
  visitor_door = for_each visitor_checks expect
