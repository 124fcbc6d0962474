-- ===== src/Scripts/E2eDoors/OwnerServed.antt =====
-- What the owner's checks rely on: a login, the running app and how it renders an identity.
use honest_agent.Prelude.{◌≡◌, refl, Option, some, [], ◌∷◌, ◌++◌, arith}
use honest_agent.Py.Str.{Str, codes, strip, drop_while, drop_while_end, is_space, is_empty, str_eq}
use honest_agent.Py.Dict.{Dict, lookup}
use honest_agent.Py.Unicode.{Unicode, UnicodeLaws}
use honest_agent.Py.Value.{Value, Fields, obj, str, field, end, find}
use honest_agent.Py.Exec.{ok, Action, for_each}
use honest_agent.Py.Http.{HttpResponse}
use honest_agent.Core.Bearer.{parse_bearer}
use honest_agent.Core.Bearer.Laws.{parse_bearer-Bearer}
use honest_agent.Core.Errors.{Response}
use honest_agent.Core.Settings.{Settings}
use honest_agent.Tenants.Router.{OwnerIdentity}
use honest_agent.Scripts.SeedLocal.{owner_password}
use honest_agent.Scripts.E2eDoors.Checks.{token_of, expect}
use honest_agent.Scripts.E2eDoors.Web.{
  HttpClient, token_url, api_key, me_path, supabase_owner_token, owner_checks, owner_door,
}

-- The login service takes the seeded owner's password and answers with this token.
pub record LogsIn {S : Type 0} (client : HttpClient S) (format : Value → Str) (settings : Settings)
    (token : Str) : Type 0 where
  pub reply : HttpResponse
  pub payload : Fields
  pub posted :
      (s : S)
      → client.post
          (token_url settings)
          (field (codes "grant_type") (str (codes "password")) end)
          ((codes "apikey", api_key settings) ∷ [])
          (obj (
            field
              (codes "email")
              (str (codes "owner-a@example.com"))
              (field (codes "password") (str owner_password) end)))
          s
        ≡ (ok reply, s)
  pub fine : reply.raise_for_status ≡ ok tt
  pub json : reply.json ≡ ok (obj payload)
  pub issued : find (codes "access_token") payload ≡ some (str token)
  pub written : format (str token) ≡ token

-- The running app: a GET of the owner's route is answered as the modelled endpoint answers it.
pub record ServesOwner {S : Type 0} (endpoint : Option Str → Action S Response)
    (client : HttpClient S) (base_url : Str) : Type 0 where
  pub received : Response → HttpResponse
  pub same_status : (response : Response) → (received response).status_code ≡ response.status_code
  pub same_content : (response : Response) → (received response).json ≡ ok response.content
  pub served :
      (headers : Dict Str) (response : Response) (s t : S)
      → endpoint (lookup (codes "Authorization") headers) s ≡ (ok response, t)
      → client.get (base_url ++ me_path) headers s ≡ (ok (received response), t)

-- An identity is sent as JSON with status 200.
pub record RendersIdentity (render : OwnerIdentity → Response) : Type 0 where
  pub fine : (i : OwnerIdentity) → (render i).status_code ≡ 200
  pub dumped :
      (i : OwnerIdentity)
      → (render i).content
        ≡ obj (
            field
              (codes "tenant_id")
              (str i.tenant_id)
              (field (codes "user_id") (str i.user_id) end))

pub bearer_junk :
    (unicode : Unicode)
    → UnicodeLaws unicode
    → parse_bearer unicode (some (codes "Bearer not-a-jwt")) ≡ ok (codes "not-a-jwt")
unfolding codes strip drop_while drop_while_end is_space is_empty
bearer_junk unicode laws = parse_bearer-Bearer unicode (codes "not-a-jwt") laws refl refl

logged_in :
    {S : Type 0} (client : HttpClient S) (format : Value → Str) (base_url : Str)
    (settings : Settings) (token : Str) (s : S)
    → LogsIn client format settings token
    → supabase_owner_token client format base_url settings (codes "owner-a@example.com") s
      ≡ (ok (str token), s)
unfolding supabase_owner_token token_of
logged_in client format base_url settings token s l =
    ground (arith, l.posted s, l.fine, l.json, l.issued)

pub owner_door-LogsIn :
    {S : Type 0} (client : HttpClient S) (format : Value → Str) (base_url : Str)
    (settings : Settings) (token : Str) (s : S)
    → LogsIn client format settings token
    → owner_door client format base_url settings (s, [])
      ≡ for_each (owner_checks client format base_url (str token)) expect (s, [])
unfolding owner_door
owner_door-LogsIn client format base_url settings token s l =
    ground (arith, logged_in client format base_url settings token s l)

pub authorization :
    (value : Str)
    → lookup (codes "Authorization") ((codes "Authorization", value) ∷ []) ≡ some value
unfolding lookup codes str_eq
authorization value = refl
