-- ===== src/Scripts/SeedLocal/Admin.antt =====
-- What the admin API documents of the accounts, and the bodies that the script sends to it.
use honest_agent.Prelude.{
  ◌==◌, ◌||◌, ◌≡◌, refl, ◌≢◌, true, false, Option, some, ◌++◌, if◌then◌else◌,
}
use honest_agent.Py.Str.{Str, codes, str_eq}
use honest_agent.Py.Dict.{Dict}
use honest_agent.Py.Value.{Value, Items, Fields, obj, arr, str, get, find}
use honest_agent.Py.Exec.{ok}
use honest_agent.Py.Http.{HttpResponse}
use honest_agent.Scripts.SeedLocal.{AdminClient, new_user, user_update, metadata}
use honest_agent.Scripts.SeedLocal.Listing.{Listed}

-- The tenant of an account after a call that is about one account.
abbrev pub SetsTenant :
    {S : Type 0} → (S → Str → Option Str) → (email tenant_id : Str) → S → S → Type 0
SetsTenant tenant_of email tenant_id s t =
    (other : Str)
    → tenant_of t other ≡ (if str_eq email other then some tenant_id else tenant_of s other)

-- A body gives an account this tenant.
pub record Gives (body : Value) (tenant_id : Str) : Type 0 where
  pub fields : Fields
  pub app_metadata : Fields
  pub is_object : body ≡ obj fields
  pub has_metadata : get (codes "app_metadata") fields ≡ obj app_metadata
  pub has_tenant : get (codes "tenant_id") app_metadata ≡ str tenant_id

-- What the admin API documents, for accounts that no one else writes to: `tenant_of` is the tenant
-- in the `app_metadata` of an address, `HasId` tells which id an address has. A user is created
-- where the answer is 200 or 201, and an answer that says neither is an error. A list of users gives
-- the id of each with its address, and a user is updated at the address of its id. Listing changes
-- no tenant, nor does a creation that fails.
pub record AdminLaws {S : Type 0} (client : AdminClient S) (admin_url : Str) (headers : Dict Str)
    (tenant_of : S → Str → Option Str) : Type 1 where
  pub HasId : S → (id email : Str) → Type 0
  pub post_creates :
      (email tenant_id : Str) (body : Value) (gives : Gives body tenant_id) (created : HttpResponse)
      (s t : S)
      → get (codes "email") gives.fields ≡ str email
      → client.post admin_url headers body s ≡ (ok created, t)
      → created.status_code == 200 || created.status_code == 201 ≡ true
      → SetsTenant tenant_of email tenant_id s t
  pub post_refused :
      (body : Value) (created : HttpResponse) (s t : S)
      → client.post admin_url headers body s ≡ (ok created, t)
      → created.status_code == 200 || created.status_code == 201 ≡ false
      → (created.raise_for_status ≢ ok tt) × ((other : Str) → tenant_of t other ≡ tenant_of s other)
  pub get_keeps :
      (params : Fields) (s : S) (other : Str)
      → tenant_of (client.get admin_url headers params s).1 other ≡ tenant_of s other
  pub get_lists :
      (params payload user : Fields) (users : Items) (email : Str) (listing : HttpResponse)
      (s t : S)
      → client.get admin_url headers params s ≡ (ok listing, t)
      → listing.json ≡ ok (obj payload)
      → find (codes "users") payload ≡ some (arr users)
      → Listed user users
      → get (codes "email") user ≡ str email
      → (id : Str) × (find (codes "id") user ≡ some (str id)) × HasId t id email
  pub put_updates :
      (id email tenant_id : Str) (body : Value) (updated : HttpResponse) (s t : S)
      → HasId s id email
      → Gives body tenant_id
      → client.put (admin_url ++ codes "/" ++ id) headers body s ≡ (ok updated, t)
      → updated.raise_for_status ≡ ok tt
      → SetsTenant tenant_of email tenant_id s t

pub user_update-Gives : (tenant_id : Str) → Gives (user_update tenant_id) tenant_id
unfolding user_update metadata get codes str_eq
user_update-Gives tenant_id = record {
  fields = _;
  app_metadata = _;
  is_object = refl;
  has_metadata = refl;
  has_tenant = refl;
}

pub new_user-Gives :
    (email tenant_id : Str)
    → (gives : Gives (new_user email tenant_id) tenant_id) × (get (codes "email") gives.fields
        ≡ str email)
unfolding new_user metadata get codes str_eq
new_user-Gives email tenant_id = (
  record { fields = _; app_metadata = _; is_object = refl; has_metadata = refl; has_tenant = refl },
  refl,
)
