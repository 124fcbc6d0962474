-- ===== src/Scripts/SeedLocal.antt =====
-- backend/scripts/seed_local.py: the widget keys and the owners of the two demo tenants. The
-- database pool and the HTTP client are parameters.
pub mod Entries
pub mod Keys
pub mod Listing
pub mod Admin
pub mod Users
pub mod Resolves
pub mod Memory
pub mod Tests
use honest_agent.Prelude.{
  Bool, true, false, Option, none, some, List, [], ◌∷◌, ◌++◌, ◌||◌, ◌==◌, if◌then◌else◌,
}
use honest_agent.Py.Str.{Str, codes, str_eq}
use honest_agent.Py.Dict.{Dict}
use honest_agent.Py.Value.{
  Value, Items, Fields, pos, obj, arr, str, int, bool, no_items, item, end, field, get, find,
}
use honest_agent.Py.Exec.{
  Result, ok, raised, attribute_error, key_error, runtime_error, type_error, Action, pure, lift,
  try_finally, for_each, ◌>>=◌, ◌>>◌,
}
use honest_agent.Py.Http.{HttpResponse}
use honest_agent.Core.Db.{with_context}
use honest_agent.Core.Settings.{Settings}

abbrev pub widget_keys : Dict (Str × List Str)
widget_keys =
    (
      codes "wk_tenant_a_public",
      (codes "tenant-a", codes "tenant-a.example.com" ∷ codes "localhost" ∷ []),
    )
    ∷ (
      codes "wk_tenant_b_public",
      (codes "tenant-b", codes "tenant-b.example.com" ∷ codes "localhost" ∷ []),
    )
    ∷ []

abbrev pub owner_users : Dict Str
owner_users =
    (codes "owner-a@example.com", codes "tenant-a")
    ∷ (codes "owner-b@example.com", codes "tenant-b")
    ∷ []

abbrev pub owner_password : Str
owner_password = codes "owner-password-123"

abbrev pub create_table : Str
create_table =
    codes "\nCREATE TABLE IF NOT EXISTS widget_keys (\n"
    ++ codes "    key TEXT PRIMARY KEY,\n"
    ++ codes "    tenant_id TEXT NOT NULL,\n"
    ++ codes "    allowed_hosts TEXT[] NOT NULL DEFAULT '{}'\n)\n"

abbrev pub upsert_key : Str
upsert_key =
    codes "\nINSERT INTO widget_keys (key, tenant_id, allowed_hosts)\n"
    ++ codes "VALUES ($1, $2, $3)\n"
    ++ codes "ON CONFLICT (key) DO UPDATE\n"
    ++ codes "SET tenant_id = EXCLUDED.tenant_id, allowed_hosts = EXCLUDED.allowed_hosts\n"

-- A bind parameter of a statement.
pub data Param : Type 0 where
  text : Str → Param
  texts : List Str → Param

-- The owner's pool: `open` with its address, the two ends of `async with pool.acquire()`, a
-- statement with its parameters, and `close`.
pub record OwnerPool (S : Type 0) : Type 0 where
  pub create_pool : (dsn : Str) → Action S (Unit {0})
  pub acquire : Action S (Unit {0})
  pub release : Bool → Action S (Unit {0})
  pub execute : Str → List Param → Action S (Unit {0})
  pub close : Action S (Unit {0})

-- The calls of `httpx.AsyncClient`: address, headers, and the JSON body or the query of the URL.
pub record AdminClient (S : Type 0) : Type 0 where
  pub post : Str → Dict Str → Value → Action S HttpResponse
  pub get : Str → Dict Str → (params : Fields) → Action S HttpResponse
  pub put : Str → Dict Str → Value → Action S HttpResponse

module _ {S : Type 0} (pool : OwnerPool S) where
  -- One round of the loop over `WIDGET_KEYS`.
  unfoldable pub upsert : Str × (Str × List Str) → Action S (Unit {0})
  upsert (key, (tenant_id, hosts)) =
      pool.execute upsert_key (text key ∷ text tenant_id ∷ texts hosts ∷ [])

  unfoldable pub write_keys : Dict (Str × List Str) → Action S (Unit {0})
  write_keys keys = do pool.execute create_table []; for_each keys upsert

  unfoldable pub seed_widget_keys : Settings → Action S (Unit {0})
  seed_widget_keys settings = do
    pool.create_pool settings.database_url
    try_finally (with_context pool.acquire pool.release (write_keys widget_keys)) pool.close

-- `{"app_metadata": {"tenant_id": tenant_id}}`, the value of the first key.
unfoldable pub metadata : Str → Value
metadata tenant_id = obj (field (codes "tenant_id") (str tenant_id) end)

unfoldable pub new_user : Str → Str → Value
unfolding metadata
new_user email tenant_id = obj (
    field (codes "email") (str email) (
      field (codes "password") (str owner_password) (
        field (codes "email_confirm") (bool true)
          (field (codes "app_metadata") (metadata tenant_id) end))))

unfoldable pub user_update : Str → Value
unfolding metadata
user_update tenant_id = obj (
    field (codes "app_metadata") (metadata tenant_id) (
      field (codes "password") (str owner_password)
        (field (codes "email_confirm") (bool true) end)))

-- `v == text`, for a JSON value.
unfoldable pub is_text : Str → Value → Bool
is_text expected (str s) = str_eq s expected
is_text expected _ = false

-- The first user with the address, looked for in order: what stands behind it is not read.
unfoldable pub find_user : Str → Items → Result (Option Fields)
unfolding is_text
find_user email no_items = ok none
find_user email (item (obj user) users) =
    let rest = find_user email users in
    if is_text email (get (codes "email") user) then ok (some user) else rest
find_user email (item _ users) = raised attribute_error

-- The loop over what stands under "users": a text or a `dict` gives texts, which have no `get`.
unfoldable pub find_among : Str → Option Value → Result (Option Fields)
unfolding find_user
find_among email none = ok none
find_among email (some (arr users)) = find_user email users
find_among email (some (str [])) = ok none
find_among email (some (obj end)) = ok none
find_among email (some (str s)) = raised attribute_error
find_among email (some (obj fields)) = raised attribute_error
find_among email (some _) = raised type_error

unfoldable pub find_listed : Str → Value → Result (Option Fields)
unfolding find_among
find_listed email (obj payload) = find_among email (find (codes "users") payload)
find_listed email _ = raised attribute_error

abbrev pub listing_params : Fields
listing_params = field (codes "page") (int (pos 1)) (field (codes "per_page") (int (pos 200)) end)

unfoldable pub admin_headers : Str → Dict Str
admin_headers role_key =
    (codes "apikey", role_key)
    ∷ (codes "Authorization", codes "Bearer " ++ role_key)
    ∷ (codes "Content-Type", codes "application/json")
    ∷ []

unfoldable pub is_created : HttpResponse → Bool
is_created response = response.status_code == 200 || response.status_code == 201

-- `format` is `str(v)`, for a value that is no text.
unfoldable pub user_url : (format : Value → Str) → Str → Option Value → Result Str
user_url format admin_url none = raised key_error
user_url format admin_url (some (str id)) = ok (admin_url ++ codes "/" ++ id)
user_url format admin_url (some v) = ok (admin_url ++ codes "/" ++ format v)

module _ {S : Type 0} (format : Value → Str) (client : AdminClient S) (admin_url : Str)
    (headers : Dict Str) where
  -- What follows the search for the user.
  unfoldable pub update_user : Str → HttpResponse → Option Fields → Action S (Unit {0})
  unfolding user_url
  update_user tenant_id created none = lift created.raise_for_status
  update_user tenant_id created (some user) = do
    url ← lift (user_url format admin_url (find (codes "id") user))
    updated ← client.put url headers (user_update tenant_id)
    lift updated.raise_for_status

  -- The part of `_ensure_one_user` for a user that could not be created.
  unfoldable pub update_existing : Str → Str → HttpResponse → Action S (Unit {0})
  unfolding update_user find_listed
  update_existing email tenant_id created = do
    listing ← client.get admin_url headers listing_params
    lift listing.raise_for_status
    payload ← lift listing.json
    found ← lift (find_listed email payload)
    update_user tenant_id created found

  unfoldable pub ensure_one_user : Str × Str → Action S (Unit {0})
  unfolding is_created update_existing
  ensure_one_user (email, tenant_id) = do
    created ← client.post admin_url headers (new_user email tenant_id)
    if is_created created then pure tt else update_existing email tenant_id created

module _ {S : Type 0} (format : Value → Str) (client : AdminClient S) where
  unfoldable pub ensure_users : Option Str → Option Str → Action S (Unit {0})
  ensure_users none role_key = lift (raised runtime_error)
  ensure_users (some url) none = lift (raised runtime_error)
  ensure_users (some url) (some role_key) =
      for_each owner_users (
        ensure_one_user format client (url ++ codes "/auth/v1/admin/users")
          (admin_headers role_key))

  unfoldable pub ensure_owner_users : Settings → Action S (Unit {0})
  unfolding ensure_users
  ensure_owner_users settings =
      ensure_users settings.supabase_url settings.supabase_service_role_key

  -- `main`, with the settings that `get_settings` has read.
  unfoldable pub seed : OwnerPool S → Settings → Action S (Unit {0})
  seed pool settings = do seed_widget_keys pool settings; ensure_owner_users settings
