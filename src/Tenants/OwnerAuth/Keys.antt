-- ===== src/Tenants/OwnerAuth/Keys.antt =====
-- The cache of the signing keys: `JwksKeyResolver` and the fetch behind it
-- (backend/src/app/tenants/owner_auth.py).
pub mod Laws
use honest_agent.Prelude.{Option, none, some, List, [], ◌∷◌}
use honest_agent.Py.Str.{Str, codes}
use honest_agent.Py.Dict.{Dict, lookup, assign}
use honest_agent.Py.Value.{
  Value, Items, Fields, str, arr, obj, no_items, item, get, find, nonempty_str,
}
use honest_agent.Py.Exec.{type_error, Result, ok, raised, fail, Action}
use honest_agent.Py.Exec.Checked.{◌>>=◌, ◌>>◌}
use honest_agent.Core.Errors.{authentication_error}

-- The resolver's collaborators: the fetch of the key set, and `PyJWK.from_dict`.
pub record KeySource (W Key : Type 0) : Type 0 where
  pub fetch : Action W (List Fields)
  pub from_dict : Fields → Result Key

-- The resolver's keys, beside the world outside.
pub record Cache (W Key : Type 0) : Type 0 where
  pub keys : Dict Key
  pub world : W

module _ {W Key : Type 0} (source : KeySource W Key) where
  -- One round of the loop in `_refresh`.
  unfoldable pub add_entry : Dict Key → Fields → Result (Dict Key)
  add_entry keys entry = elim (nonempty_str (get (codes "kid") entry)) [
    | none ↦ ok keys
    | some kid ↦ source.from_dict entry >>= λ key. ok (assign kid key keys)
  ]

  unfoldable pub collect : Dict Key → List Fields → Result (Dict Key)
  unfolding add_entry
  collect keys [] = ok keys
  collect keys (entry ∷ entries) = add_entry keys entry >>= λ keys'. collect keys' entries

  -- `self._keys = keys` comes last, so the keys stay as they are where something raises.
  unfoldable pub replace_keys : Dict Key → W → Result (Dict Key) → Result (Unit {0}) × Cache W Key
  replace_keys old world (ok keys) = (ok tt, record { keys = keys; world = world })
  replace_keys old world (raised e) = (raised e, record { keys = old; world = world })

  unfoldable pub refresh : Action (Cache W Key) (Unit {0})
  unfolding replace_keys
  refresh cache =
      let (entries, world) = source.fetch cache.world in
      replace_keys cache.keys world (entries >>= collect [])

  -- The second look at the keys, behind a refresh.
  unfoldable pub after_refresh : Str → Result (Unit {0}) × Cache W Key → Result Key × Cache W Key
  after_refresh kid (ok _, cache) = (
    (elim (lookup kid cache.keys) [
      | none ↦ fail authentication_error (codes "unknown token signing key")
      | some key ↦ ok key
    ]),
    cache,
  )
  after_refresh kid (raised e, cache) = (raised e, cache)

  unfoldable pub get_key : Str → Action (Cache W Key) Key
  unfolding after_refresh
  get_key kid cache = elim (lookup kid cache.keys) [
    | some key ↦ (ok key, cache)
    | none ↦ after_refresh kid (refresh cache)
  ]

-- The entries that are a `dict`.
unfoldable pub dict_entries : Items → List Fields
dict_entries no_items = []
dict_entries (item (obj fields) items) = fields ∷ dict_entries items
dict_entries (item _ items) = dict_entries items

-- Iterating over a text or a `dict` gives texts only, and over the other values it raises.
unfoldable pub entries_of : Option Value → Result (List Fields)
unfolding dict_entries
entries_of none = ok []
entries_of (some (arr items)) = ok (dict_entries items)
entries_of (some (str s)) = ok []
entries_of (some (obj fields)) = ok []
entries_of (some _) = raised type_error

unfoldable pub payload_entries : Value → Result (List Fields)
unfolding entries_of
payload_entries (obj payload) = entries_of (find (codes "keys") payload)
payload_entries _ = ok []

-- `http_get` stands for the request, its status check and the reading of its JSON body.
unfoldable pub jwks_fetch : {W : Type 0} → (Str → Action W Value) → Str → Action W (List Fields)
unfolding payload_entries
jwks_fetch http_get jwks_url world =
    let (payload, world') = http_get jwks_url world in (payload >>= payload_entries, world')
