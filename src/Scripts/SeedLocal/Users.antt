-- ===== src/Scripts/SeedLocal/Users.antt =====
-- What the seeding leaves with the service that keeps the owners.
use honest_agent.Prelude.{
  ap, ◌≡◌, refl, ◌≢◌, ◌∙◌, inl, inr, false, Option, none, some, ◌++◌, arith, if◌then◌else◌,
  Bool-cases,
}
use honest_agent.Py.Str.{Str, codes, str_eq}
use honest_agent.Py.Str.Laws.{eq_of_str_eq}
use honest_agent.Py.Dict.{Dict, lookup}
use honest_agent.Py.Value.{Value, Fields, str, find}
use honest_agent.Py.Exec.{ok, Action, bind-ok, lift, pure, ◌>>=◌, ◌>>◌}
use honest_agent.Py.Http.{HttpResponse}
use honest_agent.Core.Settings.{Settings}
use honest_agent.Scripts.SeedLocal.Entries.{assigned, Sets, for_each-assigned}
use honest_agent.Scripts.SeedLocal.{
  owner_users, AdminClient, new_user, user_update, find_listed, listing_params, admin_headers,
  is_created, user_url, update_user, update_existing, ensure_one_user, ensure_users,
  ensure_owner_users,
}
use honest_agent.Scripts.SeedLocal.Listing.{find_listed_sound}
use honest_agent.Scripts.SeedLocal.Admin.{SetsTenant, AdminLaws, user_update-Gives, new_user-Gives}

module _ {S : Type 0} (format : Value → Str) (client : AdminClient S) (admin_url : Str)
    (headers : Dict Str) (tenant_of : S → Str → Option Str)
    (laws : AdminLaws client admin_url headers tenant_of) where
  -- The update of the user that the listing has shown, or the error of the creation.
  update_user-SetsTenant :
      (email tenant_id : Str) (payload : Value) (listing created : HttpResponse) (o : Option Fields)
      (s t u : S)
      → created.raise_for_status ≢ ok tt
      → client.get admin_url headers listing_params s ≡ (ok listing, t)
      → listing.json ≡ ok payload
      → find_listed email payload ≡ ok o
      → update_user format client admin_url headers tenant_id created o t ≡ (ok tt, u)
      → SetsTenant tenant_of email tenant_id s u
  unfolding update_user
  update_user-SetsTenant email tenant_id payload listing created none s t u failed got read found
        h =
      absurd (failed (ground arith))
  update_user-SetsTenant email tenant_id payload listing created (some user) s t u failed got read
        found h =
      let (url, (t1, addressed, rest)) =
        bind-ok (lift (user_url format admin_url (find (codes "id") user)))
          (λ url. client.put url headers (user_update tenant_id) >>= λ r. lift r.raise_for_status) t
          u tt h in
      let (updated, (u1, wrote, ended)) =
        bind-ok (client.put url headers (user_update tenant_id)) (λ r. lift r.raise_for_status) t1 u
          tt rest in
      let (fields, users, is_object, shown, listed, named) =
        find_listed_sound email payload user found in
      let (id, has_id, owned) =
        laws.get_lists listing_params fields user users email listing s t got
          (read ∙ ap ok is_object) shown listed named in
      let at : user_url format admin_url (some (str id)) ≡ ok (admin_url ++ codes "/" ++ id) =
        unfold user_url in refl in
      let same : url ≡ admin_url ++ codes "/" ++ id =
        ground (arith, ap (user_url format admin_url) has_id) in
      λ other.
        let kept = laws.get_keeps listing_params s other in
        let set =
          laws.put_updates id email tenant_id (user_update tenant_id) updated t u owned
            (user_update-Gives tenant_id) (ground arith) (ground arith) other in
        ground arith

  update_existing-SetsTenant :
      (email tenant_id : Str) (created : HttpResponse) (s t : S)
      → created.raise_for_status ≢ ok tt
      → update_existing format client admin_url headers email tenant_id created s ≡ (ok tt, t)
      → SetsTenant tenant_of email tenant_id s t
  unfolding update_existing
  update_existing-SetsTenant email tenant_id created s t failed h =
      let update : Option Fields → Action S (Unit {0}) =
        update_user format client admin_url headers tenant_id created in
      let (listing, (s1, got, rest)) =
        bind-ok (client.get admin_url headers listing_params)
          (λ (listing : HttpResponse).
            lift listing.raise_for_status
            >> (lift listing.json >>= λ payload. lift (find_listed email payload) >>= update))
          s t tt h in
      let (x, (s2, fine, rest')) =
        bind-ok (lift listing.raise_for_status)
          (λ x. lift listing.json >>= λ payload. lift (find_listed email payload) >>= update) s1 t
          tt rest in
      let (payload, (s3, read, rest'')) =
        bind-ok (lift listing.json) (λ payload. lift (find_listed email payload) >>= update) s2 t tt
          rest' in
      let (o, (s4, searched, last)) =
        bind-ok (lift (find_listed email payload)) update s3 t tt rest'' in
      update_user-SetsTenant email tenant_id payload listing created o s s1 t failed got
        (ground arith) (ground arith) (ground arith)

  ensure_one_user-Sets : Sets (λ t. t) tenant_of (ensure_one_user format client admin_url headers)
  unfolding ensure_one_user
  ensure_one_user-Sets email tenant_id s t other h =
      let (created, (s1, posted, rest)) =
        bind-ok (client.post admin_url headers (new_user email tenant_id))
          (λ (created : HttpResponse).
            if is_created created
            then pure tt
            else update_existing format client admin_url headers email tenant_id created)
          s t tt h in
      elim (Bool-cases (is_created created)) [
        | inl new ↦
            let (gives, named) = new_user-Gives email tenant_id in
            let sets =
              laws.post_creates email tenant_id (new_user email tenant_id) gives created s s1 named
                posted (unfold is_created in new) other in
            ground arith
        | inr old ↦
            let (failed, kept) =
              laws.post_refused (new_user email tenant_id) created s s1 posted
                (unfold is_created in old) in
            let sets =
              update_existing-SetsTenant email tenant_id created s1 t failed (ground arith) other in
            ground (arith, kept other)
      ]

-- The tenant that `OWNER_USERS` gives an address, and the one before for an address that it does
-- not name.
unfoldable pub or_tenant : Option Str → Option Str → Option Str
or_tenant none o = o
or_tenant (some tenant_id) o = some tenant_id

assigned-owner_users :
    (email : Str) (o : Option Str)
    → assigned (λ t. t) owner_users email o ≡ or_tenant (lookup email owner_users) o
unfolding assigned or_tenant lookup
assigned-owner_users email o = ground (
  arith,
  eq_of_str_eq (codes "owner-a@example.com") email,
  eq_of_str_eq (codes "owner-b@example.com") email,
  different,
)
  where
    different : str_eq (codes "owner-b@example.com") (codes "owner-a@example.com") ≡ false
    different = unfold codes str_eq in refl

-- Where the admin API keeps `AdminLaws` at the address that the settings give, and the seeding of
-- the owners succeeds: each address has afterwards the tenant that `OWNER_USERS` gives it, whether
-- its account was there before or not, and an address that it does not name has the tenant that it
-- had.
pub ensure_owner_users-tenant :
    {S : Type 0} (format : Value → Str) (client : AdminClient S) (settings : Settings)
    (url role_key : Str) (tenant_of : S → Str → Option Str) (s t : S) (email : Str)
    → settings.supabase_url ≡ some url
    → settings.supabase_service_role_key ≡ some role_key
    → AdminLaws client (url ++ codes "/auth/v1/admin/users") (admin_headers role_key) tenant_of
    → ensure_owner_users format client settings s ≡ (ok tt, t)
    → tenant_of t email ≡ or_tenant (lookup email owner_users) (tenant_of s email)
unfolding ensure_owner_users ensure_users
ensure_owner_users-tenant format client settings url role_key tenant_of s t email given keyed laws
      h =
    let admin_url = url ++ codes "/auth/v1/admin/users" in
    let headers = admin_headers role_key in
    for_each-assigned (λ t. t) tenant_of (ensure_one_user format client admin_url headers)
      (ensure_one_user-Sets format client admin_url headers tenant_of laws) owner_users s t email
      (ground arith)
    ∙ assigned-owner_users email (tenant_of s email)
