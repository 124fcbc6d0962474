-- ===== src/Scripts/SeedLocal/Memory.antt =====
-- A table and an admin API in memory, for the tests of the seeding.
use honest_agent.Prelude.{
  ◌≡◌, refl, inl, inr, Option, none, some, List, [], ◌∷◌, ◌++◌, arith, Option-cases,
}
use honest_agent.Py.Str.{Str, codes, str_eq}
use honest_agent.Py.Dict.{Dict, lookup, assign, lookup-assign}
use honest_agent.Py.Value.{
  Value, Items, Fields, obj, arr, str, null, no_items, item, end, field, get, find,
}
use honest_agent.Py.Exec.{ok, raised, http_status_error, Action}
use honest_agent.Py.Http.{HttpResponse}
use honest_agent.Tenants.WidgetKeys.{Row}
use honest_agent.Scripts.SeedLocal.{Param, text, texts, OwnerPool, AdminClient, admin_headers}
use honest_agent.Scripts.SeedLocal.Keys.{TableLaws}
use honest_agent.Scripts.SeedLocal.Listing.{Listed, here, there}
use honest_agent.Scripts.SeedLocal.Admin.{Gives, AdminLaws}

-- The rows, and the accounts by their address with their tenant.
pub record Store : Type 0 where
  pub rows : Dict Row
  pub accounts : Dict Str

unfoldable pub run_statement : List Param → Dict Row → Dict Row
run_statement (text key ∷ text tenant_id ∷ texts hosts ∷ []) rows =
    assign key (record { tenant_id = tenant_id; allowed_hosts = hosts }) rows
run_statement _ rows = rows

abbrev pub stay : Action Store (Unit {0})
stay s = (ok tt, s)

abbrev pub pool : OwnerPool Store
pool = record {
  create_pool = λ dsn. stay;
  acquire = stay;
  release = λ done. stay;
  execute = λ statement params s. (ok tt, record s { rows = run_statement params s.rows });
  close = stay;
}

abbrev pub row : Store → Str → Option Row
row s key = lookup key s.rows

pub table : TableLaws pool row
unfolding run_statement
table = record {
  create_pool_keeps = λ dsn s key. refl;
  acquire_keeps = λ s key. refl;
  release_keeps = λ done s key. refl;
  close_keeps = λ s key. refl;
  create_table_keeps = λ s t key h. ground arith;
  upsert_key_sets = λ key tenant_id hosts s t other h. ground (
    arith,
    lookup-assign key other (record { tenant_id = tenant_id; allowed_hosts = hosts }) s.rows,
  );
}

unfoldable pub text_of : Value → Str
text_of (str s) = s
text_of _ = []

unfoldable pub fields_of : Value → Fields
fields_of (obj fields) = fields
fields_of _ = end

unfoldable pub email_of : Value → Str
email_of body = text_of (get (codes "email") (fields_of body))

unfoldable pub tenant_in : Value → Str
tenant_in body =
    text_of (get (codes "tenant_id") (fields_of (get (codes "app_metadata") (fields_of body))))

abbrev pub answered : Value → HttpResponse
answered body = record { status_code = 200; raise_for_status = ok tt; json = ok body }

abbrev pub refused : HttpResponse
refused = record { status_code = 422; raise_for_status = raised http_status_error; json = ok null }

unfoldable pub create : Option Str → Value → Action Store HttpResponse
create none body s =
    (ok (answered null), record s { accounts = assign (email_of body) (tenant_in body) s.accounts })
create (some tenant_id) body s = (ok refused, s)

-- An account's id is its address.
unfoldable pub users_of : Dict Str → Items
users_of [] = no_items
users_of ((email, tenant_id) ∷ accounts) =
    item (obj (field (codes "id") (str email) (field (codes "email") (str email) end)))
      (users_of accounts)

unfoldable pub behind : Str → Str → Str
behind [] s = s
behind (c ∷ p) [] = []
behind (c ∷ p) (d ∷ s) = behind p s

behind-append : (p s : Str) → behind p (p ++ s) ≡ s
unfolding behind
behind-append [] s = refl
behind-append (c ∷ p) s = behind-append p s

abbrev pub admin_url : Str
admin_url = codes "http://auth" ++ codes "/auth/v1/admin/users"

abbrev pub client : AdminClient Store
client = record {
  post = λ url headers body s. create (lookup (email_of body) s.accounts) body s;
  get = λ url headers params s.
      (ok (answered (obj (field (codes "users") (arr (users_of s.accounts)) end))), s);
  put = λ url headers body s. (
    ok (answered null),
    record s {
      accounts = assign (behind (admin_url ++ codes "/") url) (tenant_in body) s.accounts;
    },
  );
}

abbrev pub format : Value → Str
format v = []

abbrev pub tenant_of : Store → Str → Option Str
tenant_of s email = lookup email s.accounts

Listed-find :
    (email : Str) (accounts : Dict Str) (user : Fields)
    → Listed user (users_of accounts)
    → get (codes "email") user ≡ str email
    → find (codes "id") user ≡ some (str email)
unfolding users_of find get codes str_eq
Listed-find email [] user listed named = elim listed [ ]
Listed-find email ((other, tenant_id) ∷ accounts) user here named = ground arith
Listed-find email ((other, tenant_id) ∷ accounts) user (there listed) named =
    Listed-find email accounts user listed named

body_email :
    (body : Value) (tenant_id email : Str) (gives : Gives body tenant_id)
    → get (codes "email") gives.fields ≡ str email
    → email_of body ≡ email
unfolding email_of text_of fields_of
body_email body tenant_id email gives named = rw gives.is_object (rw named refl)

body_tenant : (body : Value) (tenant_id : Str) → Gives body tenant_id → tenant_in body ≡ tenant_id
unfolding tenant_in text_of fields_of
body_tenant body tenant_id gives =
    rw gives.is_object (rw gives.has_metadata (rw gives.has_tenant refl))

listing_users :
    (accounts : Dict Str) (payload : Fields) (users : Items)
    → payload ≡ field (codes "users") (arr (users_of accounts)) end
    → find (codes "users") payload ≡ some (arr users)
    → users ≡ users_of accounts
unfolding find codes str_eq
listing_users accounts payload users same shown = ground arith

pub admin : AdminLaws client admin_url (admin_headers (codes "role")) tenant_of
unfolding create
admin = record {
  HasId = λ s id email. id ≡ email;
  post_creates = λ email tenant_id body gives created s t named h new other.
      let addressed = body_email body tenant_id email gives named in
      let given = body_tenant body tenant_id gives in
      elim (Option-cases (lookup (email_of body) s.accounts)) [
        | inr (old, taken) ↦ absurd (ground arith)
        | inl absent ↦ ground (arith, lookup-assign email other tenant_id s.accounts)
      ];
  post_refused = λ body created s t h old. elim (Option-cases (lookup (email_of body) s.accounts)) [
    | inr (was, taken) ↦ (λ fine. ground arith, λ other. ground arith)
    | inl absent ↦ absurd (ground arith)
  ];
  get_keeps = λ params s other. refl;
  get_lists = λ params payload user users email listing s t got read shown listed named.
      let same : users ≡ users_of s.accounts =
        listing_users s.accounts payload users (ground arith) shown in
      (email, Listed-find email s.accounts user (rw same at listed) named, refl);
  put_updates = λ id email tenant_id body updated s t same gives h fine other.
      let given = body_tenant body tenant_id gives in
      let tail = behind-append (admin_url ++ codes "/") id in
      ground (arith, lookup-assign email other tenant_id s.accounts);
}
