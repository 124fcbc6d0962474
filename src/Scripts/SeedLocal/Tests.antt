-- ===== src/Scripts/SeedLocal/Tests.antt =====
-- The seeding of a table and an admin API in memory.
use honest_agent.Prelude.{ℕ, ◌≡◌, refl, ◌↔◌, true, Option, none, some, List, [], ◌∷◌}
use honest_agent.Py.Str.{Str, codes, str_eq}
use honest_agent.Py.Dict.{Dict, lookup, assign}
use honest_agent.Py.Value.{pos, Value, obj, str, end, field, get, find}
use honest_agent.Py.Exec.{Result, ok, Action, pure, try_finally, for_each}
use honest_agent.Core.Db.{with_context, returned}
use honest_agent.Core.Settings.{Settings, Required, default_settings}
use honest_agent.Py.Unicode.{ascii_unicode}
use honest_agent.Tenants.Contexts.{VisitorRequestContext}
use honest_agent.Tenants.WidgetKeys.{Row}
use honest_agent.Tenants.RateLimit.{RateLimiter}
use honest_agent.Tenants.Gate.{Visit, authorize}
use honest_agent.Tenants.Gate.Checks.{given_key}
use honest_agent.Scripts.SeedLocal.Resolves.{seeded_gate, Passes, seed-authorize_iff}
use honest_agent.Scripts.SeedLocal.{
  widget_keys, owner_users, upsert, write_keys, seed_widget_keys, metadata, new_user, user_update,
  is_text, find_user, find_among, find_listed, admin_headers, is_created, user_url, update_user,
  update_existing, ensure_one_user, ensure_users, ensure_owner_users, seed,
}
use honest_agent.Scripts.SeedLocal.Keys.{or_row, Works, seed_widget_keys_total}
use honest_agent.Scripts.SeedLocal.Users.{or_tenant, ensure_owner_users-tenant}
use honest_agent.Scripts.SeedLocal.Memory.{
  Store, run_statement, email_of, tenant_in, text_of, fields_of, create, users_of, behind, pool,
  row, client, format, tenant_of, table, admin,
}

running : Unit {0}
unfolding codes str_eq lookup assign get find run_statement email_of tenant_in text_of fields_of
    create users_of behind try_finally for_each with_context returned upsert write_keys
    seed_widget_keys metadata new_user user_update is_text find_user find_among find_listed
    admin_headers is_created user_url update_user update_existing ensure_one_user ensure_users
    ensure_owner_users seed default_settings
running = tt

abbrev required : Required
required = record {
  database_url = codes "postgresql://owner";
  app_database_url = codes "postgresql://app_user";
  weaviate_url = codes "http://localhost:8080";
  supabase_jwt_issuer = codes "iss";
  supabase_jwks_url = codes "http://127.0.0.1:54321/jwks.json";
  mcp_signing_secret = codes "signing";
}

abbrev settings : Settings
settings = record (default_settings required) {
  supabase_url = some (codes "http://auth");
  supabase_service_role_key = some (codes "role");
}

-- One account is there, with another tenant.
abbrev before : Store
before = record { rows = []; accounts = (codes "owner-a@example.com", codes "old") ∷ [] }

abbrev rows_after : Dict Row
rows_after =
    (
      codes "wk_tenant_a_public",
      record {
        tenant_id = codes "tenant-a";
        allowed_hosts = codes "tenant-a.example.com" ∷ codes "localhost" ∷ [];
      },
    )
    ∷ (
      codes "wk_tenant_b_public",
      record {
        tenant_id = codes "tenant-b";
        allowed_hosts = codes "tenant-b.example.com" ∷ codes "localhost" ∷ [];
      },
    )
    ∷ []

abbrev keyed : Store
keyed = record before { rows = rows_after }

abbrev after : Store
after = record { rows = rows_after; accounts = owner_users }

keys_seeded : seed_widget_keys pool settings before ≡ (ok tt, keyed)
unfolding running
keys_seeded = refl

users_seeded : ensure_owner_users format client settings keyed ≡ (ok tt, after)
unfolding running
users_seeded = refl

-- Seeding twice leaves what seeding once leaves.
seed_tests :
    (seed format client pool settings before ≡ (ok tt, after))
    × (seed format client pool settings after ≡ (ok tt, after))
unfolding running
seed_tests = (refl, refl)

pool-Works : Works pool
unfolding running
pool-Works = record {
  creates = λ dsn s. (tt, (s, refl));
  acquires = λ s. (tt, (s, refl));
  releases = λ done s. (tt, (s, refl));
  executes = λ statement params s. (tt, (record s { rows = run_statement params s.rows }, refl));
  closes = λ s. (tt, (s, refl));
}

seed_widget_keys_total_example :
    (t : Store) × (seed_widget_keys pool settings before ≡ (ok tt, t))
    × ((key : Str) → row t key ≡ or_row (lookup key widget_keys) (row before key))
seed_widget_keys_total_example = seed_widget_keys_total pool row settings before table pool-Works

supabase_given :
    (settings.supabase_url ≡ some (codes "http://auth"))
    × (settings.supabase_service_role_key ≡ some (codes "role"))
supabase_given = (refl, refl)

ensure_owner_users-tenant_example :
    tenant_of after (codes "owner-a@example.com")
    ≡ or_tenant
        (lookup (codes "owner-a@example.com") owner_users)
        (tenant_of keyed (codes "owner-a@example.com"))
ensure_owner_users-tenant_example =
    ensure_owner_users-tenant format client settings (codes "http://auth") (codes "role") tenant_of
      keyed after (codes "owner-a@example.com") supabase_given.0 supabase_given.1 admin users_seeded

-- The pool that the gate asks is the same table.
abbrev fetchrow : Str → Action Store (Option Row)
fetchrow key s = (ok (row s key), s)

abbrev limiter : RateLimiter Store
limiter = record { check = λ key ip. pure true }

loads : List ℕ → Result Value
loads body = ok (obj (field (codes "query") (str (codes "hi")) end))

abbrev visit : Visit
visit = record {
  widget_key = some (codes "wk_tenant_b_public");
  origin = some (codes "https://tenant-b.example.com");
  referer = none;
  client_ip = none;
  body = [];
}

given : given_key visit.widget_key ≡ some (codes "wk_tenant_b_public")
unfolding given_key codes
given = refl

named :
    lookup (codes "wk_tenant_b_public") widget_keys
    ≡ some (codes "tenant-b", codes "tenant-b.example.com" ∷ codes "localhost" ∷ [])
unfolding running
named = refl

abbrev context : VisitorRequestContext
context = record { tenant_id = codes "tenant-b"; query = codes "hi" }

seed-authorize_iff_example :
    (authorize ascii_unicode loads (seeded_gate ascii_unicode fetchrow limiter (pos 10)) visit keyed
      ≡ (ok context, keyed))
    ↔ Passes ascii_unicode loads limiter
        (pos 10)
        visit
        (codes "wk_tenant_b_public")
        (codes "tenant-b")
        (codes "tenant-b.example.com" ∷ codes "localhost" ∷ [])
        keyed
        keyed
        context
seed-authorize_iff_example =
    seed-authorize_iff ascii_unicode loads pool row table fetchrow (λ key s. refl) limiter (pos 10)
      settings before keyed keyed (codes "wk_tenant_b_public") (codes "tenant-b")
      (codes "tenant-b.example.com" ∷ codes "localhost" ∷ []) visit context keys_seeded named given
