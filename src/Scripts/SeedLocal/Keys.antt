-- ===== src/Scripts/SeedLocal/Keys.antt =====
-- What the seeding leaves in the table of the widget keys.
use honest_agent.Prelude.{
  ◌≡◌, refl, Bool, true, false, Option, none, some, List, [], ◌∷◌, arith, if◌then◌else◌,
}
use honest_agent.Py.Str.{Str, codes, str_eq}
use honest_agent.Py.Str.Laws.{eq_of_str_eq}
use honest_agent.Py.Dict.{lookup}
use honest_agent.Py.Exec.{ok, bind-ok, try_finally, try_finally_ok, for_each}
use honest_agent.Py.Exec.Returns.{Returns, bind-Returns, for_each-Returns, try_finally-Returns}
use honest_agent.Core.Db.{with_context}
use honest_agent.Core.Db.Laws.{with_context_ok, with_context-Returns}
use honest_agent.Core.Settings.{Settings}
use honest_agent.Tenants.WidgetKeys.{Row}
use honest_agent.Scripts.SeedLocal.Entries.{assigned, Sets, for_each-assigned}
use honest_agent.Scripts.SeedLocal.{
  widget_keys, create_table, upsert_key, Param, text, texts, OwnerPool, upsert, write_keys,
  seed_widget_keys,
}

-- What Postgres does, for a table that no one else writes to: `row` is the row of a key. Only the
-- two statements change it, and each law on them speaks of a call that succeeds.
pub record TableLaws {S : Type 0} (pool : OwnerPool S) (row : S → Str → Option Row) : Type 0 where
  pub create_pool_keeps :
      (dsn : Str) (s : S) (key : Str) → row (pool.create_pool dsn s).1 key ≡ row s key
  pub acquire_keeps : (s : S) (key : Str) → row (pool.acquire s).1 key ≡ row s key
  pub release_keeps :
      (done : Bool) (s : S) (key : Str) → row (pool.release done s).1 key ≡ row s key
  pub close_keeps : (s : S) (key : Str) → row (pool.close s).1 key ≡ row s key
  pub create_table_keeps :
      (s t : S) (key : Str) → pool.execute create_table [] s ≡ (ok tt, t) → row t key ≡ row s key
  pub upsert_key_sets :
      (key tenant_id : Str) (hosts : List Str) (s t : S) (other : Str)
      → pool.execute upsert_key (text key ∷ text tenant_id ∷ texts hosts ∷ []) s ≡ (ok tt, t)
      → row t other ≡ (
          if str_eq key other
          then some (record { tenant_id = tenant_id; allowed_hosts = hosts })
          else row s other)

abbrev pub row_of : Str × List Str → Row
row_of (tenant_id, hosts) = record { tenant_id = tenant_id; allowed_hosts = hosts }

-- The row that `WIDGET_KEYS` gives a key, and the row before for a key that it does not name.
unfoldable pub or_row : Option (Str × List Str) → Option Row → Option Row
or_row none o = o
or_row (some entry) o = some (row_of entry)

assigned-widget_keys :
    (key : Str) (o : Option Row)
    → assigned row_of widget_keys key o ≡ or_row (lookup key widget_keys) o
unfolding assigned or_row lookup
assigned-widget_keys key o = ground (
  arith,
  eq_of_str_eq (codes "wk_tenant_a_public") key,
  eq_of_str_eq (codes "wk_tenant_b_public") key,
  different,
)
  where
    different : str_eq (codes "wk_tenant_b_public") (codes "wk_tenant_a_public") ≡ false
    different = unfold codes str_eq in refl

module _ {S : Type 0} (pool : OwnerPool S) (row : S → Str → Option Row)
    (laws : TableLaws pool row) where
  upsert-Sets : Sets row_of row (upsert pool)
  unfolding upsert
  upsert-Sets key (tenant_id, hosts) s t other h =
      laws.upsert_key_sets key tenant_id hosts s t other h

  -- Where the table keeps `TableLaws` and the seeding of the keys returns, each key has afterwards
  -- the row that `WIDGET_KEYS` gives it, and a key that it does not name has the row that it had.
  pub seed_widget_keys-row :
      (settings : Settings) (s t : S) (key : Str)
      → seed_widget_keys pool settings s ≡ (ok tt, t)
      → row t key ≡ or_row (lookup key widget_keys) (row s key)
  unfolding seed_widget_keys write_keys
  seed_widget_keys-row settings s t key h =
      let (a, (s1, opened, rest)) =
        bind-ok (pool.create_pool settings.database_url)
          (λ x.
            try_finally (with_context pool.acquire pool.release (write_keys pool widget_keys))
              pool.close)
          s t tt h in
      let (s2, used, closed) =
        try_finally_ok (with_context pool.acquire pool.release (write_keys pool widget_keys))
          pool.close s1 t tt rest in
      let (s3, (s4, acquired, wrote, released)) =
        with_context_ok pool.acquire pool.release (write_keys pool widget_keys) s1 s2 tt used in
      let (b, (s5, created, upserts)) =
        bind-ok (pool.execute create_table []) (λ x. for_each widget_keys (upsert pool)) s3 s4 tt
          wrote in
      ground (
        arith,
        laws.create_pool_keeps settings.database_url s key,
        laws.acquire_keeps s1 key,
        laws.create_table_keeps s3 s5 key created,
        for_each-assigned row_of row (upsert pool) upsert-Sets widget_keys s5 s4 key upserts,
        assigned-widget_keys key (row s5 key),
        laws.release_keeps true s4 key,
        laws.close_keeps s2 key,
      )

-- Each call of the pool returns, whatever the state is.
pub record Works {S : Type 0} (pool : OwnerPool S) : Type 0 where
  pub creates : (dsn : Str) → Returns (pool.create_pool dsn)
  pub acquires : Returns pool.acquire
  pub releases : (done : Bool) → Returns (pool.release done)
  pub executes : (statement : Str) (params : List Param) → Returns (pool.execute statement params)
  pub closes : Returns pool.close

module _ {S : Type 0} (pool : OwnerPool S) (works : Works pool) where
  write_keys-Returns : Returns (write_keys pool widget_keys)
  unfolding write_keys upsert
  write_keys-Returns =
      bind-Returns (pool.execute create_table []) (λ _. for_each widget_keys (upsert pool))
        (works.executes create_table [])
        (λ _. for_each-Returns widget_keys (upsert pool) (λ (key, (tenant_id, hosts)).
          works.executes upsert_key (text key ∷ text tenant_id ∷ texts hosts ∷ [])))

  seed_widget_keys-Returns : (settings : Settings) → Returns (seed_widget_keys pool settings)
  unfolding seed_widget_keys
  seed_widget_keys-Returns settings =
      let block = with_context pool.acquire pool.release (write_keys pool widget_keys) in
      bind-Returns (pool.create_pool settings.database_url) (λ _. try_finally block pool.close)
        (works.creates settings.database_url)
        (λ _.
          try_finally-Returns block pool.close
            (with_context-Returns pool.acquire pool.release (write_keys pool widget_keys)
              works.acquires works.releases write_keys-Returns)
            works.closes)

-- Where the table keeps `TableLaws` and the calls of the pool return: the seeding of the keys
-- returns, and each key has afterwards the row that `WIDGET_KEYS` gives it, and a key that it does
-- not name the row that it had.
pub seed_widget_keys_total :
    {S : Type 0} (pool : OwnerPool S) (row : S → Str → Option Row) (settings : Settings) (s : S)
    → TableLaws pool row
    → Works pool
    → (t : S) × (seed_widget_keys pool settings s ≡ (ok tt, t))
      × ((key : Str) → row t key ≡ or_row (lookup key widget_keys) (row s key))
seed_widget_keys_total pool row settings s laws works =
    let (x, (t, seeded)) = seed_widget_keys-Returns pool works settings s in
    (t, seeded, λ key. seed_widget_keys-row pool row laws settings s t key seeded)
