-- ===== src/Retrieval/Weaviate/Laws.antt =====
-- What bootstrapping makes of the store, and that a handle keeps to its tenant's shard.
use honest_agent.Prelude.{
  ◌≡◌, refl, inl, inr, Bool, true, false, ◌||◌, Option, none, some, List, [], ◌∷◌, map, ap, sym,
  ◌∙◌, arith, Bool-cases, Option-cases,
}
use mathlib.Core.Path.{subst}
use honest_agent.Py.Str.{Str, str_eq, member}
use honest_agent.Py.Str.Laws.{str_eq_refl, eq_of_str_eq}
use honest_agent.Py.Exec.{Result-cases, ok, Action, bind-ok, ◌>>=◌, ◌>>◌}
use honest_agent.Retrieval.Weaviate.{
  Client, CollectionConfig, chunk_collection, chunk_config, tenant_name, missing_names,
  ensure_collection, ensure_tenants, bootstrap_chunks,
}

-- There is a collection.
unfoldable pub is_there : Option (List Str) → Bool
is_there none = false
is_there (some names) = true

-- What is documented of Weaviate, for a store that no one else writes to: `tenants` are those of
-- the collection of chunks, where there is one. Each law speaks of a call that succeeds.
pub record StoreLaws {S : Type 0} (client : Client S) (tenants : S → Option (List Str))
    : Type 0 where
  pub exists_reads :
      (s t : S) (exists : Bool)
      → client.collection_exists chunk_collection s ≡ (ok exists, t)
      → (tenants t ≡ tenants s) × (exists ≡ is_there (tenants s))
  pub create_makes :
      (s t : S)
      → client.create_collection chunk_collection chunk_config s ≡ (ok tt, t)
      → tenants t ≡ some []
  pub get_reads :
      (s t : S) (names : List Str)
      → client.get_tenants chunk_collection s ≡ (ok names, t)
      → (tenants t ≡ tenants s)
        × ((old : List Str) × (tenants s ≡ some old)
            × ((name : Str) → member name names ≡ member name old))
  pub create_adds :
      (s t : S) (old names : List Str)
      → tenants s ≡ some old
      → client.create_tenants chunk_collection names s ≡ (ok tt, t)
      → (new : List Str) × (tenants t ≡ some new)
        × ((name : Str) → member name new ≡ (member name old || member name names))

-- The tenants of a store, none of them where there is no collection.
unfoldable pub known : Option (List Str) → List Str
known none = []
known (some names) = names

member-missing :
    (existing names : List Str) (name : Str)
    → (member name existing || member name (missing_names existing names))
      ≡ (member name existing || member name names)
unfolding missing_names member
member-missing existing [] name = refl
member-missing existing (other ∷ names) name =
    let rest = member-missing existing names name in
    elim (Bool-cases (str_eq name other)) [
      | inl same ↦ let e = eq_of_str_eq name other same in ground arith
      | inr different ↦ ground arith
    ]

-- The second half of bootstrapping.
abbrev fill : {S : Type 0} → Client S → List Str → Action S (Unit {0})
fill client names = do
  existing ← client.get_tenants chunk_collection
  ensure_tenants client (missing_names existing names)

-- A client with other writes.
abbrev pub other_writes :
    {S : Type 0}
    → Client S
    → (create : Str → CollectionConfig → Action S (Unit {0}))
    → (add : Str → List Str → Action S (Unit {0})) → Client S
other_writes client create add = record client { create_collection = create; create_tenants = add }

module _ {S : Type 0} (client : Client S) (tenants : S → Option (List Str))
    (laws : StoreLaws client tenants) where
  -- After the first step there is a collection, with the tenants that were there before.
  ensure_collection-known :
      (s t : S)
      → ensure_collection client (is_there (tenants s)) s ≡ (ok tt, t)
      → known (tenants t) ≡ known (tenants s)
  unfolding ensure_collection known is_there
  ensure_collection-known s t h = elim (Option-cases (tenants s)) [
    | inl absent ↦
        let made : client.create_collection chunk_collection chunk_config s ≡ (ok tt, t) =
          ground arith in
        let empty = laws.create_makes s t made in ground arith
    | inr (names, there) ↦ ground arith
  ]

  ensure_tenants-adds :
      (s t : S) (old names : List Str)
      → tenants s ≡ some old
      → ensure_tenants client names s ≡ (ok tt, t)
      → (new : List Str) × (tenants t ≡ some new)
        × ((name : Str) → member name new ≡ (member name old || member name names))
  unfolding ensure_tenants member
  ensure_tenants-adds s t old [] there h = (old, ground arith, λ name. ground arith)
  ensure_tenants-adds s t old (n ∷ names) there h = laws.create_adds s t old (n ∷ names) there h

  fill-tenants :
      (names : List Str) (s t : S)
      → fill client names s ≡ (ok tt, t)
      → (new : List Str) × (tenants t ≡ some new)
        × ((name : Str) → member name new ≡ (member name (known (tenants s)) || member name names))
  unfolding known
  fill-tenants names s t h =
      let (existing, (s', listed, created)) =
        bind-ok (client.get_tenants chunk_collection)
          (λ existing. ensure_tenants client (missing_names existing names)) s t tt h in
      let (kept, (old, there, same)) = laws.get_reads s s' existing listed in
      let (new, made, members) =
        ensure_tenants-adds s' t old (missing_names existing names) (kept ∙ there) created in
      (
        new,
        made,
        λ name. ground (arith, members name, same name, member-missing existing names name),
      )

  -- For a store that keeps `StoreLaws`, where every call succeeds: the collection is there
  -- afterwards, and its tenants are those that were there before and the shards of the ids, no more
  -- and no fewer.
  pub bootstrap_chunks-tenants :
      (tenant_ids : List Str) (s t : S)
      → bootstrap_chunks client tenant_ids s ≡ (ok tt, t)
      → (new : List Str) × (tenants t ≡ some new)
        × ((name : Str)
            → member name new
              ≡ (member name (known (tenants s)) || member name (map tenant_name tenant_ids)))
  unfolding bootstrap_chunks
  bootstrap_chunks-tenants tenant_ids s t h =
      let names = map tenant_name tenant_ids in
      let (exists, (s1, asked, after)) =
        bind-ok (client.collection_exists chunk_collection)
          (λ exists. ensure_collection client exists >> fill client names) s t tt h in
      let (u, (s2, ensured, after')) =
        bind-ok (ensure_collection client exists) (λ x. fill client names) s1 t tt after in
      let (kept, found) = laws.exists_reads s s1 exists asked in
      let same : known (tenants s2) ≡ known (tenants s1) = ensure_collection-known s1 s2 (
        subst (λ x. ensure_collection client x s1 ≡ (ok tt, s2)) (found ∙ ap is_there (sym kept))
          ensured) in
      let (new, made, members) = fill-tenants names s2 t after' in
      (
        new,
        made,
        λ name. members name ∙ ap (λ k. member name k || member name names) (same ∙ ap known kept),
      )

  missing_names-none :
      (existing names : List Str)
      → ((name : Str) → member name names ≡ true → member name existing ≡ true)
      → missing_names existing names ≡ []
  unfolding missing_names member
  missing_names-none existing [] h = refl
  missing_names-none existing (name ∷ names) h =
      let rest = missing_names-none existing names (λ other m. h other (ground arith)) in
      let self = str_eq_refl name in let first = h name (ground arith) in ground arith

  fill_idle :
      (create : Str → CollectionConfig → Action S (Unit {0}))
      (add : Str → List Str → Action S (Unit {0})) (requested names : List Str) (s : S)
      → ((name : Str) → member name requested ≡ true → member name names ≡ true)
      → tenants s ≡ some names
      → fill client requested s ≡ fill (other_writes client create add) requested s
  unfolding ensure_tenants
  fill_idle create add requested names s all_there there =
      elim (Result-cases (client.get_tenants chunk_collection s).0) [
        | inr (e, failed) ↦ ground arith
        | inl (existing, listed) ↦
            let (kept, (old, there', agree)) =
              laws.get_reads s (client.get_tenants chunk_collection s).1 existing (ground arith) in
            let e : old ≡ names = ground arith in
            let idle =
              missing_names-none existing requested
                (λ name m. agree name ∙ ap (member name) e ∙ all_there name m) in
            ground arith
      ]

  -- For a store that keeps `StoreLaws`, where the collection and the shard of every id are there:
  -- bootstrapping writes nothing, since it does the same whatever the client's writes do.
  bootstrap_chunks-idempotent :
      (create : Str → CollectionConfig → Action S (Unit {0}))
      (add : Str → List Str → Action S (Unit {0})) (tenant_ids names : List Str) (s : S)
      → tenants s ≡ some names
      → ((name : Str) → member name (map tenant_name tenant_ids) ≡ true → member name names ≡ true)
      → bootstrap_chunks client tenant_ids s
        ≡ bootstrap_chunks (other_writes client create add) tenant_ids s
  unfolding bootstrap_chunks ensure_collection is_there
  bootstrap_chunks-idempotent create add tenant_ids names s there all_there =
      elim (Result-cases (client.collection_exists chunk_collection s).0) [
        | inr (e, failed) ↦ ground arith
        | inl (exists, asked) ↦
            let s' = (client.collection_exists chunk_collection s).1 in
            let (kept, found) = laws.exists_reads s s' exists (ground arith) in
            let present : exists ≡ true = found ∙ ap is_there there in
            let rest =
              fill_idle create add (map tenant_name tenant_ids) names s' all_there (kept ∙ there) in
            ground arith
      ]
