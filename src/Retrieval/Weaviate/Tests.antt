-- ===== src/Retrieval/Weaviate/Tests.antt =====
-- A store in memory, with the tenants of its one collection and the shard of each chunk, and runs
-- of the bootstrap and of the handles on it.
use honest_agent.Prelude.{
  ℕ, suc, ◌≡◌, refl, true, false, ◌||◌, Option, none, some, List, [], ◌∷◌, ◌++◌, map, arith,
  if◌then◌else◌, inl, inr, Option-cases,
}
use honest_agent.Py.Str.{Str, codes, str_eq, member, has, replace}
use honest_agent.Py.Value.{pos}
use honest_agent.Py.Exec.{external, Result, ok, raised, Action}
use honest_agent.Retrieval.Weaviate.{
  Client, CollectionConfig, chunk_collection, tenant_name, missing_names, ensure_collection,
  ensure_tenants, bootstrap_chunks, tenant_chunks, insert, count, or_zero,
}
use honest_agent.Retrieval.Weaviate.Names.{tenant_name-injective, tenant_name-collision}
use honest_agent.Retrieval.Weaviate.Laws.{is_there, known, StoreLaws, bootstrap_chunks-tenants}
use honest_agent.Retrieval.Weaviate.Isolation.{ChunkLaws, insert-count}

record Store : Type 0 where
  tenants : Option (List Str)
  shards : List Str

occurrences : Str → List Str → ℕ
occurrences shard [] = 0
occurrences shard (s ∷ ss) =
    let rest = occurrences shard ss in if str_eq shard s then suc rest else rest

list_tenants : Option (List Str) → Result (List Str)
list_tenants none = raised (external 0)
list_tenants (some names) = ok names

add_tenants : List Str → Action Store (Unit {0})
add_tenants names store = elim store.tenants [
  | none ↦ (raised (external 0), store)
  | some old ↦ (ok tt, record store { tenants = some (old ++ names) })
]

add_chunk : Str → Action Store (Unit {0})
add_chunk shard store =
    if member shard (known store.tenants)
    then (ok tt, record store { shards = shard ∷ store.shards })
    else (raised (external 1), store)

abbrev memory : Client Store
memory = record {
  collection_exists = λ name s. (ok (is_there s.tenants), s);
  create_collection = λ name config s. (ok tt, record s { tenants = some [] });
  get_tenants = λ name s. (list_tenants s.tenants, s);
  create_tenants = λ name names. add_tenants names;
  insert_object = λ name shard properties vector. add_chunk shard;
  total_count = λ name shard s. (ok (some (occurrences shard s.shards)), s);
}

member-append :
    (name : Str) (xs ys : List Str) → member name (xs ++ ys) ≡ (member name xs || member name ys)
unfolding member
member-append name [] ys = refl
member-append name (x ∷ xs) ys = ground (arith, member-append name xs ys)

added :
    (s t : Store) (old names : List Str)
    → s.tenants ≡ some old
    → add_tenants names s ≡ (ok tt, t)
    → (new : List Str) × (t.tenants ≡ some new)
      × ((name : Str) → member name new ≡ (member name old || member name names))
unfolding add_tenants
added s t old names there h = (old ++ names, ground arith, λ name. member-append name old names)

listed :
    (s t : Store) (names : List Str)
    → memory.get_tenants chunk_collection s ≡ (ok names, t)
    → (t.tenants ≡ s.tenants)
      × ((old : List Str) × (s.tenants ≡ some old)
          × ((name : Str) → member name names ≡ member name old))
unfolding list_tenants
listed s t names h = elim (Option-cases s.tenants) [
  | inl absent ↦ absurd (ground arith)
  | inr (old, there) ↦ (ground arith, (old, there, λ name. ground arith))
]

keeps : StoreLaws memory (λ s. s.tenants)
keeps = record {
  exists_reads = λ s t exists h. (ground arith, ground arith);
  create_makes = λ s t h. ground arith;
  get_reads = listed;
  create_adds = added;
}

abbrev size : Store → Str → ℕ
size store shard = occurrences shard store.shards

inserted :
    (shard other : Str) (s t : Store)
    → add_chunk shard s ≡ (ok tt, t)
    → size t other ≡ (if str_eq other shard then suc (size s other) else size s other)
unfolding add_chunk occurrences
inserted shard other s t h = ground arith

counts : ChunkLaws memory size
unfolding or_zero
counts = record {
  insert_adds = λ shard other properties vector. inserted shard other;
  count_reads = λ shard s t total h. ground arith;
}

running : Unit {0}
unfolding codes str_eq member has replace tenant_name missing_names bootstrap_chunks
    ensure_collection ensure_tenants tenant_chunks insert count or_zero is_there known list_tenants
    add_tenants add_chunk occurrences
running = tt

abbrev nothing_yet : Store
nothing_yet = record { tenants = none; shards = [] }

abbrev ids : List Str
ids = codes "tenant-a" ∷ codes "tenant-b" ∷ []

abbrev both : List Str
both = codes "tenant_tenant_a" ∷ codes "tenant_tenant_b" ∷ []

abbrev filled : Store
filled = record { tenants = some both; shards = [] }

bootstrapped : bootstrap_chunks memory ids nothing_yet ≡ (ok tt, filled)
unfolding running
bootstrapped = refl

-- A third tenant is added to the two, and a second run adds nothing.
bootstrap_tests :
    (bootstrap_chunks memory ids filled ≡ (ok tt, filled))
    × (bootstrap_chunks memory (codes "tenant-c" ∷ ids) filled
        ≡ (ok tt, record filled { tenants = some (both ++ (codes "tenant_tenant_c" ∷ [])) }))
unfolding running
bootstrap_tests = (refl, refl)

-- A handle for a tenant with no shard inserts nothing.
insert_tests :
    (insert (tenant_chunks memory (codes "tenant-c")) (codes "d") (pos 0) (codes "t") [] filled
      ≡ (raised (external 1), filled))
    × (insert (tenant_chunks memory (codes "tenant-a")) (codes "d") (pos 0) (codes "t") [] filled
        ≡ (ok tt, record filled { shards = codes "tenant_tenant_a" ∷ [] }))
    × (count
          (tenant_chunks memory (codes "tenant-b"))
          (record filled { shards = codes "tenant_tenant_a" ∷ [] })
        ≡ (ok 0, record filled { shards = codes "tenant_tenant_a" ∷ [] }))
unfolding running
insert_tests = (refl, refl, refl)

plain_ids : (has b'_' (codes "tenant-a") ≡ false) × (has b'_' (codes "tenant-b") ≡ false)
unfolding running
plain_ids = (refl, refl)

all_there : (name : Str) → member name (map tenant_name ids) ≡ true → member name both ≡ true
unfolding running
all_there name h = h

tenant_name-injective_example : codes "tenant-a" ≡ codes "tenant-a"
tenant_name-injective_example =
    tenant_name-injective (codes "tenant-a") (codes "tenant-a") plain_ids.0 plain_ids.0 refl

tenant_name-collision_example :
    tenant_name (codes "acme" ++ b'-' ∷ codes "eu")
    ≡ tenant_name (codes "acme" ++ b'_' ∷ codes "eu")
tenant_name-collision_example = tenant_name-collision (codes "acme") (codes "eu")

bootstrap_chunks-tenants_example :
    (new : List Str) × (filled.tenants ≡ some new)
    × ((name : Str)
        → member name new
          ≡ (member name (known nothing_yet.tenants) || member name (map tenant_name ids)))
bootstrap_chunks-tenants_example =
    bootstrap_chunks-tenants memory (λ s. s.tenants) keeps ids nothing_yet filled bootstrapped

refuse_create : Str → CollectionConfig → Action Store (Unit {0})
refuse_create name config store = (raised (external 2), store)

refuse_add : Str → List Str → Action Store (Unit {0})
refuse_add name names store = (raised (external 3), store)

insert-count_example : 0 ≡ (
    if str_eq (codes "tenant-b") (codes "tenant-a")
    then suc (size filled (tenant_name (codes "tenant-b")))
    else size filled (tenant_name (codes "tenant-b")))
insert-count_example =
    insert-count memory size counts (codes "tenant-a") (codes "tenant-b") (codes "d") (codes "t")
      (pos 0) [] filled (record filled { shards = codes "tenant_tenant_a" ∷ [] })
      (record filled { shards = codes "tenant_tenant_a" ∷ [] }) 0 plain_ids.0 plain_ids.1
      insert_tests.1 insert_tests.2
