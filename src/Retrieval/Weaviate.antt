-- ===== src/Retrieval/Weaviate.antt =====
-- backend/src/app/retrieval/weaviate.py: the collection of chunks, its tenants, and the handle that
-- is bound to one tenant. The calls of the Weaviate client are a parameter.
pub mod Names
pub mod Laws
pub mod Isolation
pub mod Connect
pub mod Tests
use honest_agent.Prelude.{
  ℕ, Bool, true, false, Option, none, some, List, [], ◌∷◌, ◌++◌, map, if◌then◌else◌,
}
use honest_agent.Py.Str.{Str, codes, member, replace}
use honest_agent.Py.Value.{ℤ, Float, Fields, end, field, int, str}
use honest_agent.Py.Exec.{Action, pure, ◌>>=◌, ◌>>◌}

abbrev pub chunk_collection : Str
chunk_collection = codes "Chunk"

-- The name of a tenant's shard.
unfoldable pub tenant_name : Str → Str
tenant_name tenant_id = codes "tenant_" ++ replace b'-' b'_' tenant_id

pub data DataType : Type 0 where
  text_type int_type : DataType

-- What a collection is created with.
pub record CollectionConfig : Type 0 where
  pub multi_tenancy : Bool
  pub auto_tenant_creation : Bool
  pub self_provided_vectors : Bool
  pub properties : List (Str × DataType)

abbrev pub chunk_config : CollectionConfig
chunk_config = record {
  multi_tenancy = true;
  auto_tenant_creation = false;
  self_provided_vectors = true;
  properties =
      (codes "document_id", text_type)
      ∷ (codes "chunk_index", int_type)
      ∷ (codes "text", text_type)
      ∷ [];
}

-- The calls that the code makes, each with the name of the collection first. `get_tenants` lists
-- the names of the tenants that are there.
pub record Client (S : Type 0) : Type 0 where
  pub collection_exists : Str → Action S Bool
  pub create_collection : Str → CollectionConfig → Action S (Unit {0})
  pub get_tenants : Str → Action S (List Str)
  pub create_tenants : Str → List Str → Action S (Unit {0})
  pub insert_object : Str → (tenant : Str) → Fields → List Float → Action S (Unit {0})
  pub total_count : Str → (tenant : Str) → Action S (Option ℕ)

-- `[name for name in names if name not in existing]`.
unfoldable pub missing_names : List Str → List Str → List Str
missing_names existing [] = []
missing_names existing (name ∷ names) =
    let rest = missing_names existing names in if member name existing then rest else name ∷ rest

module _ {S : Type 0} (client : Client S) where
  -- The collection is created where it does not exist.
  unfoldable pub ensure_collection : Bool → Action S (Unit {0})
  ensure_collection true = pure tt
  ensure_collection false = client.create_collection chunk_collection chunk_config

  -- The tenants are created where any is missing.
  unfoldable pub ensure_tenants : List Str → Action S (Unit {0})
  ensure_tenants [] = pure tt
  ensure_tenants (name ∷ names) = client.create_tenants chunk_collection (name ∷ names)

  unfoldable pub bootstrap_chunks : List Str → Action S (Unit {0})
  unfolding ensure_collection ensure_tenants
  bootstrap_chunks tenant_ids = do
    exists ← client.collection_exists chunk_collection
    ensure_collection exists
    existing ← client.get_tenants chunk_collection
    ensure_tenants (missing_names existing (map tenant_name tenant_ids))

-- `TenantChunks`: the collection with the tenant's shard chosen.
pub record TenantChunks (S : Type 0) : Type 0 where
  pub client : Client S
  pub shard : Str

unfoldable pub tenant_chunks : {S : Type 0} → Client S → Str → TenantChunks S
tenant_chunks client tenant_id = record { client = client; shard = tenant_name tenant_id }

-- The properties of a chunk.
unfoldable pub chunk_properties : Str → ℤ → Str → Fields
chunk_properties document_id chunk_index text =
    field (codes "document_id") (str document_id)
      (field (codes "chunk_index") (int chunk_index) (field (codes "text") (str text) end))

-- `result.total_count or 0`.
unfoldable pub or_zero : Option ℕ → ℕ
or_zero none = 0
or_zero (some n) = n

module _ {S : Type 0} (chunks : TenantChunks S) where
  unfoldable pub insert : Str → ℤ → Str → List Float → Action S (Unit {0})
  insert document_id chunk_index text vector =
      chunks.client.insert_object chunk_collection chunks.shard
        (chunk_properties document_id chunk_index text) vector

  unfoldable pub count : Action S ℕ
  count = do total ← chunks.client.total_count chunk_collection chunks.shard; pure (or_zero total)
