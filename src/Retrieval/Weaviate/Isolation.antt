-- ===== src/Retrieval/Weaviate/Isolation.antt =====
-- A handle keeps to its tenant's shard.
use honest_agent.Prelude.{
  ℕ, suc, ◌≡◌, inl, inr, false, Option, List, arith, if◌then◌else◌, ap, Bool-cases,
}
use honest_agent.Py.Str.{Str, str_eq, has}
use honest_agent.Py.Str.Laws.{str_eq_refl, eq_of_str_eq}
use honest_agent.Py.Value.{ℤ, Float, Fields}
use honest_agent.Py.Exec.{ok, bind-ok, pure}
use honest_agent.Retrieval.Weaviate.{
  Client, chunk_collection, tenant_name, or_zero, tenant_chunks, chunk_properties, insert, count,
}
use honest_agent.Retrieval.Weaviate.Names.{tenant_name-injective}

-- What is documented of the objects of a store that no one else writes to, by the number of chunks
-- in each shard. Each law speaks of a call that succeeds.
pub record ChunkLaws {S : Type 0} (client : Client S) (size : S → Str → ℕ) : Type 0 where
  pub insert_adds :
      (shard other : Str) (properties : Fields) (vector : List Float) (s t : S)
      → client.insert_object chunk_collection shard properties vector s ≡ (ok tt, t)
      → size t other ≡ (if str_eq other shard then suc (size s other) else size s other)
  pub count_reads :
      (shard : Str) (s t : S) (total : Option ℕ)
      → client.total_count chunk_collection shard s ≡ (ok total, t)
      → or_zero total ≡ size s shard

str_eq-tenant_name :
    (tenant_id tenant_id' : Str)
    → has b'_' tenant_id ≡ false
    → has b'_' tenant_id' ≡ false
    → str_eq (tenant_name tenant_id) (tenant_name tenant_id') ≡ str_eq tenant_id tenant_id'
str_eq-tenant_name a b p q = elim (Bool-cases (str_eq a b)) [
  | inl same ↦
      let e = ap tenant_name (eq_of_str_eq a b same) in
      let self = str_eq_refl (tenant_name a) in ground arith
  | inr different ↦ elim (Bool-cases (str_eq (tenant_name a) (tenant_name b))) [
    | inr apart ↦ ground arith
    | inl alike ↦
        let e = tenant_name-injective a b p q (eq_of_str_eq _ _ alike) in
        let self = str_eq_refl a in absurd (ground arith)
  ]
]

-- For a store that keeps `ChunkLaws` and two tenants whose ids hold no underscore: a chunk that one
-- tenant's handle inserts is counted by this tenant's handle, once, and not by the other's.
pub insert-count :
    {S : Type 0} (client : Client S) (size : S → Str → ℕ)
    → ChunkLaws client size
    → (writer reader document_id text : Str) (chunk_index : ℤ) (vector : List Float) (s t u : S)
    → (n : ℕ) → has b'_' writer ≡ false
    → has b'_' reader ≡ false
    → insert (tenant_chunks client writer) document_id chunk_index text vector s ≡ (ok tt, t)
    → count (tenant_chunks client reader) t ≡ (ok n, u)
    → n ≡ (
        if str_eq reader writer
        then suc (size s (tenant_name reader))
        else size s (tenant_name reader))
unfolding insert count tenant_chunks
insert-count client size laws writer reader document_id text chunk_index vector s t u n p q wrote
      counted =
    let (total, (u', asked, gave)) =
      bind-ok (client.total_count chunk_collection (tenant_name reader))
        (λ total. pure (or_zero total)) t u n counted in
    let read = laws.count_reads (tenant_name reader) t u' total asked in
    let added =
      laws.insert_adds (tenant_name writer) (tenant_name reader)
        (chunk_properties document_id chunk_index text) vector s t wrote in
    let names = str_eq-tenant_name reader writer q p in
    let value : n ≡ or_zero total = ground arith in ground arith
