-- ===== src/Retrieval/Weaviate/Names.antt =====
-- Which tenants share a shard.
use honest_agent.Prelude.{ℕ, ◌≡◌, refl, false, [], ◌∷◌, ◌++◌, ap, arith, ◌==◌, if◌then◌else◌}
use honest_agent.Py.Str.{Str, codes, has, replace}
use honest_agent.Retrieval.Weaviate.{tenant_name}

-- Where the new character is in neither text, the old one can be put back.
replace-injective :
    (c d : ℕ) (s t : Str)
    → has d s ≡ false
    → has d t ≡ false
    → replace c d s ≡ replace c d t
    → s ≡ t
unfolding has replace
replace-injective c d [] [] p q h = refl
replace-injective c d [] (e ∷ t) p q h = absurd (ground arith)
replace-injective c d (e ∷ s) [] p q h = absurd (ground arith)
replace-injective c d (e ∷ s) (f ∷ t) p q h =
    let tails : s ≡ t = replace-injective c d s t (ground arith) (ground arith) (ground arith) in
    let heads : e ≡ f = ground arith in cc

codes-append : (s t : Str) → (codes "tenant_" ++ s) ≡ (codes "tenant_" ++ t) → s ≡ t
unfolding codes
codes-append s t h = ground arith

-- Two tenants whose ids hold no underscore have one shard only where they are one tenant.
pub tenant_name-injective :
    (tenant_id tenant_id' : Str)
    → has b'_' tenant_id ≡ false
    → has b'_' tenant_id' ≡ false
    → tenant_name tenant_id ≡ tenant_name tenant_id'
    → tenant_id ≡ tenant_id'
unfolding tenant_name
tenant_name-injective tenant_id tenant_id' p q h =
    replace-injective b'-' b'_' tenant_id tenant_id' p q (codes-append _ _ h)

replace-append : (c d : ℕ) (s t : Str) → replace c d (s ++ t) ≡ (replace c d s ++ replace c d t)
unfolding replace
replace-append c d [] t = refl
replace-append c d (e ∷ s) t = ap (λ r. (if e == c then d else e) ∷ r) (replace-append c d s t)

-- Ids that differ in a hyphen against an underscore are given one shard.
pub tenant_name-collision :
    (before after : Str)
    → tenant_name (before ++ b'-' ∷ after) ≡ tenant_name (before ++ b'_' ∷ after)
unfolding tenant_name replace
tenant_name-collision before after =
    rw (replace-append b'-' b'_' before (b'-' ∷ after))
      (rw (replace-append b'-' b'_' before (b'_' ∷ after)) refl)
