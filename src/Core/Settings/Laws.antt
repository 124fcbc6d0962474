-- ===== src/Core/Settings/Laws.antt =====
-- Which values count as secrets.
use honest_agent.Prelude.{
  ◌≡◌, ◌≢◌, ◌↔◌, ◌⊎◌, inr, true, false, Option, none, some, List, [], ◌∷◌, arith,
}
use honest_agent.Py.Str.{Str, is_empty, member}
use honest_agent.Py.Str.Laws.{str_eq_refl, eq_of_str_eq}
use honest_agent.Core.Settings.{Settings, present, secret_values}

member-present :
    (s : Str) (v : Option Str) (vs : List (Option Str))
    → (member s (present (v ∷ vs)) ≡ true)
      ↔ (((is_empty s ≡ false) × (v ≡ some s)) ⊎ (member s (present vs) ≡ true))
unfolding member present is_empty
member-present s none vs = ground arith
member-present s (some []) vs = (λ h. inr h, λ h. ground arith)
member-present s (some (c ∷ t)) vs =
    (λ h. ground (arith, eq_of_str_eq s (c ∷ t)), λ h. ground (arith, str_eq_refl s))

present_nil : (s : Str) → member s (present []) ≢ true
unfolding member present
present_nil s h = ground arith

present_three :
    (s : Str) (a b c : Option Str)
    → (member s (present (a ∷ b ∷ c ∷ [])) ≡ true)
      ↔ ((is_empty s ≡ false) × ((a ≡ some s) ⊎ ((b ≡ some s) ⊎ (c ≡ some s))))
present_three s a b c =
    let x = member-present s a (b ∷ c ∷ []) in
    let y = member-present s b (c ∷ []) in
    let z = member-present s c [] in
    let n = present_nil s in (λ h. ground (arith, x, y, z, n), λ h. ground (arith, x, y, z, n))

-- The secrets are the values of `supabase_service_role_key`, `mcp_signing_secret` and
-- `vertex_credentials_path` that are set and not empty, and no other.
secret_values_iff :
    (settings : Settings) (s : Str)
    → (member s (secret_values settings) ≡ true) ↔ (
        (is_empty s ≡ false)
        × ((settings.supabase_service_role_key ≡ some s)
            ⊎ ((settings.mcp_signing_secret ≡ s) ⊎ (settings.vertex_credentials_path ≡ some s))))
unfolding secret_values
secret_values_iff settings s =
    let three =
      present_three s settings.supabase_service_role_key (some settings.mcp_signing_secret)
        settings.vertex_credentials_path in
    (λ h. let k = three.0 h in ground arith, λ h. three.1 (ground arith))
