-- ===== src/Py/Dict.antt =====
-- A `dict` with text keys, as the list of its entries.
use honest_agent.Prelude.{◌≡◌, refl, Option, none, some, List, [], ◌∷◌, arith, if◌then◌else◌}
use honest_agent.Py.Str.{Str, str_eq}
use honest_agent.Py.Str.Laws.{str_eq_refl, eq_of_str_eq}

abbrev pub Dict {ℓ} : Type ℓ → Type ℓ
Dict V = List (Str × V)

module _ {ℓ} {V : Type ℓ} where
  -- `d.get(key)`.
  unfoldable pub lookup : Str → Dict V → Option V
  lookup key [] = none
  lookup key ((k, v) ∷ d) = if str_eq k key then some v else lookup key d

  -- `d[key] = v`.
  unfoldable pub assign : Str → V → Dict V → Dict V
  assign key v [] = (key, v) ∷ []
  assign key v ((k, w) ∷ d) = if str_eq k key then (k, v) ∷ d else (k, w) ∷ assign key v d

  pub lookup-assign :
      (key j : Str) (v : V) (d : Dict V)
      → lookup j (assign key v d) ≡ (if str_eq key j then some v else lookup j d)
  unfolding lookup assign
  lookup-assign key j v [] = refl
  lookup-assign key j v ((k, w) ∷ d) = ground (
    arith,
    eq_of_str_eq k key,
    eq_of_str_eq key j,
    eq_of_str_eq k j,
    lookup-assign key j v d,
    str_eq_refl j,
  )
