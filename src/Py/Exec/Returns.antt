-- ===== src/Py/Exec/Returns.antt =====
-- Calls that return, whatever the state is.
use honest_agent.Prelude.{◌≡◌, refl, List, [], ◌∷◌, arith}
use honest_agent.Py.Exec.{ok, Action, try_finally, for_each, ◌>>=◌}

abbrev pub Returns : {S A : Type 0} → Action S A → Type 0
Returns {S} {A} m = (s : S) → (a : A) × ((t : S) × (m s ≡ (ok a, t)))

module _ {S : Type 0} where
  pub bind-Returns :
      {A B : Type 0} (m : Action S A) (f : A → Action S B)
      → Returns m
      → ((a : A) → Returns (f a))
      → Returns (m >>= f)
  bind-Returns m f first more s =
      let (a, (t, gave)) = first s in let (b, (u, ended)) = more a t in (b, (u, ground arith))

  pub for_each-Returns :
      {A : Type 0} (xs : List A) (body : A → Action S (Unit {0}))
      → ((x : A) → Returns (body x))
      → Returns (for_each xs body)
  unfolding for_each
  for_each-Returns [] body each = λ s. (tt, (s, refl))
  for_each-Returns (x ∷ xs) body each =
      bind-Returns (body x) (λ _. for_each xs body) (each x) (λ _. for_each-Returns xs body each)

  pub try_finally-Returns :
      {A : Type 0} (block : Action S A) (final : Action S (Unit {0}))
      → Returns block
      → Returns final
      → Returns (try_finally block final)
  unfolding try_finally
  try_finally-Returns block final runs ends s =
      let (a, (t, gave)) = runs s in let (x, (u, ended)) = ends t in (a, (u, ground arith))
