-- ===== src/Py/Str/Laws.antt =====
-- Equality, stripping and splitting of texts.
use honest_agent.Prelude.{◌≡◌, refl, true, [], ◌∷◌, arith}
use honest_agent.Py.Str.{Str, str_eq}

pub str_eq_refl : (s : Str) → str_eq s s ≡ true
unfolding str_eq
str_eq_refl [] = refl
str_eq_refl (c ∷ s) = ground (arith, str_eq_refl s)

pub eq_of_str_eq : (s t : Str) → str_eq s t ≡ true → s ≡ t
unfolding str_eq
eq_of_str_eq [] [] h = refl
eq_of_str_eq (a ∷ s) (b ∷ t) h = ground (arith, eq_of_str_eq s t)
eq_of_str_eq _ _ h = ground arith
