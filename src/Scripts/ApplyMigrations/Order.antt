-- ===== src/Scripts/ApplyMigrations/Order.antt =====
-- The order of the paths.
use mathlib.Core.List.{Permᴰ}
use mathlib.Core.List.Permᴰ as PermD
use honest_agent.Prelude.{
  ◌≡◌, refl, sym, ◌∙◌, inl, inr, true, false, List, [], ◌∷◌, arith, Bool-cases,
}
use honest_agent.Py.Str.{Str}
use honest_agent.Scripts.ApplyMigrations.{str_le, insert, sorted}

-- Each path is at most the one behind it.
pub data IsSorted : List Str → Type 0 where
  none_left : IsSorted []
  one_left : (path : Str) → IsSorted (path ∷ [])
  before :
      (path next : Str) (paths : List Str)
      → str_le path next ≡ true
      → IsSorted (next ∷ paths)
      → IsSorted (path ∷ next ∷ paths)

str_le_total : (s t : Str) → str_le s t ≡ false → str_le t s ≡ true
unfolding str_le
str_le_total [] t h = ground arith
str_le_total (c ∷ s) [] h = refl
str_le_total (c ∷ s) (d ∷ t) h = ground (arith, str_le_total s t)

str_le_antisym : (s t : Str) → str_le s t ≡ true → str_le t s ≡ true → s ≡ t
unfolding str_le
str_le_antisym [] [] h k = refl
str_le_antisym [] (d ∷ t) h k = ground arith
str_le_antisym (c ∷ s) [] h k = ground arith
str_le_antisym (c ∷ s) (d ∷ t) h k = ground (arith, str_le_antisym s t)

str_le_trans : (s t u : Str) → str_le s t ≡ true → str_le t u ≡ true → str_le s u ≡ true
unfolding str_le
str_le_trans [] t u h k = refl
str_le_trans (c ∷ s) [] u h k = ground arith
str_le_trans (c ∷ s) (d ∷ t) [] h k = ground arith
str_le_trans (c ∷ s) (d ∷ t) (e ∷ u) h k = ground (arith, str_le_trans s t u)

insert_front :
    (path first : Str) (paths : List Str)
    → str_le path first ≡ true
    → insert path (first ∷ paths) ≡ path ∷ first ∷ paths
unfolding insert
insert_front path first paths h = rw h refl

insert_behind :
    (path first : Str) (paths : List Str)
    → str_le path first ≡ false
    → insert path (first ∷ paths) ≡ first ∷ insert path paths
unfolding insert
insert_behind path first paths h = rw h refl

insert_comm : (a b : Str) (paths : List Str) → insert a (insert b paths) ≡ insert b (insert a paths)
unfolding insert
insert_comm a b [] = elim (Bool-cases (str_le a b)) [
  | inl ab ↦ elim (Bool-cases (str_le b a)) [
    | inl ba ↦ ground (arith, str_le_antisym a b ab ba)
    | inr ba ↦ ground arith
  ]
  | inr ab ↦ ground (arith, str_le_total a b ab)
]
insert_comm a b (c ∷ paths) = ground (
  arith,
  insert_comm a b paths,
  str_le_total a b,
  str_le_total b a,
  str_le_total a c,
  str_le_total b c,
  str_le_antisym a b,
  str_le_trans a b c,
  str_le_trans b a c,
  str_le_trans a c b,
  str_le_trans b c a,
)

-- The order in which the paths come does not matter.
pub sorted-Permᴰ : {l l' : List Str} → Permᴰ l l' → sorted l ≡ sorted l'
unfolding sorted
sorted-Permᴰ Permᴰ.nil = refl
sorted-Permᴰ (Permᴰ.cons same rest) = ground (arith, sorted-Permᴰ rest)
sorted-Permᴰ (Permᴰ.swap {a = a} {b = b} {l = l} e f) = ground (arith, insert_comm a b (sorted l))
sorted-Permᴰ (Permᴰ.trans d d') = sorted-Permᴰ d ∙ sorted-Permᴰ d'

insert-Permᴰ : (path : Str) (paths : List Str) → Permᴰ (insert path paths) (path ∷ paths)
unfolding insert
insert-Permᴰ path [] = PermD.refl _
insert-Permᴰ path (first ∷ paths) = elim (Bool-cases (str_le path first)) [
  | inl h ↦ rw h (PermD.refl _)
  | inr h ↦ rw h (Permᴰ.trans (Permᴰ.cons refl (insert-Permᴰ path paths)) (Permᴰ.swap refl refl))
]

pub Permᴰ-sorted : (paths : List Str) → Permᴰ (sorted paths) paths
unfolding sorted
Permᴰ-sorted [] = Permᴰ.nil
Permᴰ-sorted (path ∷ paths) =
    Permᴰ.trans (insert-Permᴰ path (sorted paths)) (Permᴰ.cons refl (Permᴰ-sorted paths))

insert-IsSorted : (path : Str) (paths : List Str) → IsSorted paths → IsSorted (insert path paths)
unfolding insert
insert-IsSorted path [] none_left = one_left path
insert-IsSorted path (first ∷ []) (one_left _) = elim (Bool-cases (str_le path first)) [
  | inl h ↦ rw h (before path first [] h (one_left first))
  | inr h ↦ rw h (before first path [] (str_le_total path first h) (one_left path))
]
insert-IsSorted path (first ∷ next ∷ paths) (before _ _ _ le rest) =
    elim (Bool-cases (str_le path first)) [
      | inl h ↦ rw h (before path first (next ∷ paths) h (before first next paths le rest))
      | inr h ↦ elim (Bool-cases (str_le path next)) [
        | inl k ↦
            rw (h, k)
              (before first path (next ∷ paths) (str_le_total path first h)
                (before path next paths k rest))
        | inr k ↦
            let inner : IsSorted (next ∷ insert path paths) =
              rw (sym (insert_behind path next paths k))
                (insert-IsSorted path (next ∷ paths) rest) in
            rw (h, k) (before first next (insert path paths) le inner)
      ]
    ]

pub sorted-IsSorted : (paths : List Str) → IsSorted (sorted paths)
unfolding sorted
sorted-IsSorted [] = none_left
sorted-IsSorted (path ∷ paths) = insert-IsSorted path (sorted paths) (sorted-IsSorted paths)
