-- ===== src/Py/Str/Split.antt =====
-- Splitting, searching and trimming texts.
use honest_agent.Prelude.{
  ℕ, ◌≡◌, refl, ap, inl, inr, Bool, true, false, not, ◌&&◌, ◌||◌, [], ◌∷◌, ◌++◌, arith, ◌==◌,
  ==_refl, Bool-cases, all,
}
use honest_agent.Py.Str.{
  Str, has, is_empty, drop_while, drop_while_end, partition, after_last, remove,
}

all-append : (p : ℕ → Bool) (s t : Str) → all p (s ++ t) ≡ (all p s && all p t)
all-append p [] t = refl
all-append p (c ∷ s) t = ground (arith, all-append p s t)

pub all_append :
    (p : ℕ → Bool) (s t : Str) → all p s ≡ true → all p t ≡ true → all p (s ++ t) ≡ true
all_append p s t h k = rw (all-append p s t) (ground arith)

pub all_mono :
    (p q : ℕ → Bool) (s : Str)
    → ((c : ℕ) → p c ≡ true → q c ≡ true)
    → all p s ≡ true
    → all q s ≡ true
all_mono p q [] h k = refl
all_mono p q (c ∷ s) h k = ground (arith, h c, all_mono p q s h)

-- A character outside a class does not stand in a text of that class.
pub has-all : (p : ℕ → Bool) (c : ℕ) (s : Str) → p c ≡ false → all p s ≡ true → has c s ≡ false
unfolding has
has-all p c [] h k = refl
has-all p c (d ∷ s) h k = elim (Bool-cases (d == c)) [
  | inl same ↦ let e : d ≡ c = ground arith in absurd (ground (arith, ap p e))
  | inr other ↦ ground (arith, has-all p c s h)
]

pub has-append : (c : ℕ) (s t : Str) → has c (s ++ t) ≡ (has c s || has c t)
unfolding has
has-append c [] t = refl
has-append c (d ∷ s) t = ground (arith, has-append c s t)

pub remove_absent : (c : ℕ) (s : Str) → has c s ≡ false → remove c s ≡ s
unfolding remove has
remove_absent c [] h = refl
remove_absent c (d ∷ s) h = ground (arith, remove_absent c s)

pub partition_found :
    (c : ℕ) (s t : Str)
    → has c s ≡ false
    → partition c (s ++ c ∷ t) ≡ record { before = s; found = true; after = t }
unfolding partition has
partition_found c [] t h = rw (==_refl c) refl
partition_found c (d ∷ s) t h = ground (arith, partition_found c s t)

pub partition_absent :
    (c : ℕ) (s : Str)
    → has c s ≡ false
    → partition c s ≡ record { before = s; found = false; after = [] }
unfolding partition has
partition_absent c [] h = refl
partition_absent c (d ∷ s) h = ground (arith, partition_absent c s)

-- What a partition finds: the text around the first occurrence.
pub partition_sound :
    (c : ℕ) (s : Str)
    → (partition c s).found ≡ true
    → (s ≡ (partition c s).before ++ c ∷ (partition c s).after)
      × (has c (partition c s).before ≡ false)
unfolding partition has
partition_sound c [] h = ground arith
partition_sound c (d ∷ s) h = ground (arith, partition_sound c s)

pub partition_missed :
    (c : ℕ) (s : Str) → (partition c s).found ≡ false → (partition c s).after ≡ []
unfolding partition
partition_missed c [] h = refl
partition_missed c (d ∷ s) h = ground (arith, partition_missed c s)

pub has-partition_before :
    (c d : ℕ) (s : Str) → has c (partition d s).before ≡ true → has c s ≡ true
unfolding partition has
has-partition_before c d [] h = h
has-partition_before c d (e ∷ s) h = ground (arith, has-partition_before c d s)

pub has-partition_after : (c d : ℕ) (s : Str) → has c (partition d s).after ≡ true → has c s ≡ true
unfolding partition has
has-partition_after c d [] h = h
has-partition_after c d (e ∷ s) h = ground (arith, has-partition_after c d s)

pub after_last_absent : (c : ℕ) (s : Str) → has c s ≡ false → after_last c s ≡ s
unfolding after_last has
after_last_absent c [] h = refl
after_last_absent c (d ∷ s) h = ground (arith, after_last_absent c s)

pub has-after_last_self : (c : ℕ) (s : Str) → has c (after_last c s) ≡ false
unfolding after_last has
has-after_last_self c [] = refl
has-after_last_self c (d ∷ s) = ground (arith, has-after_last_self c s)

pub has-after_last : (c d : ℕ) (s : Str) → has c (after_last d s) ≡ true → has c s ≡ true
unfolding after_last has
has-after_last c d [] h = h
has-after_last c d (e ∷ s) h = ground (arith, has-after_last c d s)

pub has-drop_while_end :
    (c : ℕ) (p : ℕ → Bool) (s : Str) → has c (drop_while_end p s) ≡ true → has c s ≡ true
unfolding drop_while_end has
has-drop_while_end c p [] h = h
has-drop_while_end c p (d ∷ s) h = ground (arith, has-drop_while_end c p s)

-- Nothing is dropped from a text none of whose characters pass the test.
pub drop_while_none : (p : ℕ → Bool) (s : Str) → all (λ c. not (p c)) s ≡ true → drop_while p s ≡ s
unfolding drop_while
drop_while_none p [] h = refl
drop_while_none p (c ∷ s) h = ground arith

pub drop_while_end_none :
    (p : ℕ → Bool) (s : Str) → all (λ c. not (p c)) s ≡ true → drop_while_end p s ≡ s
unfolding drop_while_end is_empty
drop_while_end_none p [] h = refl
drop_while_end_none p (c ∷ s) h = ground (arith, drop_while_end_none p s)
