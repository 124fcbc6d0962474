-- ===== src/Scripts/SeedLocal/Entries.antt =====
-- A loop over the entries of a `dict` that sets what each of them names.
use honest_agent.Prelude.{◌≡◌, ◌∙◌, ap, Option, some, [], ◌∷◌, arith, if◌then◌else◌}
use honest_agent.Py.Str.{Str, str_eq}
use honest_agent.Py.Dict.{Dict}
use honest_agent.Py.Exec.{ok, Action, bind-ok, for_each}

module _ {V R : Type 0} (make : V → R) where
  -- What a key has after the loop, where it had `o` before.
  unfoldable pub assigned : Dict V → Str → Option R → Option R
  assigned [] key o = o
  assigned ((k, v) ∷ entries) key o =
      assigned entries key (if str_eq k key then some (make v) else o)

  -- A body that sets the key of its entry and keeps the others.
  abbrev pub Sets : {S : Type 0} → (S → Str → Option R) → (Str × V → Action S (Unit {0})) → Type 0
  Sets {S} view body =
      (k : Str) (v : V) (s t : S) (key : Str)
      → body (k, v) s ≡ (ok tt, t)
      → view t key ≡ (if str_eq k key then some (make v) else view s key)

  pub for_each-assigned :
      {S : Type 0} (view : S → Str → Option R) (body : Str × V → Action S (Unit {0}))
      → Sets view body
      → (entries : Dict V) (s t : S) (key : Str) → for_each entries body s ≡ (ok tt, t)
      → view t key ≡ assigned entries key (view s key)
  unfolding for_each assigned
  for_each-assigned view body sets [] s t key h = ground arith
  for_each-assigned view body sets ((k, v) ∷ entries) s t key h =
      let (u, (s', wrote, rest)) = bind-ok (body (k, v)) (λ x. for_each entries body) s t tt h in
      for_each-assigned view body sets entries s' t key rest
      ∙ ap (assigned entries key) (sets k v s s' key wrote)
