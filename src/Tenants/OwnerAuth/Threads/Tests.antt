-- ===== src/Tenants/OwnerAuth/Threads/Tests.antt =====
-- Two threads on a key set that is rotated between their fetches.
use honest_agent.Prelude.{
  ℕ, ◌+◌, ◌≤◌, ◌≡◌, ◌≢◌, refl, true, none, some, String, List, [], ◌∷◌, ◌==◌, arith, if◌then◌else◌,
}
use honest_agent.Py.Str.{codes, str_eq, is_empty}
use honest_agent.Py.Dict.{lookup, assign}
use honest_agent.Py.Value.{Fields, str, end, field, get, nonempty_str}
use honest_agent.Py.Exec.{ok, fail}
use honest_agent.Core.Errors.{authentication_error}
use honest_agent.Tenants.OwnerAuth.Keys.{
  KeySource, collect, add_entry, get_key, refresh, replace_keys, after_refresh,
}
use honest_agent.Tenants.OwnerAuth.Threads.{
  start, done, System, move, step, run, receive, hold, first_look, second_look,
}
use honest_agent.Tenants.OwnerAuth.Threads.Invariant.{Fetched, run-Fetched}
use honest_agent.Tenants.OwnerAuth.Threads.Progress.{turns, is_done, run_done}
use honest_agent.Tenants.OwnerAuth.Threads.Race.{overtaken, overtaken-refuses}

abbrev entry : String → List Fields
entry kid = field (codes "kid") (str (codes kid)) end ∷ []

-- The world counts the fetches; the first one sees the old key set.
abbrev rotating : KeySource ℕ ℕ
rotating = record {
  fetch = λ n. (ok (if n == 0 then entry "k0" else entry "k1"), n + 1);
  from_dict = λ e. ok 7;
}

opened : Unit {0}
unfolding codes str_eq is_empty lookup assign get nonempty_str collect add_entry get_key refresh
    replace_keys after_refresh move step run receive hold first_look second_look overtaken turns
    is_done
opened = tt

abbrev both : System ℕ ℕ
both = start (λ i. codes "k1") 0

-- Thread 1 goes alone and is refused, then thread 0 finds the rotated key.
schedule_tests :
    ((run rotating (1 ∷ 1 ∷ 1 ∷ 1 ∷ 0 ∷ 0 ∷ 0 ∷ 0 ∷ []) both).stage 0 ≡ done (codes "k1") (ok 7))
    × ((run rotating (overtaken 0 1) both).shared.keys ≡ (codes "k0", 7) ∷ [])
unfolding opened
schedule_tests = (refl, refl)

returned :
    (run rotating (1 ∷ 1 ∷ 1 ∷ 1 ∷ 0 ∷ 0 ∷ 0 ∷ 0 ∷ []) both).stage 0 ≡ done (codes "k1") (ok 7)
unfolding opened
returned = refl

run-Fetched_example :
    (codes "k1" ≡ codes "k1")
    × Fetched rotating
        (codes "k1")
        7
        (run rotating (1 ∷ 1 ∷ 1 ∷ 1 ∷ 0 ∷ 0 ∷ 0 ∷ 0 ∷ []) both).shared.fetched
run-Fetched_example =
    run-Fetched rotating (λ i. codes "k1") 0 (1 ∷ 1 ∷ 1 ∷ 1 ∷ 0 ∷ 0 ∷ 0 ∷ 0 ∷ []) 0 (codes "k1") 7
      returned

four_turns : 4 ≤ turns 0 (0 ∷ 1 ∷ 0 ∷ 1 ∷ 0 ∷ 0 ∷ [])
unfolding opened
four_turns = omega arith

run_done_example : is_done ((run rotating (0 ∷ 1 ∷ 0 ∷ 1 ∷ 0 ∷ 0 ∷ []) both).stage 0) ≡ true
run_done_example = run_done rotating (0 ∷ 1 ∷ 0 ∷ 1 ∷ 0 ∷ 0 ∷ []) both 0 four_turns

old_keys : collect rotating [] (entry "k0") ≡ ok ((codes "k0", 7) ∷ [])
unfolding opened
old_keys = refl

new_keys : collect rotating [] (entry "k1") ≡ ok ((codes "k1", 7) ∷ [])
unfolding opened
new_keys = refl

looked_up :
    (lookup {V = ℕ} (codes "k1") [] ≡ none)
    × (lookup {V = ℕ} (codes "k1") ((codes "k0", 7) ∷ []) ≡ none)
    × (lookup {V = ℕ} (codes "k1") ((codes "k1", 7) ∷ []) ≡ some 7)
unfolding opened
looked_up = (refl, refl, refl)

two_threads : ◌≢◌ {A = ℕ} 0 1
two_threads h = omega arith

overtaken-refuses_example :
    (run rotating (overtaken 0 1) both).stage 0
    ≡ done (codes "k1") (fail authentication_error (codes "unknown token signing key"))
overtaken-refuses_example =
    overtaken-refuses rotating 0 1 (codes "k1") (codes "k1") both (entry "k0") (entry "k1")
      ((codes "k0", 7) ∷ []) ((codes "k1", 7) ∷ []) 7 1 2 two_threads refl refl looked_up.0
      looked_up.0 refl refl old_keys new_keys looked_up.1 looked_up.2
