-- ===== src/Scripts/E2eDoors/Counts.antt =====
-- How many checks a call adds to the results, and what the exit code says of them.
use honest_agent.Prelude.{
  ℕ, ◌+◌, ◌≡◌, refl, Bool, true, false, ◌&&◌, List, [], ◌∷◌, ◌++◌, arith, length, all,
  if◌then◌else◌,
}
use honest_agent.Py.Str.{Str, codes}
use honest_agent.Py.Value.{Value}
use honest_agent.Py.Exec.{Result, ok, Action, lift, ◌>>=◌, bind-ok, for_each}
use honest_agent.Core.Settings.{Settings}
use honest_agent.Scripts.E2eDoors.Checks.{
  Results, outside, check, labelled, expect, HttpCheck, failures, exit_code,
}
use honest_agent.Scripts.E2eDoors.Web.{
  HttpClient, owner_door, visitor_door, owner_checks, visitor_checks, supabase_owner_token,
}

abbrev pub passed_all : Results → Bool
passed_all results = all (λ (passed, label). passed) results

pub length-snoc :
    (results : Results) (r : Bool × Str) → length (results ++ (r ∷ [])) ≡ 1 + length results
length-snoc [] r = refl
length-snoc (r' ∷ results) r = ground (arith, length-snoc results r)

pub passed_all-snoc :
    (results : Results) (passed : Bool) (label : Str)
    → passed_all (results ++ ((passed, label) ∷ [])) ≡ (passed_all results && passed)
passed_all-snoc [] passed label = ground arith
passed_all-snoc ((p, l) ∷ results) passed label =
    ground (arith, passed_all-snoc results passed label)

pub exit_code-passed :
    (results : Results) → exit_code results ≡ (if passed_all results then 0 else 1)
unfolding exit_code failures
exit_code-passed [] = refl
exit_code-passed ((true, label) ∷ results) = exit_code-passed results
exit_code-passed ((false, label) ∷ results) = refl

module _ {S : Type 0} where
  -- A call that adds n checks where it returns.
  pub record Adds {A : Type 0} (n : ℕ) (m : Action (S × Results) A) : Type 0 where
    pub adds :
        (s t : S) (results results' : Results) (a : A)
        → m (s, results) ≡ (ok a, (t, results'))
        → length results' ≡ n + length results

  Adds-outside : {A : Type 0} (m : Action S A) → Adds 0 (outside m)
  Adds-outside m = record { adds = λ s t results results' a h. ground arith }

  Adds-lift : {A : Type 0} (r : Result A) → Adds 0 (lift r)
  Adds-lift r = record { adds = λ s t results results' a h. ground arith }

  Adds-check : (passed : Bool) (label : Str) → Adds 1 (check passed label)
  unfolding check
  Adds-check passed label = record {
    adds = λ s t results results' a h. ground (arith, length-snoc results (passed, label));
  }

  pub Adds-bind :
      {A B : Type 0} (n k : ℕ) (m : Action (S × Results) A) (f : A → Action (S × Results) B)
      → Adds n m
      → ((a : A) → Adds k (f a))
      → Adds (n + k) (m >>= f)
  Adds-bind n k m f first more = record {
    adds = λ s t results results' b h.
        let (a, ((u, between), begun, ended)) = bind-ok m f (s, results) (t, results') b h in
        let left = first.adds s u results between a begun in
        let right = (more a).adds u t between results' b ended in ground arith;
  }

  Adds-expect : (http_check : HttpCheck S) → Adds 1 (expect http_check)
  unfolding expect
  Adds-expect http_check =
      let request = http_check.request in
      let test = http_check.test in
      Adds-bind 0 1 (outside request) _ (Adds-outside request) (λ response.
        Adds-bind 0 1 (lift (test response)) _ (Adds-lift (test response))
          (λ passed. Adds-check passed (labelled http_check.text response)))

  Adds-for_each : (checks : List (HttpCheck S)) → Adds (length checks) (for_each checks expect)
  unfolding for_each
  Adds-for_each [] = Adds-lift (ok tt)
  Adds-for_each (c ∷ checks) =
      let rest = Adds-for_each checks in
      let both =
        Adds-bind 1 (length checks) (expect c) (λ _. for_each checks expect) (Adds-expect c)
          (λ _. rest) in
      record {
        adds = λ s t results results' a h.
            let more = both.adds s t results results' a h in ground arith;
      }

module _ {S : Type 0} (client : HttpClient S) (format : Value → Str) (base_url : Str) where
  pub Adds-owner_door : (settings : Settings) → Adds 3 (owner_door client format base_url settings)
  unfolding owner_door owner_checks
  Adds-owner_door settings =
      let request =
        supabase_owner_token client format base_url settings (codes "owner-a@example.com") in
      let checks = λ (token : Value). owner_checks client format base_url token in
      Adds-bind 0 3 (outside request) (λ token. for_each (checks token) expect)
        (Adds-outside request) (λ token. Adds-for_each (checks token))

  pub Adds-visitor_door : Adds 3 (visitor_door client format base_url)
  unfolding visitor_door visitor_checks
  Adds-visitor_door = Adds-for_each (visitor_checks client format base_url)
