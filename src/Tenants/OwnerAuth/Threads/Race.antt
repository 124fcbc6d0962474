-- ===== src/Tenants/OwnerAuth/Threads/Race.antt =====
-- Two threads that fetch, one before and one behind a rotation of the keys.
use honest_agent.Prelude.{ℕ, ◌≡◌, ◌≢◌, none, some, List, [], ◌∷◌, arith}
use honest_agent.Py.Str.{Str, codes}
use honest_agent.Py.Dict.{Dict, lookup}
use honest_agent.Py.Value.{Fields}
use honest_agent.Py.Exec.{ok, fail}
use honest_agent.Core.Errors.{authentication_error}
use honest_agent.Tenants.OwnerAuth.Keys.{KeySource, collect}
use honest_agent.Tenants.OwnerAuth.Threads.{
  looking, done, System, move, step, run, receive, hold, first_look, second_look,
}

-- The slow thread fetches first and stores last.
unfoldable pub overtaken : (fast slow : ℕ) → List ℕ
overtaken fast slow = slow ∷ slow ∷ fast ∷ fast ∷ fast ∷ slow ∷ fast ∷ []

module _ {W Key : Type 0} (source : KeySource W Key) where
  -- Neither thread's `kid` is cached, and both fetches and both key sets can be read; the set does
  -- not hold the fast thread's `kid` when the slow thread fetches it, and holds it when the fast one
  -- does. In the order `overtaken` the fast thread, which has fetched the key, is refused,
  -- since the slow thread has stored the older keys between its store and its second look.
  pub overtaken-refuses :
      (fast slow : ℕ) (kid kid' : Str) (system : System W Key) (old new : List Fields)
      (old_keys new_keys : Dict Key) (key : Key) (w w' : W)
      → fast ≢ slow
      → system.stage fast ≡ looking kid
      → system.stage slow ≡ looking kid'
      → lookup kid system.shared.keys ≡ none
      → lookup kid' system.shared.keys ≡ none
      → source.fetch system.shared.world ≡ (ok old, w)
      → source.fetch w ≡ (ok new, w')
      → collect source [] old ≡ ok old_keys
      → collect source [] new ≡ ok new_keys
      → lookup kid old_keys ≡ none
      → lookup kid new_keys ≡ some key
      → (run source (overtaken fast slow) system).stage fast
        ≡ done kid (fail authentication_error (codes "unknown token signing key"))
  unfolding run step overtaken move first_look second_look receive hold
  overtaken-refuses fast slow kid kid' system old new old_keys new_keys key w w' a c d e f g h i j k
        l =
      ground arith
