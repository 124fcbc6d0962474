-- ===== src/Tenants/OwnerAuth/Threads/Progress.antt =====
-- No thread waits for another.
use honest_agent.Prelude.{
  ℕ, ◌+◌, ◌-◌, ◌≤◌, ◌≡◌, refl, Bool, true, false, List, [], ◌∷◌, ◌==◌, arith, if◌then◌else◌,
}
use honest_agent.Tenants.OwnerAuth.Keys.{KeySource}
use honest_agent.Tenants.OwnerAuth.Threads.{
  Stage, looking, fetching, storing, rereading, done, Shared, System, move, step, run, receive,
  hold, first_look, second_look,
}

-- How often a thread has its turn.
unfoldable pub turns : ℕ → List ℕ → ℕ
turns i [] = 0
turns i (j ∷ schedule) = (if j == i then 1 else 0) + turns i schedule

module _ {Key : Type 0} where
  -- The steps that are left at most.
  rank : Stage Key → ℕ
  rank (looking kid) = 4
  rank (fetching kid) = 3
  rank (storing kid keys) = 2
  rank (rereading kid) = 1
  rank (done kid r) = 0

  unfoldable pub is_done : Stage Key → Bool
  is_done (done kid r) = true
  is_done _ = false

  done_of_rank : (stage : Stage Key) → rank stage ≡ 0 → is_done stage ≡ true
  unfolding rank is_done
  done_of_rank (looking kid) h = absurd (omega arith)
  done_of_rank (fetching kid) h = absurd (omega arith)
  done_of_rank (storing kid keys) h = absurd (omega arith)
  done_of_rank (rereading kid) h = absurd (omega arith)
  done_of_rank (done kid r) h = refl

  rank_bound : (stage : Stage Key) → rank stage ≤ 4
  unfolding rank
  rank_bound stage = ground arith

module _ {W Key : Type 0} (source : KeySource W Key) where
  move-rank : (stage : Stage Key) (s : Shared W Key) → rank (move source stage s).0 ≤ rank stage - 1
  unfolding move rank first_look second_look receive hold
  move-rank (looking kid) s = ground arith
  move-rank (fetching kid) s = ground arith
  move-rank (storing kid keys) s = ground arith
  move-rank (rereading kid) s = ground arith
  move-rank (done kid r) s = ground arith

  run-rank :
      (schedule : List ℕ) (system : System W Key) (i : ℕ)
      → rank ((run source schedule system).stage i) ≤ rank (system.stage i) - turns i schedule
  unfolding run step turns
  run-rank [] system i = omega arith
  run-rank (j ∷ schedule) system i =
      ground (
        arith,
        run-rank schedule (step source j system) i,
        move-rank (system.stage j) system.shared,
      )

  -- Whatever the other threads do, and wherever a thread stands: once it has had four turns it has
  -- returned or raised.
  pub run_done :
      (schedule : List ℕ) (system : System W Key) (i : ℕ)
      → 4 ≤ turns i schedule
      → is_done ((run source schedule system).stage i) ≡ true
  run_done schedule system i h =
      done_of_rank ((run source schedule system).stage i)
        (omega (arith, run-rank schedule system i, rank_bound (system.stage i)))
