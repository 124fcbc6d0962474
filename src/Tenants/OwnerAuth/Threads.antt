-- ===== src/Tenants/OwnerAuth/Threads.antt =====
-- `JwksKeyResolver.get` in several threads at once (backend/src/app/tenants/owner_auth.py):
-- `get_owner_context` hands `verify` to a thread, and `_live_verifier` keeps one resolver for all of
-- them. A thread stops at each access to what the threads share: the two looks at `self._keys`, the
-- fetch, and the assignment of `self._keys`. The threads go in any order.
pub mod Invariant
pub mod Progress
pub mod Race
pub mod Tests
use honest_agent.Prelude.{ℕ, Option, none, some, List, [], ◌∷◌, ◌==◌, if◌then◌else◌}
use honest_agent.Py.Str.{Str, codes}
use honest_agent.Py.Dict.{Dict, lookup}
use honest_agent.Py.Value.{Fields}
use honest_agent.Py.Exec.{Result, ok, raised, fail}
use honest_agent.Core.Errors.{authentication_error}
use honest_agent.Tenants.OwnerAuth.Keys.{KeySource, Cache, collect}

-- Where a thread stands in `get`, with its local values.
pub data Stage (Key : Type 0) : Type 0 where
  looking : (kid : Str) → Stage Key
  fetching : (kid : Str) → Stage Key
  storing : (kid : Str) → (keys : Dict Key) → Stage Key
  rereading : (kid : Str) → Stage Key
  done : (kid : Str) → Result Key → Stage Key

unfoldable pub kid_of : {Key : Type 0} → Stage Key → Str
kid_of (looking kid) = kid
kid_of (fetching kid) = kid
kid_of (storing kid keys) = kid
kid_of (rereading kid) = kid
kid_of (done kid r) = kid

-- What the threads share, and the key sets that were fetched so far, the last one first.
pub record Shared (W Key : Type 0) : Type 0 where
  pub keys : Dict Key
  pub world : W
  pub fetched : List (List Fields)

pub record System (W Key : Type 0) : Type 0 where
  pub shared : Shared W Key
  pub stage : ℕ → Stage Key

-- Threads that call `get` on an empty cache, each for a `kid` of its own.
abbrev pub start : {W Key : Type 0} → (ℕ → Str) → W → System W Key
start kids world = record {
  shared = record { keys = []; world = world; fetched = [] };
  stage = λ i. looking (kids i);
}

-- The resolver's state, as `get_key` has it.
abbrev pub cache_of : {W Key : Type 0} → Shared W Key → Cache W Key
cache_of s = record { keys = s.keys; world = s.world }

abbrev pub update {ℓ} : {A : Type ℓ} → (ℕ → A) → ℕ → A → ℕ → A
update f i a j = if i == j then a else f j

module _ {Key : Type 0} where
  unfoldable pub first_look : Str → Option Key → Stage Key
  first_look kid none = fetching kid
  first_look kid (some key) = done kid (ok key)

  unfoldable pub second_look : Str → Option Key → Stage Key
  second_look kid none = done kid (fail authentication_error (codes "unknown token signing key"))
  second_look kid (some key) = done kid (ok key)

  -- The keys that `_refresh` has made of the entries, or what it raises.
  unfoldable pub hold : Str → Result (Dict Key) → Stage Key
  hold kid (ok keys) = storing kid keys
  hold kid (raised e) = done kid (raised e)

module _ {W Key : Type 0} (source : KeySource W Key) where
  unfoldable pub receive : Str → Result (List Fields) → W → Shared W Key → Stage Key × Shared W Key
  unfolding hold
  receive kid (ok entries) world s = (
    hold kid (collect source [] entries),
    record s { world = world; fetched = entries ∷ s.fetched },
  )
  receive kid (raised e) world s = (done kid (raised e), record s { world = world })

  -- One step of a thread.
  unfoldable pub move : Stage Key → Shared W Key → Stage Key × Shared W Key
  unfolding first_look second_look receive
  move (looking kid) s = (first_look kid (lookup kid s.keys), s)
  move (fetching kid) s = let (entries, world) = source.fetch s.world in receive kid entries world s
  move (storing kid keys) s = (rereading kid, record s { keys = keys })
  move (rereading kid) s = (second_look kid (lookup kid s.keys), s)
  move (done kid r) s = (done kid r, s)

  unfoldable pub step : ℕ → System W Key → System W Key
  step i system =
      let (stage, shared) = move (system.stage i) system.shared in
      record { shared = shared; stage = update system.stage i stage }

  -- The threads in the order of a schedule.
  unfoldable pub run : List ℕ → System W Key → System W Key
  run [] system = system
  run (i ∷ schedule) system = run schedule (step i system)
