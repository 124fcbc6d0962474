-- ===== src/Tenants/OwnerAuth/Threads/Invariant.antt =====
-- What holds whatever the order in which the threads go.
use honest_agent.Prelude.{
  ℕ, Option, ◌≡◌, refl, sym, ◌∙◌, ap, ◌⊎◌, inl, inr, true, false, none, some, List, [], ◌∷◌, ◌==◌,
  arith, Bool-cases,
}
use mathlib.Core.Path.{subst}
use honest_agent.Py.Str.{Str}
use honest_agent.Py.Dict.{Dict, lookup}
use honest_agent.Py.Value.{Fields}
use honest_agent.Py.Exec.{Result, ok, raised}
use honest_agent.Tenants.OwnerAuth.Keys.{KeySource, collect}
use honest_agent.Tenants.OwnerAuth.Keys.Laws.{Published, collect-Published}
use honest_agent.Tenants.OwnerAuth.Threads.{
  Stage, start, looking, fetching, storing, rereading, done, Shared, System, kid_of, update, move,
  step, run, receive, hold, first_look, second_look,
}

module _ {W Key : Type 0} (source : KeySource W Key) where
  -- One of these key sets publishes the key under this `kid`.
  pub data Fetched (kid : Str) (key : Key) : List (List Fields) → Type 0 where
    last :
        {entries : List Fields} {older : List (List Fields)}
        → Published source kid key entries
        → Fetched kid key (entries ∷ older)
    before :
        {entries : List Fields} {older : List (List Fields)}
        → Fetched kid key older
        → Fetched kid key (entries ∷ older)

  abbrev pub AllFetched : Dict Key → List (List Fields) → Type 0
  AllFetched keys fetched =
      (kid : Str) (key : Key) → lookup kid keys ≡ some key → Fetched kid key fetched

  -- The keys that a thread holds, and the key that it has returned.
  abbrev pub Honest : Stage Key → List (List Fields) → Type 0
  Honest (looking kid) fetched = Unit
  Honest (fetching kid) fetched = Unit
  Honest (storing kid keys) fetched = AllFetched keys fetched
  Honest (rereading kid) fetched = Unit
  Honest (done kid (ok key)) fetched = Fetched kid key fetched
  Honest (done kid (raised e)) fetched = Unit

  pub record Inv (system : System W Key) : Type 0 where
    pub cached : AllFetched system.shared.keys system.shared.fetched
    pub honest : (i : ℕ) → Honest (system.stage i) system.shared.fetched

  -- Nothing that was fetched is forgotten.
  Grows : (fetched later : List (List Fields)) → Type 0
  Grows fetched later = (kid : Str) (key : Key) → Fetched kid key fetched → Fetched kid key later

  Honest-Grows :
      (stage : Stage Key) (fetched later : List (List Fields))
      → Grows fetched later
      → Honest stage fetched
      → Honest stage later
  unfolding Grows
  Honest-Grows (looking kid) fetched later g h = tt
  Honest-Grows (fetching kid) fetched later g h = tt
  Honest-Grows (storing kid keys) fetched later g h = λ k key found. g k key (h k key found)
  Honest-Grows (rereading kid) fetched later g h = tt
  Honest-Grows (done kid (ok key)) fetched later g h = g kid key h
  Honest-Grows (done kid (raised e)) fetched later g h = tt

  AllFetched-collect :
      (entries : List Fields) (keys : Dict Key) (older : List (List Fields))
      → collect source [] entries ≡ ok keys
      → AllFetched keys (entries ∷ older)
  AllFetched-collect entries keys older made kid key found =
      elim (collect-Published source [] keys entries kid key made found) [
        | inl stale ↦ absurd (unfold lookup in ground arith)
        | inr published ↦ last published
      ]

  hold-Honest :
      (kid : Str) (r : Result (Dict Key)) (fetched : List (List Fields))
      → ((keys : Dict Key) → r ≡ ok keys → AllFetched keys fetched)
      → Honest (hold kid r) fetched
  unfolding hold
  hold-Honest kid (ok keys) fetched h = h keys refl
  hold-Honest kid (raised e) fetched h = tt

  first_look-Honest :
      (kid : Str) (o : Option Key) (fetched : List (List Fields))
      → ((key : Key) → o ≡ some key → Fetched kid key fetched)
      → Honest (first_look kid o) fetched
  unfolding first_look
  first_look-Honest kid none fetched h = tt
  first_look-Honest kid (some key) fetched h = h key refl

  second_look-Honest :
      (kid : Str) (o : Option Key) (fetched : List (List Fields))
      → ((key : Key) → o ≡ some key → Fetched kid key fetched)
      → Honest (second_look kid o) fetched
  unfolding second_look
  second_look-Honest kid none fetched h = tt
  second_look-Honest kid (some key) fetched h = h key refl

  -- What a step keeps: the threads' keys and this thread's, and what the others hold.
  record Kept (stage : Stage Key) (before after : Shared W Key) : Type 0 where
    cached : AllFetched after.keys after.fetched
    honest : Honest stage after.fetched
    grows : Grows before.fetched after.fetched

  receive-Kept :
      (kid : Str) (entries : Result (List Fields)) (world : W) (s : Shared W Key)
      → AllFetched s.keys s.fetched
      → Kept (receive source kid entries world s).0 s (receive source kid entries world s).1
  unfolding receive Grows
  receive-Kept kid (raised e) world s cached = record {
    cached = cached;
    honest = tt;
    grows = λ k key found. found;
  }
  receive-Kept kid (ok entries) world s cached = record {
    cached = λ k key found. before (cached k key found);
    honest =
        hold-Honest kid (collect source [] entries) (entries ∷ s.fetched)
          (λ keys made. AllFetched-collect entries keys s.fetched made);
    grows = λ k key found. before found;
  }

  move-Kept :
      (stage : Stage Key) (s : Shared W Key)
      → AllFetched s.keys s.fetched
      → Honest stage s.fetched
      → Kept (move source stage s).0 s (move source stage s).1
  unfolding move Grows
  move-Kept (looking kid) s cached h = record {
    cached = cached;
    honest = first_look-Honest kid (lookup kid s.keys) s.fetched (cached kid);
    grows = λ k key found. found;
  }
  move-Kept (fetching kid) s cached h =
      receive-Kept kid (source.fetch s.world).0 (source.fetch s.world).1 s cached
  move-Kept (storing kid keys) s cached h = record {
    cached = h;
    honest = tt;
    grows = λ k key found. found;
  }
  move-Kept (rereading kid) s cached h = record {
    cached = cached;
    honest = second_look-Honest kid (lookup kid s.keys) s.fetched (cached kid);
    grows = λ k key found. found;
  }
  move-Kept (done kid r) s cached h = record {
    cached = cached;
    honest = h;
    grows = λ k key found. found;
  }

  step-Inv : (i : ℕ) (system : System W Key) → Inv system → Inv (step source i system)
  unfolding step
  step-Inv i system inv = record {
    cached = kept.cached;
    honest = λ j. others j (Bool-cases (i == j));
  }
    where
      kept :
          Kept
            (move source (system.stage i) system.shared).0
            system.shared
            (move source (system.stage i) system.shared).1
      kept = move-Kept (system.stage i) system.shared inv.cached (inv.honest i)

      others :
          (j : ℕ)
          → ((i == j) ≡ true) ⊎ ((i == j) ≡ false)
          → Honest
              (update system.stage i (move source (system.stage i) system.shared).0 j)
              (move source (system.stage i) system.shared).1.fetched
      others j (inl same) = rw same kept.honest
      others j (inr other) =
          rw other (Honest-Grows (system.stage j) system.shared.fetched _ kept.grows (inv.honest j))

  run-Inv :
      (schedule : List ℕ) (system : System W Key) → Inv system → Inv (run source schedule system)
  unfolding run
  run-Inv [] system inv = inv
  run-Inv (i ∷ schedule) system inv =
      run-Inv schedule (step source i system) (step-Inv i system inv)

  start-Inv : (kids : ℕ → Str) (world : W) → Inv (start kids world)
  unfolding lookup
  start-Inv kids world = record {
    cached = λ kid key found. absurd (ground arith);
    honest = λ i. tt;
  }

  move-kid_of :
      (stage : Stage Key) (s : Shared W Key) → kid_of (move source stage s).0 ≡ kid_of stage
  unfolding move kid_of first_look second_look receive hold
  move-kid_of (looking kid) s = ground arith
  move-kid_of (fetching kid) s = ground arith
  move-kid_of (storing kid keys) s = refl
  move-kid_of (rereading kid) s = ground arith
  move-kid_of (done kid r) s = refl

  run-kid_of :
      (schedule : List ℕ) (system : System W Key) (i : ℕ)
      → kid_of ((run source schedule system).stage i) ≡ kid_of (system.stage i)
  unfolding run step
  run-kid_of [] system i = refl
  run-kid_of (j ∷ schedule) system i = ground (
    arith,
    run-kid_of schedule (step source j system) i,
    move-kid_of (system.stage j) system.shared,
  )

  -- Threads that start on an empty cache, in whatever order they go: a key that a thread returns is
  -- one that a key set, fetched by one of the threads, publishes under the `kid` that this thread
  -- was asked for.
  pub run-Fetched :
      (kids : ℕ → Str) (world : W) (schedule : List ℕ) (i : ℕ) (kid : Str) (key : Key)
      → (run source schedule (start kids world)).stage i ≡ done kid (ok key)
      → (kid ≡ kids i) × Fetched kid key (run source schedule (start kids world)).shared.fetched
  unfolding kid_of
  run-Fetched kids world schedule i kid key returned = (
    sym (ap kid_of returned) ∙ run-kid_of schedule (start kids world) i,
    subst (λ stage. Honest stage (run source schedule (start kids world)).shared.fetched) returned
        ((run-Inv schedule (start kids world) (start-Inv kids world)).honest i),
  )
