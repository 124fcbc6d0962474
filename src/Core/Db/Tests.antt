-- ===== src/Core/Db/Tests.antt =====
-- A pool of one connection that keeps what it was told to do, and the tenant that its policies see.
use honest_agent.Prelude.{
  ◌≡◌, refl, Bool, true, false, Option, none, some, List, [], ◌∷◌, arith, if◌then◌else◌,
}
use honest_agent.Py.Str.{Str, codes}
use honest_agent.Py.Exec.{ok, raised, external, Action}
use honest_agent.Core.Db.{Connection, returned, with_context, tenant_txn}
use honest_agent.Core.Db.Laws.{SetsTenant, tenant_txn-fail_closed}

data Step : Type 0 where
  acquired begun set committed rolled_back released wrote : Step

record Session : Type 0 where
  open_transaction : Bool
  tenant : Option Str
  steps : List Step

abbrev noted : Step → Action Session (Unit {0})
noted step s = (ok tt, record s { steps = step ∷ s.steps })

finish : Bool → Action Session (Unit {0})
finish true s =
    (ok tt, record { open_transaction = false; tenant = none; steps = committed ∷ s.steps })
finish false s =
    (ok tt, record { open_transaction = false; tenant = none; steps = rolled_back ∷ s.steps })

begin : Action Session (Unit {0})
begin s = (ok tt, record s { open_transaction = true; steps = begun ∷ s.steps })

-- Outside a transaction the setting is gone with the statement.
execute : Str → Str → Action Session (Unit {0})
execute statement tenant_id s = (
  ok tt,
  record s {
    tenant = if s.open_transaction then some tenant_id else s.tenant;
    steps = set ∷ s.steps;
  },
)

finish-none : (done : Bool) (s : Session) → (finish done s).1.tenant ≡ none
unfolding finish
finish-none true s = refl
finish-none false s = refl

abbrev single : Connection Session
single = record {
  acquire = noted acquired;
  release = λ done. noted released;
  begin = begin;
  finish = finish;
  execute = execute;
}

sets : SetsTenant single (λ s. s.open_transaction) (λ s. s.tenant)
unfolding begin execute
sets = record {
  begins = λ s t h. ground arith;
  set_config = λ tenant_id s t inside h. ground arith;
  set_outside = λ tenant_id s outside. ground arith;
  acquire_keeps = λ s. refl;
  begin_keeps = λ s. refl;
  finish_resets = finish-none;
  release_keeps = λ done s. refl;
}

abbrev idle : Session
idle = record { open_transaction = false; tenant = none; steps = [] }

-- A block that reports the tenant it runs for, one that forgets to look where none is set, and one
-- that fails.
report : Action Session (Option Str)
report s = (ok s.tenant, record s { steps = wrote ∷ s.steps })

guess : Action Session (Option Str)
guess s = (
  ok (elim s.tenant [ none ↦ some (codes "tenant-b") | some t ↦ some t ]),
  record s { steps = wrote ∷ s.steps },
)

failing : Action Session (Option Str)
failing s = (raised (external 0), s)

alike : (t : Session) → t.tenant ≡ some (codes "tenant-a") → report t ≡ guess t
unfolding report guess
alike t h = ground arith

tenant_txn-fail_closed_example :
    tenant_txn single (codes "tenant-a") report idle
    ≡ tenant_txn single (codes "tenant-a") guess idle
tenant_txn-fail_closed_example =
    tenant_txn-fail_closed single (λ s. s.open_transaction) (λ s. s.tenant) sets (codes "tenant-a")
      report guess idle alike

abbrev after : List Step → Session
after steps = record { open_transaction = false; tenant = none; steps = steps }

tenant_txn_tests :
    (tenant_txn single (codes "tenant-a") report idle ≡ (
      ok (some (codes "tenant-a")),
      after (released ∷ committed ∷ wrote ∷ set ∷ begun ∷ acquired ∷ []),
    ))
    × (tenant_txn single (codes "tenant-a") failing idle
        ≡ (raised (external 0), after (released ∷ rolled_back ∷ set ∷ begun ∷ acquired ∷ [])))
unfolding tenant_txn with_context returned report failing finish begin execute
tenant_txn_tests = (refl, refl)
