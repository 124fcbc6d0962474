-- ===== src/Main/Lifespan/Tests.antt =====
-- An app that fails while it runs, on a pool that is counted.
use honest_agent.Prelude.{ℕ, ◌+◌, ◌-◌, ◌≡◌, refl, none, arith, if◌then◌else◌}
use honest_agent.Py.Unicode.{ascii_unicode}
use honest_agent.Py.Exec.{external, raised, ok, Action}
use honest_agent.Core.Db.{returned}
use honest_agent.Core.Settings.Sample.{sample_settings}
use honest_agent.Main.Lifespan.{Resources, AppState, lifespan}
use honest_agent.Main.Lifespan.Laws.{CountsPools, lifespan_closes}

-- The state counts the open pools.
abbrev resources : Resources ℕ ℕ
resources = record {
  create_pool = λ config n. (ok 7, 1 + n);
  close = λ pool n. (ok tt, n - 1);
  fetchrow = λ pool key n. (ok none, n);
  enter = λ n. (ok tt, n);
  leave = λ returned n. (ok tt, n);
}

abbrev failing : AppState ℕ ℕ → Action ℕ (Unit {0})
failing state n = (raised (external 3), n)

counts : CountsPools resources (λ n. n) failing
counts = record {
  created = λ config pool s t h. ground arith;
  closed = λ pool s. refl;
  entered = λ s. refl;
  left = λ returned s. refl;
  served = λ state s. refl;
}

lifespan_closes_example :
    (lifespan ascii_unicode resources failing sample_settings 4).1
    ≡ (if returned (resources.enter 5).0 then 4 else 1 + 4)
lifespan_closes_example =
    lifespan_closes ascii_unicode resources (λ n. n) failing sample_settings 7 4 5 counts refl
