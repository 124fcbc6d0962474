-- ===== src/Core/Observability.antt =====
-- backend/src/app/core/observability.py: which of the two services is told of the app. The calls of
-- logfire and of sentry are a parameter.
use honest_agent.Prelude.{Option, none, some}
use honest_agent.Py.Str.{Str}
use honest_agent.Py.Value.{Float}
use honest_agent.Py.Exec.{Action, pure, ◌>>◌}
use honest_agent.Core.Settings.{Settings}

-- 0.05.
abbrev pub sentry_traces_sample_rate : Float
sentry_traces_sample_rate = 0x3fa999999999999a

pub record Services (S : Type 0) : Type 0 where
  pub logfire_configure : (token : Str) → Action S (Unit {0})
  pub instrument_fastapi : Action S (Unit {0})
  pub sentry_init : (dsn : Str) → (traces_sample_rate : Float) → Action S (Unit {0})

module _ {S : Type 0} (services : Services S) where
  unfoldable pub configure_logfire : Option Str → Action S (Unit {0})
  configure_logfire none = pure tt
  configure_logfire (some token) = do services.logfire_configure token; services.instrument_fastapi

  unfoldable pub configure_sentry : Option Str → Action S (Unit {0})
  configure_sentry none = pure tt
  configure_sentry (some dsn) = services.sentry_init dsn sentry_traces_sample_rate

  unfoldable pub configure_observability : Settings → Action S (Unit {0})
  unfolding configure_logfire configure_sentry
  configure_observability settings = do
    configure_logfire settings.logfire_token
    configure_sentry settings.sentry_dsn
