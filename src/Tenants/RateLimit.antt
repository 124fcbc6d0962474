-- ===== src/Tenants/RateLimit.antt =====
-- backend/src/app/tenants/rate_limit.py: the seam of the rate limiter, and the limiter in use.
use honest_agent.Prelude.{Bool, true, Option}
use honest_agent.Py.Str.{Str}
use honest_agent.Py.Exec.{Action, pure}

pub record RateLimiter (S : Type 0) : Type 0 where
  pub check : Str → Option Str → Action S Bool

unfoldable pub allow_all_rate_limiter : {S : Type 0} → RateLimiter S
allow_all_rate_limiter = record { check = λ widget_key client_ip. pure true }
