-- ===== src/Py/Http.antt =====
-- What the program reads of an answer that `httpx` has received: its status, what
-- `raise_for_status()` does, and what `json()` returns or raises.
use honest_agent.Prelude.{ℕ}
use honest_agent.Py.Value.{Value}
use honest_agent.Py.Exec.{Result}

pub record HttpResponse : Type 0 where
  pub status_code : ℕ
  pub raise_for_status : Result (Unit {0})
  pub json : Result Value
