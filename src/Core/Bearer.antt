-- ===== src/Core/Bearer.antt =====
-- backend/src/app/core/bearer.py: the token of an `Authorization: Bearer` header.
pub mod Laws
pub mod Tests
use honest_agent.Prelude.{not, ◌||◌, Option, none, some, if◌then◌else◌}
use honest_agent.Py.Str.{Str, codes, str_eq, is_empty, strip, partition}
use honest_agent.Py.Unicode.{Unicode}
use honest_agent.Core.Errors.{authentication_error}
use honest_agent.Py.Exec.{Result, ok, fail}

module _ (unicode : Unicode) where
  unfoldable pub parse_bearer : Option Str → Result Str
  unfolding partition strip is_empty str_eq
  parse_bearer none = fail authentication_error (codes "missing authorization header")
  parse_bearer (some header) =
      let p = partition b' ' header in
      let token = strip p.after in
      if not (str_eq (unicode.lower p.before) (codes "bearer")) || is_empty token
      then fail authentication_error (codes "malformed authorization header")
      else ok token
