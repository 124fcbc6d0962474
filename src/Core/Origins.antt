-- ===== src/Core/Origins.antt =====
-- backend/src/app/core/origins.py: exact-host matching of Origin, Referer and Host headers.
-- `urlsplit` raises ValueError for some values, which the functions pass on.
pub mod Run
pub mod Tests
pub mod Laws
pub mod Listed
use honest_agent.Prelude.{Bool, false, ◌||◌, Option, none, some, List, [], ◌∷◌, ◌++◌, if◌then◌else◌}
use honest_agent.Py.Str.{Str, codes, str_eq, member, is_empty, strip, rstrip}
use honest_agent.Py.Unicode.{Unicode}
use honest_agent.Py.Url.{urlsplit, hostname}
use honest_agent.Py.Exec.{Result, ok}
use honest_agent.Py.Exec.Checked.{◌>>=◌, ◌>>◌}

-- `if not parts.hostname: return None`, else the host with no dots at its end.
trimmed_host : Option Str → Option Str
trimmed_host none = none
trimmed_host (some []) = none
trimmed_host (some (c ∷ s)) = some (rstrip b'.' (c ∷ s))

-- `host is not None and host in allowed_hosts`.
is_listed : List Str → Option Str → Bool
is_listed allowed_hosts none = false
is_listed allowed_hosts (some host) = member host allowed_hosts

module _ (unicode : Unicode) where
  -- `not candidate or candidate.lower() == "null"`.
  is_void : Str → Bool
  is_void candidate = is_empty candidate || str_eq (unicode.lower candidate) (codes "null")

  unfoldable pub origin_host : Str → Result (Option Str)
  unfolding is_void trimmed_host
  origin_host value =
      let candidate = strip value in
      if is_void candidate then ok none else do
        parts ← urlsplit unicode candidate
        ok (if is_empty parts.scheme then none else trimmed_host (hostname unicode parts))

  unfoldable pub host_allowed : Str → List Str → Result Bool
  unfolding is_listed
  host_allowed value allowed_hosts = do host ← origin_host value; ok (is_listed allowed_hosts host)

  unfoldable pub authority_host : Str → Result (Option Str)
  unfolding is_void trimmed_host
  authority_host value =
      let candidate = strip value in
      if is_void candidate then ok none else do
        parts ← urlsplit unicode (codes "//" ++ candidate)
        ok (trimmed_host (hostname unicode parts))

  unfoldable pub authority_allowed : Str → List Str → Result Bool
  unfolding is_listed
  authority_allowed value allowed_hosts = do
    host ← authority_host value
    ok (is_listed allowed_hosts host)
