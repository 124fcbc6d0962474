-- ===== src/Core/Origins/Listed.antt =====
-- Which values a list of hosts allows.
use honest_agent.Prelude.{◌≡◌, ◌↔◌, inl, inr, true, some, List, arith, Option-cases}
use honest_agent.Py.Str.{Str, member}
use honest_agent.Py.Unicode.{Unicode}
use honest_agent.Py.Exec.{ok, Result-cases}
use honest_agent.Core.Origins.{origin_host, host_allowed, is_listed}

module _ (unicode : Unicode) (origin : Str) (hosts : List Str) where
  listed_host :
      host_allowed unicode origin hosts ≡ ok true
      → (host : Str) × (origin_host unicode origin ≡ ok (some host)) × (member host hosts ≡ true)
  unfolding host_allowed is_listed
  listed_host h = elim (Result-cases (origin_host unicode origin)) [
    | inr (e, failed) ↦ absurd (ground arith)
    | inl (found, read) ↦ elim (Option-cases found) [
      | inl absent ↦ absurd (ground arith)
      | inr (host, given) ↦ (host, ground arith, ground arith)
    ]
  ]

  -- A value is allowed exactly when it has a host and the list holds this host.
  pub host_allowed_iff :
      (host_allowed unicode origin hosts ≡ ok true)
      ↔ ((host : Str) × (origin_host unicode origin ≡ ok (some host)) × (member host hosts ≡ true))
  unfolding host_allowed is_listed
  host_allowed_iff = (listed_host, λ (host, its, listed). ground arith)
