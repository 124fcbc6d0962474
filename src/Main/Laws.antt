-- ===== src/Main/Laws.antt =====
-- Which sites the MCP door takes calls from, by the settings.
use honest_agent.Prelude.{
  ◌≡◌, ◌↔◌, inl, inr, true, Option, none, some, List, [], ◌∷◌, arith, ap, sym, ◌∙◌, Bool-cases,
  Option-cases,
}
use honest_agent.Py.Str.{Str, str_eq, member}
use honest_agent.Py.Str.Laws.{str_eq_refl, eq_of_str_eq}
use honest_agent.Py.Unicode.{Unicode}
use honest_agent.Py.Exec.{ok, Result-cases}
use honest_agent.Core.Settings.{Settings}
use honest_agent.Core.Origins.{origin_host, host_allowed}
use honest_agent.Core.Origins.Listed.{host_allowed_iff}
use honest_agent.Mcp.Server.Checks.{McpGuard, hosts_of, mcp_allowed_origin_hosts}
use honest_agent.Main.{mcp_guard}

module _ (unicode : Unicode) where
  -- One of the origins has this host.
  abbrev pub HasHost : List Str → Str → Type 0
  HasHost origins host =
      (origin : Str) × (member origin origins ≡ true)
      × (origin_host unicode origin ≡ ok (some host))

  add_host : Option Str → List Str → List Str
  add_host none hosts = hosts
  add_host (some host) hosts = host ∷ hosts

  hosts_of-cons :
      (origin : Str) (origins hosts : List Str)
      → hosts_of unicode (origin ∷ origins) ≡ ok hosts
      → (first : Option Str) × ((rest : List Str) × (origin_host unicode origin ≡ ok first)
          × (hosts_of unicode origins ≡ ok rest)
          × (hosts ≡ add_host first rest))
  unfolding hosts_of add_host
  hosts_of-cons origin origins hosts h = elim (Result-cases (origin_host unicode origin)) [
    | inr (e, failed) ↦ absurd (ground arith)
    | inl (first, read) ↦ elim (Result-cases (hosts_of unicode origins)) [
      | inr (e, failed) ↦ absurd (ground arith)
      | inl (rest, others) ↦ elim (Option-cases first) [
        | inl absent ↦ (first, (rest, read, others, ground arith))
        | inr (host, given) ↦ (first, (rest, read, others, ground arith))
      ]
    ]
  ]

  HasHost-hosts_of :
      (origins hosts : List Str) (host : Str)
      → hosts_of unicode origins ≡ ok hosts
      → member host hosts ≡ true
      → HasHost origins host
  unfolding hosts_of member add_host
  HasHost-hosts_of [] hosts host h m = absurd (ground arith)
  HasHost-hosts_of (origin ∷ origins) hosts host h m =
      let (first, (rest, read, others, made)) = hosts_of-cons origin origins hosts h in
      let self = str_eq_refl origin in
      let later : member host rest ≡ true → HasHost (origin ∷ origins) host = λ k.
        let (other, there, its) = HasHost-hosts_of origins rest host others k in
        (other, ground arith, its) in
      elim (Option-cases first) [
        | inl absent ↦ later (ground arith)
        | inr (given, found) ↦ elim (Bool-cases (str_eq host given)) [
          | inl same ↦ let e = eq_of_str_eq host given same in (origin, ground arith, ground arith)
          | inr different ↦ later (ground arith)
        ]
      ]

  member-hosts_of :
      (origins hosts : List Str) (host origin : Str)
      → hosts_of unicode origins ≡ ok hosts
      → member origin origins ≡ true
      → origin_host unicode origin ≡ ok (some host)
      → member host hosts ≡ true
  unfolding hosts_of member add_host
  member-hosts_of [] hosts host origin h m o = absurd (ground arith)
  member-hosts_of (other ∷ origins) hosts host origin h m o =
      let (first, (rest, read, others, made)) = hosts_of-cons other origins hosts h in
      let self = str_eq_refl host in
      elim (Bool-cases (str_eq origin other)) [
        | inl same ↦
            let e = eq_of_str_eq origin other same in
            let its : ok first ≡ ok (some host) = sym read ∙ ap (origin_host unicode) (sym e) ∙ o in
            ground arith
        | inr different ↦
            let known = member-hosts_of origins rest host origin others (ground arith) o in
            elim (Option-cases first) [
              | inl absent ↦ ground arith
              | inr (given, found) ↦ ground arith
            ]
      ]

  -- Where the door can be built from the settings: a site's Origin is allowed exactly when the
  -- settings list an origin with the same host.
  mcp_guard-origins :
      (settings : Settings) (guard : McpGuard) (origin : Str)
      → mcp_guard unicode settings ≡ ok guard
      → (host_allowed unicode origin guard.allowed_origin_hosts ≡ ok true) ↔ (
          (host : Str) × (origin_host unicode origin ≡ ok (some host))
          × HasHost settings.mcp_allowed_origins host)
  unfolding mcp_guard mcp_allowed_origin_hosts
  mcp_guard-origins settings guard origin h =
      elim (Result-cases (hosts_of unicode settings.mcp_allowed_origins)) [
        | inr (e, failed) ↦ absurd (ground arith)
        | inl (hosts, made) ↦
            let built : guard.allowed_origin_hosts ≡ hosts = ground arith in
            let both = host_allowed_iff unicode origin guard.allowed_origin_hosts in
            (
              λ allowed.
                  let (host, its, listed) = both.0 allowed in
                  (
                    host,
                    its,
                    HasHost-hosts_of settings.mcp_allowed_origins hosts host made (ground arith),
                  ),
              λ (host, its, (other, there, same)).
                  let listed =
                    member-hosts_of settings.mcp_allowed_origins hosts host other made there same in
                  both.1 (host, its, ground arith),
            )
      ]
