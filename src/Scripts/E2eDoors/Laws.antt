-- ===== src/Scripts/E2eDoors/Laws.antt =====
-- The whole run of the checks.
use honest_agent.Prelude.{ℕ, ◌≡◌, [], arith, length, if◌then◌else◌}
use honest_agent.Py.Str.{Str}
use honest_agent.Py.Value.{Float, Value}
use honest_agent.Py.Exec.{Exception, ok, ◌>>◌, bind-ok}
use honest_agent.Py.Jwt.{Jwt, Floats}
use honest_agent.Core.Settings.{Settings}
use honest_agent.Scripts.E2eDoors.Checks.{Results}
use honest_agent.Scripts.E2eDoors.Web.{HttpClient, owner_door, visitor_door}
use honest_agent.Scripts.E2eDoors.Session.{McpClient, mcp_door}
use honest_agent.Scripts.E2eDoors.{good_token, doors, main}
use honest_agent.Scripts.E2eDoors.Counts.{
  passed_all, exit_code-passed, Adds, Adds-bind, Adds-owner_door, Adds-visitor_door,
}
use honest_agent.Scripts.E2eDoors.Refusals.{mcp_door_total}

module _ {S : Type 0} (client : McpClient S) (repr : Exception → Str) (base_url : Str) where
  Adds-mcp_door : (good : Str) → Adds 3 (mcp_door client repr base_url good)
  Adds-mcp_door good = record {
    adds = λ s t results results' a h.
        let (gave, done, more, passed) = mcp_door_total client repr base_url good s results in
        ground arith;
  }

module _ {S : Type 0} (http : HttpClient S) (mcp : McpClient S) (jwt : Jwt Str) (floats : Floats)
    (format : Value → Str) (repr : Exception → Str) (base_url : Str) where
  Adds-doors :
      (settings : Settings) (minted_at : Float)
      → Adds 9 (doors http mcp jwt floats format repr base_url settings minted_at)
  unfolding doors
  Adds-doors settings minted_at =
      let good = good_token jwt floats settings minted_at in
      Adds-bind 3 6 (owner_door http format base_url settings)
        (λ _. visitor_door http format base_url >> mcp_door mcp repr base_url good)
        (Adds-owner_door http format base_url settings)
        (λ _.
          Adds-bind 3 3 (visitor_door http format base_url) (λ _. mcp_door mcp repr base_url good)
            (Adds-visitor_door http format base_url) (λ _. Adds-mcp_door mcp repr base_url good))

  -- Where the run returns, having started with no results, nine checks have been made, and the
  -- exit code is 0 exactly where every one of them has passed, else 1.
  main-exit_code :
      (settings : Settings) (minted_at : Float) (s t : S) (results : Results) (code : ℕ)
      → main http mcp jwt floats format repr base_url settings minted_at (s, [])
        ≡ (ok code, (t, results))
      → (length results ≡ 9) × (code ≡ (if passed_all results then 0 else 1))
  unfolding main
  main-exit_code settings minted_at s t results code h =
      let (u, ((v, made), ran, ended)) =
        bind-ok (doors http mcp jwt floats format repr base_url settings minted_at) _ (s, [])
          (t, results) code h in
      let nine = (Adds-doors settings minted_at).adds s v [] made u ran in
      (ground arith, ground (arith, exit_code-passed made))
