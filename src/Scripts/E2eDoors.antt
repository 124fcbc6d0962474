-- ===== src/Scripts/E2eDoors.antt =====
-- backend/scripts/e2e_doors.py: the checks of the three doors over HTTP.
pub mod Checks
pub mod Web
pub mod Session
pub mod Counts
pub mod Refusals
pub mod Laws
pub mod Served
pub mod Outcomes
pub mod Passes
pub mod McpServed
pub mod McpCalls
pub mod McpPasses
pub mod McpTests
pub mod OwnerServed
pub mod OwnerPasses
pub mod OwnerTests
pub mod AppTests
pub mod Tests
use Checks.{Results, exit_code}
use Web.{HttpClient, owner_door, visitor_door}
use Session.{McpClient, mcp_door}
use honest_agent.Prelude.{ℕ}
use honest_agent.Py.Str.{Str, codes}
use honest_agent.Py.Value.{pos, Float, Value}
use honest_agent.Py.Exec.{Exception, ok, Action, ◌>>=◌, ◌>>◌}
use honest_agent.Py.Jwt.{Jwt, Floats}
use honest_agent.Core.Settings.{Settings}
use honest_agent.Mcp.Tokens.{mint_mcp_token, default_ttl_seconds}

-- `minted_at` is the time that the clock shows when the token is made.
unfoldable pub good_token : Jwt Str → Floats → Settings → Float → Str
unfolding mint_mcp_token
good_token jwt floats settings minted_at =
    mint_mcp_token jwt floats minted_at settings.mcp_signing_secret settings.mcp_token_issuer
      settings.mcp_token_audience (codes "tenant-a") (pos default_ttl_seconds)

module _ {S : Type 0} (http : HttpClient S) (mcp : McpClient S) (jwt : Jwt Str) (floats : Floats)
    (format : Value → Str) (repr : Exception → Str) (base_url : Str) where
  unfoldable pub doors : Settings → Float → Action (S × Results) (Unit {0})
  unfolding owner_door visitor_door mcp_door good_token
  doors settings minted_at = do
    owner_door http format base_url settings
    visitor_door http format base_url
    mcp_door mcp repr base_url (good_token jwt floats settings minted_at)

  unfoldable pub main : Settings → Float → Action (S × Results) ℕ
  unfolding doors exit_code
  main settings minted_at = do
    doors settings minted_at
    (λ (s, results). (ok (exit_code results), (s, results)))
