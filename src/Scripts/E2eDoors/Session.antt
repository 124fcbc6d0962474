-- ===== src/Scripts/E2eDoors/Session.antt =====
-- The MCP door of backend/scripts/e2e_doors.py. The MCP client is a parameter, as is the running app
-- behind it.
use honest_agent.Prelude.{Bool, true, false, ◌&&◌, Option, none, some, List, [], ◌∷◌, ◌++◌}
use honest_agent.Py.Str.{Str, codes, member}
use honest_agent.Py.Dict.{Dict}
use honest_agent.Py.Value.{Value}
use honest_agent.Py.Exec.{Exception, Result, ok, raised, Action, pure, ◌>>=◌, ◌>>◌}
use honest_agent.Core.Db.{with_context}
use honest_agent.Scripts.E2eDoors.Checks.{Results, check, query_of}

-- The ends of the two `async with` of a session, and its calls. `call_tool` gives `none` for `None`.
pub record McpClient (S : Type 0) : Type 0 where
  pub connect : Str → Dict Str → Action S (Unit {0})
  pub disconnect : Bool → Action S (Unit {0})
  pub enter : Action S (Unit {0})
  pub leave : Bool → Action S (Unit {0})
  pub initialize : Action S (Unit {0})
  pub list_tools : Action S (List Str)
  pub call_tool : Str → Value → Action S (Option Value)

-- What `_mcp_call` returns.
pub record McpOutcome : Type 0 where
  pub tools : List Str
  pub result : Option Value

unfoldable pub is_some : Option Value → Bool
is_some none = false
is_some (some v) = true

-- The check of what a call that must be refused has done.
unfoldable pub check_refused :
    {S : Type 0} → (label : Str) → Result McpOutcome → Action (S × Results) (Unit {0})
unfolding check
check_refused label (ok outcome) = check false (label ++ codes " should be refused")
check_refused label (raised e) = check true (label ++ codes " refused")

-- The check of what a call that must succeed has done; `repr` is `repr(exc)`.
unfoldable pub check_called :
    {S : Type 0} → (Exception → Str) → Result McpOutcome → Action (S × Results) (Unit {0})
unfolding check is_some
check_called repr (ok outcome) =
    check (member (codes "answer") outcome.tools && is_some outcome.result)
      (codes "valid token + origin: listed and called the tool")
check_called repr (raised e) =
    check false (codes "valid token + origin should succeed but raised: " ++ repr e)

module _ {S : Type 0} (client : McpClient S) (repr : Exception → Str) (base_url : Str) where
  unfoldable pub mcp_call : (token origin : Str) → Action S McpOutcome
  unfolding with_context
  mcp_call token origin =
      with_context
        (client.connect (base_url ++ codes "/mcp")
          ((codes "Authorization", codes "Bearer " ++ token) ∷ (codes "Origin", origin) ∷ []))
        client.disconnect
        (with_context client.enter client.leave (do
          client.initialize
          tools ← client.list_tools
          result ← client.call_tool (codes "answer") (query_of (codes "what is MCP?"))
          pure (record { tools = tools; result = result })))

  -- The call that must succeed, under `try`, and its check.
  unfoldable pub expect_called : (token origin : Str) → Action (S × Results) (Unit {0})
  unfolding mcp_call check_called
  expect_called token origin (s, results) =
      let (r, t) = mcp_call token origin s in check_called repr r (t, results)

  -- A call that must be refused, under `try`, and its check.
  unfoldable pub expect_refused : (token origin label : Str) → Action (S × Results) (Unit {0})
  unfolding mcp_call check_refused
  expect_refused token origin label (s, results) =
      let (r, t) = mcp_call token origin s in check_refused label r (t, results)

  unfoldable pub mcp_door : (good_token : Str) → Action (S × Results) (Unit {0})
  unfolding expect_called expect_refused
  mcp_door good_token = do
    expect_called good_token (codes "https://claude.ai")
    expect_refused (codes "not-a-real-token") (codes "https://claude.ai") (codes "bad token")
    expect_refused good_token (codes "https://evil.com") (codes "disallowed origin")
