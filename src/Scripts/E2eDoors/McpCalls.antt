-- ===== src/Scripts/E2eDoors/McpCalls.antt =====
-- The calls of the MCP door where the app serves the modelled door: refused or answered.
use honest_agent.Prelude.{◌≤◌, ◌≡◌, refl, ap, true, false, [], ◌∷◌, arith}
use honest_agent.Py.Str.{Str, codes, str_eq, member}
use honest_agent.Py.Unicode.{Unicode}
use honest_agent.Py.Value.{Float}
use honest_agent.Py.Exec.{Exception, ok, raised, app}
use honest_agent.Py.Jwt.{Jwt}
use honest_agent.Core.Errors.{AppError, app_error_response, status_code}
use honest_agent.Agent.Schemas.{model_dump}
use honest_agent.Agent.Service.{answer}
use honest_agent.Tenants.Contexts.{ExternalCallerContext}
use honest_agent.Mcp.Server.Flow.{answer_tool-caller}
use honest_agent.Mcp.Server.Checks.{McpGuard, check_caller}
use honest_agent.Scripts.E2eDoors.Session.{McpClient, is_some, mcp_call}
use honest_agent.Scripts.E2eDoors.Refusals.{refused, called}
use honest_agent.Scripts.E2eDoors.McpServed.{
  Message, hello, list_tools, call_answer, mcp_headers, Shows, ServesMcp, door-passes, door-refuses,
}

module _ {S : Type 0} (unicode : Unicode) (jwt : Jwt Str) (guard : McpGuard) (decoded_at : Float)
    (client : McpClient S) (repr : Exception → Str) (base_url : Str)
    (serves : ServesMcp unicode jwt guard decoded_at client base_url) where
  -- A caller that the door's checks refuse.
  pub mcp_call-refused :
      (token origin : Str) (error : AppError) (s : S)
      → (shows : Shows unicode guard (serves.request (mcp_headers token origin)) token origin)
      → check_caller unicode jwt guard decoded_at shows.headers ≡ raised (app error)
      → 400 ≤ status_code error.kind
      → refused (mcp_call client repr base_url token origin s).0 ≡ true
  unfolding mcp_call app_error_response
  mcp_call-refused token origin error s shows checked bad =
      let headers = mcp_headers token origin in
      let scope = serves.request headers in
      let (t, opened, in_t) = serves.connected headers s in
      let (u, entered, in_u) = serves.entered headers t in_t in
      let (e, v, failed) =
        serves.refused headers _ u in_u
          (door-refuses unicode jwt guard decoded_at (serves.server hello) scope token origin error
            shows checked)
          bad in
      let (w, left) = serves.left false v in
      let (x, closed) = serves.disconnected false w in
      ground (arith, opened, entered, failed, left, closed)

  -- A caller that the door's checks pass.
  pub mcp_call-passed :
      (token origin : Str) (context : ExternalCallerContext) (s : S)
      → (shows : Shows unicode guard (serves.request (mcp_headers token origin)) token origin)
      → check_caller unicode jwt guard decoded_at shows.headers ≡ ok context
      → called (mcp_call client repr base_url token origin s).0 ≡ true
  unfolding mcp_call is_some
  mcp_call-passed token origin context s shows checked =
      let headers = mcp_headers token origin in
      let scope = serves.request headers in
      let passes = λ (message : Message).
        door-passes unicode jwt guard decoded_at (serves.server message) scope token origin context
          shows checked in
      let (t, opened, in_t) = serves.connected headers s in
      let (u, entered, in_u) = serves.entered headers t in_t in
      let (v, begun, in_v) = serves.initialized headers context u in_u (passes hello) in
      let (w, listed, in_w) = serves.listed headers context v in_v (passes list_tools) in
      let query = codes "what is MCP?" in
      let (x, answered) =
        serves.called headers context query (model_dump (answer context.tenant_id query)) w in_w
          (passes (call_answer query))
          (ap (λ r. r.0) ((answer_tool-caller query _).1 context refl)) in
      let (y, left) = serves.left true x in
      let (z, closed) = serves.disconnected true y in
      let found : member (codes "answer") (codes "answer" ∷ []) ≡ true =
        unfold member codes str_eq in refl in
      ground (arith, opened, entered, begun, listed, answered, left, closed, found)
