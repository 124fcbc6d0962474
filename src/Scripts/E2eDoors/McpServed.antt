-- ===== src/Scripts/E2eDoors/McpServed.antt =====
-- The MCP client of the checks, where the running app serves the modelled MCP door.
use honest_agent.Prelude.{Bool, ◌≤◌, ◌≡◌, true, false, Option, none, some, [], ◌∷◌, ◌++◌, arith}
use honest_agent.Py.Str.{Str, codes, strip, is_empty, is_ascii, str_eq}
use honest_agent.Py.Dict.{Dict, lookup}
use honest_agent.Py.Unicode.{Unicode, UnicodeLaws}
use honest_agent.Py.Value.{Float, Value}
use honest_agent.Py.Exec.{Exception, app, ok, raised, fail, Action}
use honest_agent.Py.Jwt.{Jwt}
use honest_agent.Core.Bearer.Laws.{parse_bearer-Bearer}
use honest_agent.Core.Errors.{Response, AppError, app_error_response, tenant_access_error}
use honest_agent.Core.Origins.{host_allowed, authority_allowed}
use honest_agent.Mcp.Tokens.{verify}
use honest_agent.Mcp.Server.{
  World, Scope, instance_of, send_out, with_caller, forward, mcp_call, answer_tool,
}
use honest_agent.Mcp.Server.Checks.{
  McpGuard, decode_headers, check_host, check_origin, check_caller,
}
use honest_agent.Tenants.Contexts.{ExternalCallerContext}
use honest_agent.Scripts.E2eDoors.Checks.{query_of}
use honest_agent.Scripts.E2eDoors.Session.{McpClient}

-- What a session asks of the server.
pub data Message : Type 0 where
  hello list_tools : Message
  call_answer : (query : Str) → Message

-- The response to one request, and the app's world where the request comes in.
abbrev pub Sent : Type 0
Sent = Option Response

abbrev pub send : Response → Action Sent (Unit {0})
send response sent = (ok tt, some response)

abbrev pub fresh : World Sent
fresh = record { external_caller = none; outer = none }

abbrev pub mcp_headers : (token origin : Str) → Dict Str
mcp_headers token origin =
    (codes "Authorization", codes "Bearer " ++ token) ∷ (codes "Origin", origin) ∷ []

-- What a request of a session shows: HTTP, a Host that is served, the origin and the token.
pub record Shows (unicode : Unicode) (guard : McpGuard) (scope : Scope) (token origin : Str)
    : Type 0 where
  pub http : str_eq scope.type (codes "http") ≡ true
  pub headers : Dict Str
  pub decoded : decode_headers unicode scope.headers ≡ ok headers
  pub host : Str
  pub has_host : lookup (codes "host") headers ≡ some host
  pub host_served : authority_allowed unicode host guard.allowed_request_hosts ≡ ok true
  pub has_origin : lookup (codes "origin") headers ≡ some origin
  pub authorization : lookup (codes "authorization") headers ≡ some (codes "Bearer " ++ token)

module _ (unicode : Unicode) (jwt : Jwt Str) (guard : McpGuard) (decoded_at : Float) where
  pub check_caller-listed :
      (scope : Scope) (token origin : Str)
      → UnicodeLaws unicode
      → strip token ≡ token
      → is_empty token ≡ false
      → host_allowed unicode origin guard.allowed_origin_hosts ≡ ok true
      → (shows : Shows unicode guard scope token origin)
      → check_caller unicode jwt guard decoded_at shows.headers
        ≡ verify jwt guard.verifier decoded_at token
  unfolding check_caller check_host check_origin
  check_caller-listed scope token origin laws unpadded given listed shows =
      let parsed = parse_bearer-Bearer unicode token laws unpadded given in
      ground (arith, shows.has_host, shows.host_served, shows.has_origin, shows.authorization)

  pub check_caller-unlisted :
      (scope : Scope) (token origin : Str)
      → host_allowed unicode origin guard.allowed_origin_hosts ≡ ok false
      → (shows : Shows unicode guard scope token origin)
      → check_caller unicode jwt guard decoded_at shows.headers
        ≡ fail tenant_access_error (codes "origin not allowed")
  unfolding check_caller check_host check_origin
  check_caller-unlisted scope token origin unlisted shows =
      ground (arith, shows.has_host, shows.host_served, shows.has_origin)

  module _ (inner : Scope → Action (World Sent) (Unit {0})) where
    pub door-passes :
        (scope : Scope) (token origin : Str) (context : ExternalCallerContext)
        → (shows : Shows unicode guard scope token origin)
        → check_caller unicode jwt guard decoded_at shows.headers ≡ ok context
        → mcp_call send unicode jwt guard decoded_at inner scope fresh
          ≡ with_caller context (inner scope) fresh
    unfolding mcp_call forward
    door-passes scope token origin context shows checked = ground (arith, shows.http, shows.decoded)

    pub door-refuses :
        (scope : Scope) (token origin : Str) (error : AppError)
        → (shows : Shows unicode guard scope token origin)
        → check_caller unicode jwt guard decoded_at shows.headers ≡ raised (app error)
        → mcp_call send unicode jwt guard decoded_at inner scope fresh
          ≡ (ok tt, record fresh { outer = some (app_error_response error (instance_of scope)) })
    unfolding mcp_call forward send_out
    door-refuses scope token origin error shows checked = ground (arith, shows.http, shows.decoded)

-- The running app behind the client: every message of a session is one request to the modelled
-- door, with the headers that the session was opened with. A response of status 400 or more is
-- raised where the session starts. A request that the door passes reaches the library's server,
-- which lists the one tool, and calls it in the world that the door has made.
pub record ServesMcp {S : Type 0} (unicode : Unicode) (jwt : Jwt Str) (guard : McpGuard)
    (decoded_at : Float) (client : McpClient S) (base_url : Str) : Type 1 where
  pub server : Message → Scope → Action (World Sent) (Unit {0})
  pub request : Dict Str → Scope
  pub shows :
      (token origin : Str)
      → is_ascii token ≡ true
      → is_ascii origin ≡ true
      → Shows unicode guard (request (mcp_headers token origin)) token origin
  -- A session that was opened with these headers.
  pub Session : Dict Str → S → Type 0
  pub connected :
      (headers : Dict Str) (s : S)
      → (t : S) × (client.connect (base_url ++ codes "/mcp") headers s ≡ (ok tt, t))
        × Session headers t
  pub entered :
      (headers : Dict Str) (s : S)
      → Session headers s
      → (t : S) × (client.enter s ≡ (ok tt, t)) × Session headers t
  pub left : (fine : Bool) (s : S) → (t : S) × (client.leave fine s ≡ (ok tt, t))
  pub disconnected : (fine : Bool) (s : S) → (t : S) × (client.disconnect fine s ≡ (ok tt, t))
  pub refused :
      (headers : Dict Str) (response : Response) (s : S)
      → Session headers s
      → mcp_call send unicode jwt guard decoded_at (server hello) (request headers) fresh
        ≡ (ok tt, record fresh { outer = some response })
      → 400 ≤ response.status_code
      → (e : Exception) × (t : S) × (client.initialize s ≡ (raised e, t))
  pub initialized :
      (headers : Dict Str) (context : ExternalCallerContext) (s : S)
      → Session headers s
      → mcp_call send unicode jwt guard decoded_at (server hello) (request headers) fresh
        ≡ with_caller context (server hello (request headers)) fresh
      → (t : S) × (client.initialize s ≡ (ok tt, t)) × Session headers t
  pub listed :
      (headers : Dict Str) (context : ExternalCallerContext) (s : S)
      → Session headers s
      → mcp_call send unicode jwt guard decoded_at (server list_tools) (request headers) fresh
        ≡ with_caller context (server list_tools (request headers)) fresh
      → (t : S) × (client.list_tools s ≡ (ok (codes "answer" ∷ []), t)) × Session headers t
  pub called :
      (headers : Dict Str) (context : ExternalCallerContext) (query : Str) (v : Value) (s : S)
      → Session headers s
      → mcp_call send unicode jwt guard decoded_at
          (server (call_answer query))
          (request headers)
          fresh
        ≡ with_caller context (server (call_answer query) (request headers)) fresh
      → (answer_tool query (record fresh { external_caller = some context })).0 ≡ ok v
      → (t : S) × (client.call_tool (codes "answer") (query_of query) s ≡ (ok (some v), t))
