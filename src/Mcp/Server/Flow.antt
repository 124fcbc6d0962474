-- ===== src/Mcp/Server/Flow.antt =====
-- How the MCP door runs the app behind it, what it answers itself and what it leaves behind.
use honest_agent.Prelude.{◌≡◌, refl, inl, inr, true, false, none, some, arith, Option-cases}
use honest_agent.Py.Str.{Str, codes, str_eq}
use honest_agent.Py.Dict.{Dict, lookup}
use honest_agent.Py.Unicode.{Unicode}
use honest_agent.Py.Value.{Float}
use honest_agent.Py.Exec.{Exception, app, Result, ok, raised, fail, Action, Result-cases}
use honest_agent.Py.Jwt.{Jwt}
use honest_agent.Core.Errors.{
  Response, app_error_response, authentication_error, tenant_access_error,
}
use honest_agent.Core.Origins.{authority_allowed}
use honest_agent.Agent.Schemas.{model_dump}
use honest_agent.Agent.Service.{answer, answer_for_external_caller}
use honest_agent.Tenants.Contexts.{ExternalCallerContext}
use honest_agent.Mcp.Server.Checks.{McpGuard, decode_headers, check_host, check_caller}
use honest_agent.Mcp.Server.Laws.{Admissible, check_caller_iff}
use honest_agent.Mcp.Server.{World, Scope, instance_of, send_out, forward, mcp_call, answer_tool}

-- Without a verified caller the tool answers nothing; with one it answers for the caller's tenant.
pub answer_tool-caller :
    {S : Type 0} (query : Str) (world : World S)
    → ((world.external_caller ≡ none)
        → answer_tool query world
          ≡ (fail authentication_error (codes "mcp caller was not verified"), world))
      × ((context : ExternalCallerContext)
          → world.external_caller ≡ some context
          → answer_tool query world ≡ (ok (model_dump (answer context.tenant_id query)), world))
unfolding answer_tool answer_for_external_caller
answer_tool-caller query world = (λ h. ground arith, λ context h. ground arith)

module _ {S : Type 0} (send : Response → Action S (Unit {0})) (unicode : Unicode) (jwt : Jwt Str)
    (guard : McpGuard) (decoded_at : Float) where
  -- The two apps do alike in every world whose caller the door has verified.
  abbrev pub AgreeOnVerified : Scope → (inner inner' : Scope → Action (World S) (Unit {0})) → Type 0
  AgreeOnVerified scope inner inner' =
      (headers : Dict Str) (context : ExternalCallerContext) (world : World S)
      → decode_headers unicode scope.headers ≡ ok headers
      → Admissible unicode jwt guard decoded_at headers context
      → world.external_caller ≡ some context
      → inner scope world ≡ inner' scope world

  forward_agree :
      (path : Str) (inner inner' : Action (World S) (Unit {0})) (r : Result ExternalCallerContext)
      (world : World S)
      → ((context : ExternalCallerContext)
          → r ≡ ok context
          → inner (record world { external_caller = some context })
            ≡ inner' (record world { external_caller = some context }))
      → forward send path inner r world ≡ forward send path inner' r world
  unfolding forward
  forward_agree path inner inner' (ok context) world h = rw (h context refl) refl
  forward_agree path inner inner' (raised (app e)) world h = refl
  forward_agree path inner inner' (raised _) world h = refl

  -- Over HTTP the app behind the door sees only worlds with a caller whose headers have passed the
  -- checks: two apps that do alike on the scope in each such world give one result.
  pub mcp_call-fail_closed :
      (scope : Scope) (inner inner' : Scope → Action (World S) (Unit {0})) (world : World S)
      → str_eq scope.type (codes "http") ≡ true
      → AgreeOnVerified scope inner inner'
      → mcp_call send unicode jwt guard decoded_at inner scope world
        ≡ mcp_call send unicode jwt guard decoded_at inner' scope world
  unfolding mcp_call
  mcp_call-fail_closed scope inner inner' world http agree =
      elim (Result-cases (decode_headers unicode scope.headers)) [
        | inr (e, failed) ↦ ground arith
        | inl (headers, decoded) ↦
            let r = check_caller unicode jwt guard decoded_at headers in
            ground (
              arith,
              forward_agree (instance_of scope) (inner scope) (inner' scope) r world (λ context e.
                  agree headers context (record world { external_caller = some context }) decoded
                    ((check_caller_iff unicode jwt guard decoded_at headers context).0 e) refl),
            )
      ]

  forward-caller :
      (path : Str) (inner : Action (World S) (Unit {0})) (r : Result ExternalCallerContext)
      (world : World S)
      → (forward send path inner r world).1.external_caller ≡ world.external_caller
  unfolding forward
  forward-caller path inner (ok context) world = refl
  forward-caller path inner (raised (app e)) world = refl
  forward-caller path inner (raised _) world = refl

  -- After an HTTP call the context variable is what it was before, whether the app behind the door
  -- returned or raised and whatever it set.
  pub mcp_call-restores :
      (scope : Scope) (inner : Scope → Action (World S) (Unit {0})) (world : World S)
      → str_eq scope.type (codes "http") ≡ true
      → (mcp_call send unicode jwt guard decoded_at inner scope world).1.external_caller
        ≡ world.external_caller
  unfolding mcp_call
  mcp_call-restores scope inner world http =
      elim (Result-cases (decode_headers unicode scope.headers)) [
        | inr (e, failed) ↦ ground arith
        | inl (headers, decoded) ↦ ground (
          arith,
          forward-caller (instance_of scope) (inner scope)
              (check_caller unicode jwt guard decoded_at headers) world,
        )
      ]

  -- Over HTTP, with headers that decode: where there is no Host, or the Host given is found not to
  -- be served, the answer is the 403 for it, and neither the token nor the app is looked at.
  mcp_call-host :
      (scope : Scope) (inner : Scope → Action (World S) (Unit {0})) (headers : Dict Str)
      (world : World S)
      → str_eq scope.type (codes "http") ≡ true
      → decode_headers unicode scope.headers ≡ ok headers
      → ((host : Str)
          → lookup (codes "host") headers ≡ some host
          → authority_allowed unicode host guard.allowed_request_hosts ≡ ok false)
      → mcp_call send unicode jwt guard decoded_at inner scope world
        ≡ send_out send
            (app_error_response
              (record { kind = tenant_access_error; detail = codes "host not allowed" })
              (instance_of scope))
            world
  unfolding mcp_call check_caller check_host forward
  mcp_call-host scope inner headers world http decoded unserved =
      elim (Option-cases (lookup (codes "host") headers)) [
        | inl missing ↦ ground arith
        | inr (host, given) ↦ ground (arith, unserved host given)
      ]

  -- Over HTTP, what the decoding of the headers raises goes out to the server: nothing is sent, the
  -- app is not called and the world stays as it was.
  mcp_call-undecodable :
      (scope : Scope) (inner : Scope → Action (World S) (Unit {0})) (e : Exception)
      (world : World S)
      → str_eq scope.type (codes "http") ≡ true
      → decode_headers unicode scope.headers ≡ raised e
      → mcp_call send unicode jwt guard decoded_at inner scope world ≡ (raised e, world)
  unfolding mcp_call
  mcp_call-undecodable scope inner e world http failed = ground arith
