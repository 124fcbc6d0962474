-- ===== src/Mcp/Server/Laws.antt =====
-- Who reaches the tool behind the MCP door, and what the door leaves behind.
use honest_agent.Prelude.{◌≡◌, ◌↔◌, inl, inr, true, some, arith, Option-cases}
use honest_agent.Py.Str.{Str, codes}
use honest_agent.Py.Dict.{Dict, lookup}
use honest_agent.Py.Unicode.{Unicode}
use honest_agent.Py.Value.{Float}
use honest_agent.Py.Exec.{ok, Result-cases}
use honest_agent.Py.Jwt.{Jwt}
use honest_agent.Core.Bearer.{parse_bearer}
use honest_agent.Core.Origins.{host_allowed, authority_allowed}
use honest_agent.Tenants.Contexts.{ExternalCallerContext}
use honest_agent.Mcp.Tokens.{verify}
use honest_agent.Mcp.Server.Checks.{McpGuard, check_host, check_origin, check_caller}

module _ (unicode : Unicode) (jwt : Jwt Str) (guard : McpGuard) (decoded_at : Float) where
  -- What the headers of a caller show: a Host that is served, an Origin that is listed if there is
  -- one, and a bearer token that the verifier takes.
  pub record Admissible (headers : Dict Str) (context : ExternalCallerContext) : Type 0 where
    pub host : Str
    pub token : Str
    pub has_host : lookup (codes "host") headers ≡ some host
    pub host_served : authority_allowed unicode host guard.allowed_request_hosts ≡ ok true
    pub origin_listed :
        (origin : Str)
        → lookup (codes "origin") headers ≡ some origin
        → host_allowed unicode origin guard.allowed_origin_hosts ≡ ok true
    pub bearer : parse_bearer unicode (lookup (codes "authorization") headers) ≡ ok token
    pub verified : verify jwt guard.verifier decoded_at token ≡ ok context

  check_sound :
      (headers : Dict Str) (context : ExternalCallerContext)
      → check_caller unicode jwt guard decoded_at headers ≡ ok context
      → Admissible headers context
  unfolding check_caller check_host check_origin
  check_sound headers context h = elim (Option-cases (lookup (codes "host") headers)) [
    | inl missing ↦ absurd (ground arith)
    | inr (host, has_host) ↦
        elim (Result-cases (parse_bearer unicode (lookup (codes "authorization") headers))) [
          | inr (e, failed) ↦ absurd (ground arith)
          | inl (token, bearer) ↦ record {
            host = host;
            token = token;
            has_host = has_host;
            host_served = ground arith;
            origin_listed = λ origin given. ground arith;
            bearer = bearer;
            verified = ground arith;
          }
        ]
  ]

  check_complete :
      (headers : Dict Str) (context : ExternalCallerContext)
      → Admissible headers context
      → check_caller unicode jwt guard decoded_at headers ≡ ok context
  unfolding check_caller check_host check_origin
  check_complete headers context c = elim (Option-cases (lookup (codes "origin") headers)) [
    | inl missing ↦ ground arith
    | inr (origin, given) ↦ ground (arith, c.origin_listed origin given)
  ]

  -- The headers pass the checks, for a context, exactly when the Host is there and is served, the
  -- Origin, where there is one, is allowed, and the Authorization header carries a token that the
  -- verifier accepts for this context.
  pub check_caller_iff :
      (headers : Dict Str) (context : ExternalCallerContext)
      → (check_caller unicode jwt guard decoded_at headers ≡ ok context)
        ↔ Admissible headers context
  check_caller_iff headers context = (check_sound headers context, check_complete headers context)
