-- ===== src/Tenants/Gate.antt =====
-- backend/src/app/tenants/gate.py: the gate of the visitor door, and its middleware. `loads` is
-- `json.loads` on a body.
pub mod Checks
pub mod Authorize
pub mod Denials
pub mod Middleware
pub mod Declared
pub mod Limits
pub mod Inputs
pub mod Bodies
pub mod Tests
use Checks.{given_key, check_origin, sanitize_query, exceeds, declares_more}
use honest_agent.Prelude.{ℕ, not, Option, some, List, if◌then◌else◌, length}
use honest_agent.Py.Str.{Str, codes, starts_with}
use honest_agent.Py.Unicode.{Unicode}
use honest_agent.Py.Value.{ℤ, Value}
use honest_agent.Py.Exec.{
  app, Result, ok, raised, Action, pure, lift, require, some_or, attempt, ◌>>=◌, ◌>>◌,
}
use honest_agent.Core.Errors.{
  AppError, Response, app_error_response, authentication_error, payload_too_large_error,
  rate_limited_error,
}
use honest_agent.Tenants.Contexts.{VisitorRequestContext}
use honest_agent.Tenants.RateLimit.{RateLimiter}
use honest_agent.Tenants.WidgetKeys.{WidgetKeyStore}

abbrev pub Bytes : Type 0
Bytes = List ℕ

abbrev pub widget_path_prefix : Str
widget_path_prefix = codes "/v1/widget"

abbrev pub widget_key_header : Str
widget_key_header = codes "x-widget-key"

pub record VisitorGate (S : Type 0) : Type 0 where
  pub store : WidgetKeyStore S
  pub rate_limiter : RateLimiter S
  pub max_body_bytes : ℤ

-- The keyword arguments of `authorize`.
pub record Visit : Type 0 where
  pub widget_key : Option Str
  pub origin : Option Str
  pub referer : Option Str
  pub client_ip : Option Str
  pub body : Bytes

module _ {S : Type 0} (unicode : Unicode) (loads : Bytes → Result Value) where
  unfoldable pub authorize : VisitorGate S → Visit → Action S VisitorRequestContext
  unfolding given_key
  authorize gate visit = do
    lift (
        require (not (exceeds (length visit.body) gate.max_body_bytes)) payload_too_large_error
          (codes "request body exceeds the visitor limit"))
    key ←
        lift
          (some_or (given_key visit.widget_key) authentication_error (codes "missing widget key"))
    row ← gate.store.lookup key
    found ← lift (some_or row authentication_error (codes "unknown widget key"))
    lift (check_origin unicode visit.origin visit.referer found.allowed_hosts)
    allowed ← gate.rate_limiter.check key visit.client_ip
    lift (require allowed rate_limited_error (codes "rate limit exceeded"))
    query ← lift (sanitize_query loads visit.body)
    pure (record { tenant_id = found.tenant_id; query = query })

-- A request, as far as the program reads it. `read_body` receives the whole body, and
-- `visitor_context` is the attribute of `request.state`.
pub record Request (S : Type 0) : Type 0 where
  pub path : Str
  pub header : Str → Option Str
  pub client_host : Option Str
  pub read_body : Action S Bytes
  pub visitor_context : Option VisitorRequestContext

-- The answer to a request that declares too long a body.
unfoldable pub too_large : Str → Response
too_large instance_path =
    let error : AppError = record {
      kind = payload_too_large_error;
      detail = codes "declared body exceeds the visitor limit";
    } in
    app_error_response error instance_path

-- What `authorize` is given.
unfoldable pub visit_of : {S : Type 0} → Request S → Bytes → Visit
visit_of request body = record {
  widget_key = request.header widget_key_header;
  origin = request.header (codes "origin");
  referer = request.header (codes "referer");
  client_ip = request.client_host;
  body = body;
}

-- `except AppError` around `authorize`, and the call of the handler behind it.
unfoldable pub proceed :
    {S : Type 0}
    → Request S
    → (Request S → Action S Response)
    → Result VisitorRequestContext
    → Action S Response
proceed request call_next (ok context) =
    call_next (record request { visitor_context = some context })
proceed request call_next (raised (app error)) = pure (app_error_response error request.path)
proceed request call_next (raised e) = lift (raised e)

module _ {S : Type 0} (unicode : Unicode) (loads : Bytes → Result Value) where
  -- The part of the middleware behind the test of the declared length.
  unfoldable pub admit :
      VisitorGate S → Request S → (Request S → Action S Response) → Action S Response
  unfolding proceed visit_of
  admit gate request call_next = do
    body ← request.read_body
    outcome ← attempt (authorize unicode loads gate (visit_of request body))
    proceed request call_next outcome

  unfoldable pub visitor_gate_middleware :
      VisitorGate S → Request S → (Request S → Action S Response) → Action S Response
  unfolding starts_with too_large
  visitor_gate_middleware gate request call_next =
      if not (starts_with widget_path_prefix request.path) then call_next request else do
        oversized ←
            lift
              (declares_more unicode (request.header (codes "content-length")) gate.max_body_bytes)
        if oversized then pure (too_large request.path) else admit gate request call_next
