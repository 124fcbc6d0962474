-- ===== src/Tenants/Router.antt =====
-- backend/src/app/tenants/router.py and schemas.py: the owner's route `/tenants/me`, behind the
-- owner door.
pub mod Laws
use honest_agent.Prelude.{Option}
use honest_agent.Py.Str.{Str}
use honest_agent.Py.Unicode.{Unicode}
use honest_agent.Py.Value.{Float}
use honest_agent.Py.Exec.{Action, pure, lift, attempt, ◌>>=◌}
use honest_agent.Py.Jwt.{Jwt, Floats}
use honest_agent.Core.Errors.{Response}
use honest_agent.Core.Handlers.{handled}
use honest_agent.Tenants.Contexts.{OwnerRequestContext}
use honest_agent.Tenants.OwnerAuth.{get_owner_context}
use honest_agent.Tenants.OwnerAuth.Keys.{Cache, KeySource}
use honest_agent.Tenants.OwnerAuth.Claims.{OwnerTokenVerifier}

pub record OwnerIdentity : Type 0 where
  pub tenant_id : Str
  pub user_id : Str

unfoldable pub read_owner_identity : OwnerRequestContext → OwnerIdentity
read_owner_identity owner = record { tenant_id = owner.tenant_id; user_id = owner.user_id }

-- The route with its dependency: the header is checked first.
unfoldable pub owner_route :
    {W Key : Type 0}
    → KeySource W Key
    → Jwt Key
    → Floats
    → Unicode
    → OwnerTokenVerifier
    → (decoded_at checked_at : Float) → Option Str
    → Action (Cache W Key) OwnerIdentity
owner_route source jwt floats unicode verifier decoded_at checked_at header = do
  owner ← get_owner_context source jwt floats unicode verifier decoded_at checked_at header
  pure (read_owner_identity owner)

-- The route under the error handler, at this path; `render` is how the framework serializes the
-- identity.
unfoldable pub owner_endpoint :
    {W Key : Type 0}
    → (OwnerIdentity → Response)
    → KeySource W Key
    → Jwt Key
    → Floats
    → Unicode
    → OwnerTokenVerifier
    → (decoded_at checked_at : Float) → (path : Str) → Option Str
    → Action (Cache W Key) Response
unfolding owner_route handled
owner_endpoint render source jwt floats unicode verifier decoded_at checked_at path header = do
  outcome ← attempt (owner_route source jwt floats unicode verifier decoded_at checked_at header)
  lift (handled path render outcome)
