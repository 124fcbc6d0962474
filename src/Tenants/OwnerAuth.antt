-- ===== src/Tenants/OwnerAuth.antt =====
-- backend/src/app/tenants/owner_auth.py: the owner door. Here is the verifier; the cache of the
-- signing keys is in `Keys`.
pub mod Keys
pub mod Threads
pub mod Claims
pub mod Laws
pub mod Refusals
pub mod Tests
use honest_agent.Prelude.{Option}
use honest_agent.Py.Str.{Str}
use honest_agent.Py.Unicode.{Unicode}
use honest_agent.Py.Value.{Float}
use honest_agent.Py.Exec.{Action, pure, lift, ◌>>=◌, ◌>>◌}
use honest_agent.Py.Jwt.{Jwt, Floats}
use honest_agent.Core.Bearer.{parse_bearer}
use honest_agent.Core.Settings.{Settings}
use honest_agent.Tenants.Contexts.{OwnerRequestContext}
use Keys.{Cache, KeySource, get_key}
use Claims.{key_id, decode_claims, reject_future_iat, tenant_id, user_id, OwnerTokenVerifier}

module _ {W Key : Type 0} (source : KeySource W Key) (jwt : Jwt Key) (floats : Floats) where
  -- `decoded_at` and `checked_at` are the times that the clock shows to `jwt.decode` and to the
  -- test of `iat`.
  unfoldable pub verify :
      OwnerTokenVerifier
      → (decoded_at checked_at : Float) → Str
      → Action (Cache W Key) OwnerRequestContext
  verify verifier decoded_at checked_at token = do
    kid ← lift (key_id jwt token)
    key ← get_key source kid
    claims ← lift (decode_claims jwt verifier decoded_at token key)
    lift (reject_future_iat floats checked_at claims)
    tenant ← lift (tenant_id claims)
    user ← lift (user_id claims)
    pure (record { tenant_id = tenant; user_id = user })

  -- `header` is the request's Authorization header.
  unfoldable pub get_owner_context :
      Unicode
      → OwnerTokenVerifier
      → (decoded_at checked_at : Float) → Option Str
      → Action (Cache W Key) OwnerRequestContext
  unfolding verify
  get_owner_context unicode verifier decoded_at checked_at header = do
    token ← lift (parse_bearer unicode header)
    verify verifier decoded_at checked_at token

-- The verifier's part of `build_owner_verifier`; the resolver fetches from `supabase_jwks_url`.
unfoldable pub build_owner_verifier : Settings → OwnerTokenVerifier
build_owner_verifier settings = record {
  issuer = settings.supabase_jwt_issuer;
  audience = settings.supabase_jwt_audience;
}
