-- ===== src/Tenants/Router/Laws.antt =====
-- What the owner's route answers.
use honest_agent.Prelude.{◌≡◌, ◌↔◌, some, arith}
use honest_agent.Py.Str.{Str}
use honest_agent.Py.Unicode.{Unicode}
use honest_agent.Py.Value.{Float}
use honest_agent.Py.Exec.{ok, bind-ok, lift, pure}
use honest_agent.Py.Jwt.{Jwt, Floats}
use honest_agent.Core.Bearer.{parse_bearer}
use honest_agent.Core.Bearer.Laws.{CarriesToken, parse_bearer_iff}
use honest_agent.Tenants.Contexts.{OwnerRequestContext}
use honest_agent.Tenants.OwnerAuth.{get_owner_context, verify}
use honest_agent.Tenants.OwnerAuth.Keys.{Cache, KeySource}
use honest_agent.Tenants.OwnerAuth.Claims.{OwnerTokenVerifier}
use honest_agent.Tenants.OwnerAuth.Laws.{Verified, verify-ok_iff}
use honest_agent.Tenants.Router.{OwnerIdentity, read_owner_identity, owner_route}

-- The context with the fields of an identity.
abbrev context_of : OwnerIdentity → OwnerRequestContext
context_of identity = record { tenant_id = identity.tenant_id; user_id = identity.user_id }

module _ {W Key : Type 0} (source : KeySource W Key) (jwt : Jwt Key) (floats : Floats)
    (unicode : Unicode) (verifier : OwnerTokenVerifier) (decoded_at checked_at : Float) where
  Entered : (header : Str) → OwnerIdentity → (cache cache' : Cache W Key) → Type 0
  Entered header identity cache cache' =
      (token : Str) × CarriesToken unicode header token
      × Verified source jwt floats verifier decoded_at checked_at token cache cache'
          (context_of identity)

  route_sound :
      (header : Str) (identity : OwnerIdentity) (cache cache' : Cache W Key)
      → owner_route source jwt floats unicode verifier decoded_at checked_at (some header) cache
        ≡ (ok identity, cache')
      → Entered header identity cache cache'
  unfolding owner_route read_owner_identity get_owner_context Entered
  route_sound header identity cache cache' h =
      let (owner, (u, entered, given)) =
        bind-ok
          (get_owner_context source jwt floats unicode verifier decoded_at checked_at (some header))
          (λ owner. pure (read_owner_identity owner)) cache cache' identity h in
      let (token, (v, parsed, accepted)) =
        bind-ok (lift (parse_bearer unicode (some header)))
          (verify source jwt floats verifier decoded_at checked_at) cache u owner entered in
      let same : owner ≡ context_of identity = ground arith in
      let carried : parse_bearer unicode (some header) ≡ ok token = ground arith in
      let passed : verify source jwt floats verifier decoded_at checked_at token cache
          ≡ (ok (context_of identity), cache') =
        ground arith in
      (
        token,
        (parse_bearer_iff unicode header token).0 carried,
        (verify-ok_iff source jwt floats verifier decoded_at checked_at token cache cache'
              (context_of identity)).0
            passed,
      )

  route_complete :
      (header : Str) (identity : OwnerIdentity) (cache cache' : Cache W Key)
      → Entered header identity cache cache'
      → owner_route source jwt floats unicode verifier decoded_at checked_at (some header) cache
        ≡ (ok identity, cache')
  unfolding owner_route read_owner_identity get_owner_context Entered
  route_complete header identity cache cache' (token, carried, verified) =
      let parsed = (parse_bearer_iff unicode header token).1 carried in
      let accepted =
        (verify-ok_iff source jwt floats verifier decoded_at checked_at token cache cache'
            (context_of identity)).1
          verified in
      ground arith

  -- The route answers with an identity exactly when the header carries a token that passes the
  -- owner door, and the identity is the tenant and the user that the door reads in that token.
  owner_route_iff :
      (header : Str) (identity : OwnerIdentity) (cache cache' : Cache W Key)
      → (owner_route source jwt floats unicode verifier decoded_at checked_at (some header) cache
          ≡ (ok identity, cache'))
        ↔ ((token : Str) × CarriesToken unicode header token
            × Verified source jwt floats verifier decoded_at checked_at token cache cache'
                (context_of identity))
  unfolding Entered
  owner_route_iff header identity cache cache' =
      (route_sound header identity cache cache', route_complete header identity cache cache')
