-- ===== src/Tenants/OwnerAuth/Refusals.antt =====
-- How the owner door refuses a token, and the claims that have no say.
use honest_agent.Prelude.{◌≡◌, refl, ◌≢◌, inl, inr, false, [], arith}
use honest_agent.Py.Str.{Str, codes, str_eq}
use honest_agent.Py.Value.{Float, Value, Fields, field, get}
use honest_agent.Py.Exec.{Exception, py_jwt_error, raised, Result-cases}
use honest_agent.Py.Exec.Checked.{◌>>=◌}
use honest_agent.Py.Jwt.{Jwt, Floats, DecodeOptions}
use honest_agent.Core.Handlers.{answered_status}
use honest_agent.Tenants.OwnerAuth.Keys.{Cache, KeySource, get_key, refresh, collect}
use honest_agent.Tenants.OwnerAuth.Claims.{
  owner_options, OwnerTokenVerifier, key_id, decode_claims, reject_future_iat, tenant_id, user_id,
}
use honest_agent.Tenants.OwnerAuth.{verify}

-- A claim other than `app_metadata`, `sub` and `iat`, such as `user_metadata`, changes nothing that
-- the door reads of the claims.
claims-ignored :
    (floats : Floats) (checked_at : Float) (name : Str) (v : Value) (claims : Fields)
    → str_eq (codes "app_metadata") name ≡ false
    → str_eq (codes "sub") name ≡ false
    → str_eq (codes "iat") name ≡ false
    → (tenant_id (field name v claims) ≡ tenant_id claims)
      × (user_id (field name v claims) ≡ user_id claims)
      × (reject_future_iat floats checked_at (field name v claims)
          ≡ reject_future_iat floats checked_at claims)
unfolding tenant_id user_id reject_future_iat get
claims-ignored floats checked_at name v claims a b c = (rw a refl, rw b refl, rw c refl)

-- The library raises nothing but `PyJWTError`, as it documents for tokens that it refuses.
pub record RaisesPyJwtError {Key : Type 0} (jwt : Jwt Key) : Type 0 where
  pub by_header :
      (token : Str) (e : Exception) → jwt.get_unverified_header token ≡ raised e → e ≡ py_jwt_error
  pub by_decode :
      (decoded_at : Float) (token : Str) (key : Key) (options : DecodeOptions) (e : Exception)
      → jwt.decode decoded_at token key options ≡ raised e
      → e ≡ py_jwt_error

module _ {W Key : Type 0} (source : KeySource W Key) (jwt : Jwt Key) (floats : Floats)
    (raises : RaisesPyJwtError jwt) where
  key_id-401 : (token : Str) (e : Exception) → key_id jwt token ≡ raised e → answered_status e ≡ 401
  unfolding key_id answered_status
  key_id-401 token e h = elim (Result-cases (jwt.get_unverified_header token)) [
    | inl (header, read) ↦ ground arith
    | inr (e', failed) ↦ ground (arith, raises.by_header token e' failed)
  ]

  decode_claims-401 :
      (verifier : OwnerTokenVerifier) (decoded_at : Float) (token : Str) (key : Key) (e : Exception)
      → decode_claims jwt verifier decoded_at token key ≡ raised e
      → answered_status e ≡ 401
  unfolding decode_claims answered_status
  decode_claims-401 verifier decoded_at token key e h =
      elim (Result-cases (jwt.decode decoded_at token key (owner_options jwt verifier))) [
        | inl (claims, read) ↦ ground arith
        | inr (e', failed) ↦ ground (arith, raises.by_decode decoded_at token key _ e' failed)
      ]

  -- A resolver that has its key set refuses an unknown key id with 401.
  get_key-401 :
      (kid : Str) (cache : Cache W Key) (e : Exception)
      → ((e' : Exception) → ((source.fetch cache.world).0 >>= collect source []) ≢ raised e')
      → (get_key source kid cache).0 ≡ raised e
      → answered_status e ≡ 401
  unfolding get_key refresh answered_status
  get_key-401 kid cache e published h =
      elim (Result-cases ((source.fetch cache.world).0 >>= collect source [])) [
        | inr (e', failed) ↦ absurd (published e' failed)
        | inl (keys, made) ↦ ground arith
      ]

  -- With a PyJWT that raises nothing but `PyJWTError`: where the key set can be fetched and read, a
  -- token that is refused is answered with 401, whatever is wrong with it.
  pub verify-401 :
      (verifier : OwnerTokenVerifier) (decoded_at checked_at : Float) (token : Str)
      (cache cache' : Cache W Key) (e : Exception)
      → ((e' : Exception) → ((source.fetch cache.world).0 >>= collect source []) ≢ raised e')
      → verify source jwt floats verifier decoded_at checked_at token cache ≡ (raised e, cache')
      → answered_status e ≡ 401
  unfolding verify
  verify-401 verifier decoded_at checked_at token cache cache' e published h =
      elim (Result-cases (key_id jwt token)) [
        | inr (e', failed) ↦ ground (arith, key_id-401 token e' failed)
        | inl (kid, named) ↦ elim (Result-cases (get_key source kid cache).0) [
          | inr (e', failed) ↦ ground (arith, get_key-401 kid cache e' published failed)
          | inl (key, resolved) ↦
              elim (Result-cases (decode_claims jwt verifier decoded_at token key)) [
                | inr (e', failed) ↦
                    ground (arith, decode_claims-401 verifier decoded_at token key e' failed)
                | inl (claims, decoded) ↦
                    unfold reject_future_iat tenant_id user_id answered_status in ground arith
              ]
        ]
      ]
