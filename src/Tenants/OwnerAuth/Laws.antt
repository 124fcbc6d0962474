-- ===== src/Tenants/OwnerAuth/Laws.antt =====
-- Whom the owner door lets in, which claims it looks at, and how it refuses.
use honest_agent.Prelude.{◌≡◌, refl, ◌↔◌, inl, inr, false, some, [], ◌∷◌, arith}
use honest_agent.Py.Str.{Str, codes}
use honest_agent.Py.Value.{Float, Value, Fields, obj, get, nonempty_str}
use honest_agent.Py.Exec.{py_jwt_error, Result, ok, raised, Result-cases}
use honest_agent.Py.Jwt.{Jwt, Floats, jwt_failure}
use honest_agent.Tenants.Contexts.{OwnerRequestContext}
use honest_agent.Tenants.OwnerAuth.Keys.{Cache, KeySource, get_key}
use honest_agent.Tenants.OwnerAuth.Claims.{
  key_id, decode_claims, owner_options, reject_future_iat, is_after, tenant_id, user_id,
  OwnerTokenVerifier,
}
use honest_agent.Tenants.OwnerAuth.{verify}

module _ {W Key : Type 0} (source : KeySource W Key) (jwt : Jwt Key) (floats : Floats) where
  -- Everything that a token has passed.
  pub record Verified (verifier : OwnerTokenVerifier) (decoded_at checked_at : Float) (token : Str)
      (cache cache' : Cache W Key) (context : OwnerRequestContext) : Type 0 where
    pub header : Fields
    pub kid : Str
    pub key : Key
    pub claims : Fields
    pub app_metadata : Fields
    pub header_read : jwt.get_unverified_header token ≡ ok header
    pub named : nonempty_str (get (codes "kid") header) ≡ some kid
    pub resolved : get_key source kid cache ≡ (ok key, cache')
    pub decoded :
        jwt.decode decoded_at token key (record {
          algorithms = codes "ES256" ∷ [];
          issuer = verifier.issuer;
          audience = verifier.audience;
          leeway = 10;
          require = codes "exp" ∷ codes "iss" ∷ codes "aud" ∷ [];
        })
        ≡ ok claims
    pub not_future :
        is_after floats (floats.add_int checked_at 10) (get (codes "iat") claims) ≡ false
    pub metadata : get (codes "app_metadata") claims ≡ obj app_metadata
    pub tenant : nonempty_str (get (codes "tenant_id") app_metadata) ≡ some context.tenant_id
    pub user : nonempty_str (get (codes "sub") claims) ≡ some context.user_id

  jwt_failure-eq-ok :
      {A : Type 0} (detail : Str) (r : Result A) (a : A) → jwt_failure detail r ≡ ok a → r ≡ ok a
  unfolding jwt_failure
  jwt_failure-eq-ok detail (ok b) a h = h
  jwt_failure-eq-ok detail (raised py_jwt_error) a h = cc
  jwt_failure-eq-ok detail (raised _) a h = cc

  key_id-ok :
      (token kid : Str)
      → key_id jwt token ≡ ok kid
      → (header : Fields) × (jwt.get_unverified_header token ≡ ok header)
        × (nonempty_str (get (codes "kid") header) ≡ some kid)
  unfolding key_id
  key_id-ok token kid h = elim (Result-cases (jwt.get_unverified_header token)) [
    | inl (header, read) ↦ (header, read, ground arith)
    | inr (py_jwt_error, failed) ↦ absurd (ground arith)
    | inr (_, failed) ↦ absurd (ground arith)
  ]

  decode_claims-ok :
      (verifier : OwnerTokenVerifier) (decoded_at : Float) (token : Str) (key : Key)
      (claims : Fields)
      → decode_claims jwt verifier decoded_at token key ≡ ok claims
      → jwt.decode decoded_at token key (owner_options jwt verifier) ≡ ok claims
  unfolding decode_claims
  decode_claims-ok verifier decoded_at token key claims h = jwt_failure-eq-ok _ _ claims h

  tenant_id-ok :
      (claims : Fields) (tenant : Str)
      → tenant_id claims ≡ ok tenant
      → (app_metadata : Fields) × (get (codes "app_metadata") claims ≡ obj app_metadata)
        × (nonempty_str (get (codes "tenant_id") app_metadata) ≡ some tenant)
  unfolding tenant_id
  tenant_id-ok claims tenant h = found (get (codes "app_metadata") claims) refl
    where
      found :
          (v : Value)
          → get (codes "app_metadata") claims ≡ v
          → (app_metadata : Fields) × (get (codes "app_metadata") claims ≡ obj app_metadata)
            × (nonempty_str (get (codes "tenant_id") app_metadata) ≡ some tenant)
      found (obj m) e = (m, e, ground arith)
      found _ e = absurd (ground arith)

  verify_sound :
      (verifier : OwnerTokenVerifier) (decoded_at checked_at : Float) (token : Str)
      (cache cache' : Cache W Key) (context : OwnerRequestContext)
      → verify source jwt floats verifier decoded_at checked_at token cache ≡ (ok context, cache')
      → Verified verifier decoded_at checked_at token cache cache' context
  unfolding verify
  verify_sound verifier decoded_at checked_at token cache cache' context h =
      elim (Result-cases (key_id jwt token)) [
        | inr (e, failed) ↦ absurd (ground arith)
        | inl (kid, named) ↦ elim (Result-cases (get_key source kid cache).0) [
          | inr (e, failed) ↦ absurd (ground arith)
          | inl (key, resolved) ↦
              elim (Result-cases (decode_claims jwt verifier decoded_at token key)) [
                | inr (e, failed) ↦ absurd (ground arith)
                | inl (claims, decoded) ↦
                    let (header, read, has_kid) = key_id-ok token kid named in
                    let (m, at_metadata, has_tenant) =
                      tenant_id-ok claims context.tenant_id (ground arith) in
                    record {
                      header = header;
                      kid = kid;
                      key = key;
                      claims = claims;
                      app_metadata = m;
                      header_read = read;
                      named = has_kid;
                      resolved = ground arith;
                      decoded =
                          unfold owner_options in
                          decode_claims-ok verifier decoded_at token key claims decoded;
                      not_future = unfold reject_future_iat in ground arith;
                      metadata = at_metadata;
                      tenant = has_tenant;
                      user = unfold user_id in ground arith;
                    }
              ]
        ]
      ]

  verify_complete :
      (verifier : OwnerTokenVerifier) (decoded_at checked_at : Float) (token : Str)
      (cache cache' : Cache W Key) (context : OwnerRequestContext)
      → Verified verifier decoded_at checked_at token cache cache' context
      → verify source jwt floats verifier decoded_at checked_at token cache ≡ (ok context, cache')
  unfolding verify key_id decode_claims owner_options reject_future_iat tenant_id user_id
  verify_complete verifier decoded_at checked_at token cache cache' context v = ground arith

  -- A token is accepted, with a context, exactly when all of this holds: its header names a key id
  -- whose key the resolver returns, `jwt.decode` accepts it with ES256 as the one algorithm,
  -- with the issuer and the audience of the verifier, a leeway of ten seconds and `exp`, `iss` and
  -- `aud` required, its `iat` is at most ten seconds in the future, and the
  -- context has the tenant of `app_metadata` and the user of `sub`.
  pub verify-ok_iff :
      (verifier : OwnerTokenVerifier) (decoded_at checked_at : Float) (token : Str)
      (cache cache' : Cache W Key) (context : OwnerRequestContext)
      → (verify source jwt floats verifier decoded_at checked_at token cache ≡ (ok context, cache'))
        ↔ Verified verifier decoded_at checked_at token cache cache' context
  verify-ok_iff verifier decoded_at checked_at token cache cache' context = (
    verify_sound verifier decoded_at checked_at token cache cache' context,
    verify_complete verifier decoded_at checked_at token cache cache' context,
  )
