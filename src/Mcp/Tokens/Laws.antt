-- ===== src/Mcp/Tokens/Laws.antt =====
-- Which tokens the MCP door takes, and for which tenant.
use honest_agent.Prelude.{
  ℕ, ◌+◌, ◌≡◌, refl, ◌≢◌, ◌↔◌, inl, inr, true, ◌&&◌, all, some, [], ◌∷◌, arith, ltb, leb,
  if◌then◌else◌,
}
use honest_agent.Py.Str.{Str, codes, str_eq, member}
use honest_agent.Py.Value.{pos, ◌+ℤ◌, Float, Fields, get, nonempty_str, nonempty_str_lem}
use honest_agent.Py.Exec.{py_jwt_error, ok, fail, Result-cases}
use honest_agent.Py.Jwt.{Jwt, Floats}
use honest_agent.Core.Errors.{authentication_error}
use honest_agent.Tenants.Contexts.{ExternalCallerContext}
use honest_agent.Mcp.Tokens.Library.{is_plain, PlainClaims, is_given, is_current, DecodesOwnTokens}
use honest_agent.Mcp.Tokens.{
  algorithm, McpTokenVerifier, mcp_options, minted_claims, verify, mint_mcp_token,
}

minted_claims-Plain :
    (issuer audience tenant_id : Str) (now ttl_seconds : ℕ)
    → PlainClaims
        (minted_claims issuer audience tenant_id now (pos ttl_seconds))
        issuer
        audience
        now
        (now + ttl_seconds)
unfolding minted_claims ◌+ℤ◌ is_plain get codes str_eq
minted_claims-Plain issuer audience tenant_id now ttl_seconds = record {
  plain = refl;
  named_issuer = refl;
  named_audience = refl;
  issued = refl;
  expires = refl;
  no_nbf = refl;
  no_sub = refl;
  no_jti = refl;
}

-- A token is accepted exactly when `jwt.decode` accepts it with the verifier's secret, issuer and
-- audience and HS256 as the one algorithm, and the tenant is the claim `tenant_id`.
verify_claims_iff :
    (jwt : Jwt Str) (verifier : McpTokenVerifier) (decoded_at : Float) (token : Str)
    (context : ExternalCallerContext)
    → (verify jwt verifier decoded_at token ≡ ok context) ↔ (
        (claims : Fields) × (jwt.decode decoded_at token verifier.secret (mcp_options verifier)
          ≡ ok claims)
        × (nonempty_str (get (codes "tenant_id") claims) ≡ some context.tenant_id))
unfolding verify
verify_claims_iff jwt verifier decoded_at token context = (sound, λ (claims, d, t). ground arith)
  where
    sound :
        verify jwt verifier decoded_at token ≡ ok context
        → (claims : Fields) × (jwt.decode decoded_at token verifier.secret (mcp_options verifier)
            ≡ ok claims)
          × (nonempty_str (get (codes "tenant_id") claims) ≡ some context.tenant_id)
    sound h =
        elim (Result-cases (jwt.decode decoded_at token verifier.secret (mcp_options verifier))) [
          | inl (claims, d) ↦ (claims, d, ground arith)
          | inr (py_jwt_error, failed) ↦ absurd (ground arith)
          | inr (_, failed) ↦ absurd (ground arith)
        ]

-- With a library that decodes its own tokens as PyJWT documents, and a tenant that is not empty: a
-- minted token is accepted, for the tenant that it was minted for, exactly where secret, issuer
-- and audience are the verifier's and the time is neither past the expiry nor before the issue by
-- more than ten seconds; in every other case it is refused with 401.
pub verify-mint_mcp_token :
    (jwt : Jwt Str) (floats : Floats) (verifier : McpTokenVerifier) (minted_at decoded_at : Float)
    (secret issuer audience tenant_id : Str) (ttl_seconds : ℕ)
    → DecodesOwnTokens jwt floats
    → tenant_id ≢ []
    → verify jwt verifier decoded_at
        (mint_mcp_token jwt floats minted_at secret issuer audience tenant_id (pos ttl_seconds))
      ≡ (if str_eq verifier.secret secret
            && str_eq verifier.issuer issuer
            && str_eq verifier.audience audience
            && ltb (floats.truncate decoded_at) (floats.truncate minted_at + ttl_seconds + 10)
            && leb (floats.truncate minted_at) (floats.truncate decoded_at + 10)
          then ok (record { tenant_id = tenant_id })
          else fail authentication_error (codes "mcp token verification failed"))
unfolding verify mint_mcp_token is_current
verify-mint_mcp_token jwt floats verifier minted_at decoded_at secret issuer audience tenant_id
      ttl_seconds laws given =
    ground (
      arith,
      laws.decode-encode claims secret verifier.secret issuer audience (floats.truncate minted_at)
          (floats.truncate minted_at + ttl_seconds) decoded_at (mcp_options verifier)
          (minted_claims-Plain issuer audience tenant_id (floats.truncate minted_at) ttl_seconds),
      tenant_claim,
      alone,
      complete,
    )
  where
    claims : Fields
    claims = minted_claims issuer audience tenant_id (floats.truncate minted_at) (pos ttl_seconds)

    tenant_claim : nonempty_str (get (codes "tenant_id") claims) ≡ some tenant_id
    tenant_claim = unfold minted_claims get codes str_eq in nonempty_str_lem tenant_id given

    alone : member algorithm (algorithm ∷ []) ≡ true
    alone = unfold member codes str_eq in refl

    complete : all (λ name. is_given (get name claims)) (mcp_options verifier).require ≡ true
    complete = unfold minted_claims mcp_options get codes str_eq is_given in refl
