-- ===== src/Mcp/Tokens.antt =====
-- backend/src/app/mcp/tokens.py: the token of an external caller.
pub mod Library
pub mod Plain
pub mod Ascii
pub mod Laws
use honest_agent.Prelude.{ℕ, ◌+◌, [], ◌∷◌}
use honest_agent.Py.Str.{Str, codes}
use honest_agent.Py.Value.{ℤ, ◌+ℤ◌, Float, Fields, pos, int, str, end, field, get, nonempty_str}
use honest_agent.Py.Exec.{Result, ok, require, some_or}
use honest_agent.Py.Exec.Checked.{◌>>=◌}
use honest_agent.Py.Jwt.{Jwt, Floats, DecodeOptions, jwt_failure}
use honest_agent.Core.Errors.{authentication_error}
use honest_agent.Core.Settings.{Settings}
use honest_agent.Tenants.Contexts.{ExternalCallerContext}

abbrev pub algorithm : Str
algorithm = codes "HS256"

abbrev pub clock_skew_leeway_seconds : ℕ
clock_skew_leeway_seconds = 10

abbrev pub default_ttl_seconds : ℕ
default_ttl_seconds = 3600

pub record McpTokenVerifier : Type 0 where
  pub secret : Str
  pub issuer : Str
  pub audience : Str

-- What `jwt.decode` is asked to check.
unfoldable pub mcp_options : McpTokenVerifier → DecodeOptions
mcp_options verifier = record {
  algorithms = algorithm ∷ [];
  issuer = verifier.issuer;
  audience = verifier.audience;
  leeway = clock_skew_leeway_seconds;
  require = codes "exp" ∷ codes "iss" ∷ codes "aud" ∷ [];
}

-- The claims of a minted token.
unfoldable pub minted_claims :
    (issuer audience tenant_id : Str) (now : ℕ) → (ttl_seconds : ℤ) → Fields
minted_claims issuer audience tenant_id now ttl_seconds = field (codes "iss") (str issuer) (
    field (codes "aud") (str audience) (
      field (codes "tenant_id") (str tenant_id) (
        field (codes "iat") (int (pos now))
          (field (codes "exp") (int (pos now +ℤ ttl_seconds)) end))))

module _ (jwt : Jwt Str) where
  -- `decoded_at` is the time that the clock shows to `jwt.decode`.
  unfoldable pub verify : McpTokenVerifier → Float → Str → Result ExternalCallerContext
  unfolding jwt_failure mcp_options
  verify verifier decoded_at token = do
    claims ←
        jwt_failure (codes "mcp token verification failed")
          (jwt.decode decoded_at token verifier.secret (mcp_options verifier))
    tenant_id ←
        some_or (nonempty_str (get (codes "tenant_id") claims)) authentication_error
          (codes "mcp token has no tenant")
    ok (record { tenant_id = tenant_id })

  -- `minted_at` is the time that the clock shows.
  unfoldable pub mint_mcp_token :
      Floats → Float → (secret issuer audience tenant_id : Str) → (ttl_seconds : ℤ) → Str
  unfolding minted_claims
  mint_mcp_token floats minted_at secret issuer audience tenant_id ttl_seconds =
      jwt.encode (minted_claims issuer audience tenant_id (floats.truncate minted_at) ttl_seconds)
        secret algorithm

unfoldable pub build_mcp_verifier : Settings → McpTokenVerifier
build_mcp_verifier settings = record {
  secret = settings.mcp_signing_secret;
  issuer = settings.mcp_token_issuer;
  audience = settings.mcp_token_audience;
}
