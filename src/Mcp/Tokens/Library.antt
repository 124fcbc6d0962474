-- ===== src/Mcp/Tokens/Library.antt =====
-- What PyJWT documents of the tokens that it makes itself, for the claims that this program gives
-- it: texts and times, with no `nbf`, `sub` or `jti`.
use honest_agent.Prelude.{ℕ, ◌+◌, ◌≡◌, Bool, true, false, all, ◌&&◌, ltb, leb, if◌then◌else◌}
use honest_agent.Py.Str.{Str, codes, str_eq, member}
use honest_agent.Py.Value.{Float, Value, Fields, null, str, int, pos, end, field, get}
use honest_agent.Py.Exec.{py_jwt_error, ok, raised}
use honest_agent.Py.Jwt.{Jwt, Floats, DecodeOptions}
use honest_agent.Mcp.Tokens.{algorithm}

-- Every value is a text or a number that is not negative.
unfoldable pub is_plain : Fields → Bool
is_plain end = true
is_plain (field k (str s) fs) = is_plain fs
is_plain (field k (int (pos n)) fs) = is_plain fs
is_plain (field k _ fs) = false

pub record PlainClaims (claims : Fields) (issuer audience : Str) (iat exp : ℕ) : Type 0 where
  pub plain : is_plain claims ≡ true
  pub named_issuer : get (codes "iss") claims ≡ str issuer
  pub named_audience : get (codes "aud") claims ≡ str audience
  pub issued : get (codes "iat") claims ≡ int (pos iat)
  pub expires : get (codes "exp") claims ≡ int (pos exp)
  pub no_nbf : get (codes "nbf") claims ≡ null
  pub no_sub : get (codes "sub") claims ≡ null
  pub no_jti : get (codes "jti") claims ≡ null

-- `payload.get(name) is not None`.
unfoldable pub is_given : Value → Bool
is_given null = false
is_given _ = true

-- The key is the same, the algorithm is allowed, the claims that are required are there, the
-- issuer and the audience are those asked for, and neither is the expiry past nor the issue ahead
-- by more than the leeway.
unfoldable pub is_current :
    DecodeOptions → (claims : Fields) (key key' issuer audience : Str) (iat exp at : ℕ) → Bool
is_current options claims key key' issuer audience iat exp at =
    str_eq key' key
    && member algorithm options.algorithms
    && all (λ name. is_given (get name claims)) options.require
    && str_eq options.issuer issuer
    && str_eq options.audience audience
    && ltb at (exp + options.leeway)
    && leb iat (at + options.leeway)

-- `decode` returns the claims of a token that `encode` has made where it is current, and raises a
-- `PyJWTError` where it is not.
pub record DecodesOwnTokens (jwt : Jwt Str) (floats : Floats) : Type 0 where
  pub decode-encode :
      (claims : Fields) (key key' issuer audience : Str) (iat exp : ℕ) (at : Float)
      (options : DecodeOptions)
      → PlainClaims claims issuer audience iat exp
      → jwt.decode at (jwt.encode claims key algorithm) key' options ≡ (
          if is_current options claims key key' issuer audience iat exp (floats.truncate at)
          then ok claims
          else raised py_jwt_error)
