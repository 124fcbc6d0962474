-- ===== src/Tenants/OwnerAuth/Claims.antt =====
-- The checks of the owner door on a token's header and claims
-- (backend/src/app/tenants/owner_auth.py).
use honest_agent.Prelude.{ℕ, Bool, false, not, Option, none, List, [], ◌∷◌, if◌then◌else◌}
use honest_agent.Py.Str.{Str, codes}
use honest_agent.Py.Value.{pos, Float, Value, Fields, bool, int, float, obj, get, nonempty_str}
use honest_agent.Py.Exec.{Result, require, some_or}
use honest_agent.Py.Exec.Checked.{◌>>=◌}
use honest_agent.Py.Jwt.{Jwt, Floats, DecodeOptions, jwt_failure}
use honest_agent.Core.Errors.{authentication_error}

abbrev pub algorithms : List Str
algorithms = codes "ES256" ∷ []

abbrev pub clock_skew_leeway_seconds : ℕ
clock_skew_leeway_seconds = 10

pub record OwnerTokenVerifier : Type 0 where
  pub issuer : Str
  pub audience : Str

module _ {Key : Type 0} (jwt : Jwt Key) where
  unfoldable pub key_id : Str → Result Str
  unfolding jwt_failure
  key_id token = do
    header ← jwt_failure (codes "malformed token") (jwt.get_unverified_header token)
    some_or (nonempty_str (get (codes "kid") header)) authentication_error
        (codes "token missing key id")

  -- What `jwt.decode` is asked to check.
  unfoldable pub owner_options : OwnerTokenVerifier → DecodeOptions
  owner_options verifier = record {
    algorithms = algorithms;
    issuer = verifier.issuer;
    audience = verifier.audience;
    leeway = clock_skew_leeway_seconds;
    require = codes "exp" ∷ codes "iss" ∷ codes "aud" ∷ [];
  }

  unfoldable pub decode_claims : OwnerTokenVerifier → Float → Str → Key → Result Fields
  unfolding jwt_failure owner_options
  decode_claims verifier decoded_at token key =
      jwt_failure (codes "token verification failed")
        (jwt.decode decoded_at token key (owner_options verifier))

module _ (floats : Floats) where
  -- `isinstance(v, int | float) and v > deadline`; a `bool` is an `int`.
  unfoldable pub is_after : Float → Value → Bool
  is_after deadline (bool b) = floats.lt_int deadline (pos (if b then 1 else 0))
  is_after deadline (int n) = floats.lt_int deadline n
  is_after deadline (float x) = floats.lt deadline x
  is_after deadline _ = false

  unfoldable pub reject_future_iat : Float → Fields → Result (Unit {0})
  reject_future_iat checked_at claims =
      require
        (not (
          is_after (floats.add_int checked_at clock_skew_leeway_seconds)
            (get (codes "iat") claims)))
        authentication_error (codes "token issued in the future")

-- The tenant under `app_metadata`, if that is a `dict` with one.
unfoldable pub metadata_tenant : Value → Option Str
metadata_tenant (obj app_metadata) = nonempty_str (get (codes "tenant_id") app_metadata)
metadata_tenant _ = none

unfoldable pub tenant_id : Fields → Result Str
unfolding metadata_tenant
tenant_id claims =
    some_or (metadata_tenant (get (codes "app_metadata") claims)) authentication_error
      (codes "token has no tenant in app_metadata")

unfoldable pub user_id : Fields → Result Str
user_id claims =
    some_or (nonempty_str (get (codes "sub") claims)) authentication_error
      (codes "token missing subject")
