-- ===== src/Py/Jwt.antt =====
-- What the two token doors take from the library PyJWT, from `httpx` and from the clock: calls
-- that are parameters, by what the code hands them and what it reads of their results.
use honest_agent.Prelude.{ℕ, Bool, List}
use honest_agent.Py.Str.{Str}
use honest_agent.Py.Value.{ℤ, Float, Fields}
use honest_agent.Py.Exec.{Result, raised, py_jwt_error, fail}
use honest_agent.Core.Errors.{authentication_error}

-- The keyword arguments of `jwt.decode`.
pub record DecodeOptions : Type 0 where
  pub algorithms : List Str
  pub issuer : Str
  pub audience : Str
  pub leeway : ℕ
  pub require : List Str

-- `decode` is given the time at which it runs.
pub record Jwt (Key : Type 0) : Type 0 where
  pub get_unverified_header : Str → Result Fields
  pub decode : Float → Str → Key → DecodeOptions → Result Fields
  pub encode : Fields → Key → Str → Str

-- Float arithmetic, as far as the code uses it on times.
pub record Floats : Type 0 where
  -- `x + n`.
  pub add_int : Float → ℕ → Float
  -- `x < y`.
  pub lt : Float → Float → Bool
  -- `x < n`, for an `int`.
  pub lt_int : Float → ℤ → Bool
  -- `int(x)`, for a time.
  pub truncate : Float → ℕ

-- `except jwt.PyJWTError as exc: raise AuthenticationError(detail)`: other exceptions pass.
unfoldable pub jwt_failure {ℓ} : {A : Type ℓ} → Str → Result A → Result A
jwt_failure detail (raised py_jwt_error) = fail authentication_error detail
jwt_failure detail r = r
