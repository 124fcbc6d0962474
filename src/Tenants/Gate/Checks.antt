-- ===== src/Tenants/Gate/Checks.antt =====
-- The checks of the visitor gate that await nothing: the key, the origin, the query and the
-- declared length (backend/src/app/tenants/gate.py).
use honest_agent.Prelude.{
  ℕ, ◌+◌, ◌*◌, Bool, true, false, not, Option, none, some, List, [], ◌∷◌, ltb, if◌then◌else◌,
  length, all,
}
use honest_agent.Py.Str.{Str, codes, is_empty, strip}
use honest_agent.Py.Unicode.{Unicode}
use honest_agent.Py.Value.{ℤ, pos, negsuc, Value, str, obj, get}
use honest_agent.Py.Exec.{value_error, json_decode_error, Result, ok, raised, fail, require}
use honest_agent.Py.Exec.Checked.{◌>>=◌, ◌>>◌}
use honest_agent.Core.Errors.{bad_request_error, tenant_access_error}
use honest_agent.Core.Origins.{host_allowed}

-- The key, where it is neither missing nor empty.
unfoldable pub given_key : Option Str → Option Str
given_key none = none
given_key (some []) = none
given_key (some (c ∷ s)) = some (c ∷ s)

module _ (unicode : Unicode) where
  -- `if not host_allowed(...): raise TenantAccessError`.
  unfoldable pub check_listed : Str → List Str → Result (Unit {0})
  check_listed value allowed_hosts = do
    allowed ← host_allowed unicode value allowed_hosts
    require allowed tenant_access_error (codes "origin not allowed")

  unfoldable pub check_origin : Option Str → Option Str → List Str → Result (Unit {0})
  unfolding check_listed
  check_origin (some origin) referer allowed_hosts = check_listed origin allowed_hosts
  check_origin none (some referer) allowed_hosts = check_listed referer allowed_hosts
  check_origin none none allowed_hosts =
      fail tenant_access_error (codes "request carries no origin or referer")

-- `except json.JSONDecodeError`: the other exceptions of `loads` pass.
unfoldable pub decode_failure : Result Value → Result Value
decode_failure (raised json_decode_error) =
    fail bad_request_error (codes "request body is not valid json")
decode_failure r = r

unfoldable pub query_text : Value → Result Str
unfolding strip is_empty
query_text (str query) =
    require (not (is_empty (strip query))) bad_request_error
      (codes "request must carry a non-empty query")
    >> ok query
query_text _ = fail bad_request_error (codes "request must carry a non-empty query")

unfoldable pub query_field : Value → Result Str
unfolding query_text get
query_field (obj fields) = query_text (get (codes "query") fields)
query_field _ = fail bad_request_error (codes "request body must be a json object")

-- `loads` stands for `json.loads` on a body.
unfoldable pub sanitize_query : (List ℕ → Result Value) → List ℕ → Result Str
unfolding decode_failure query_field
sanitize_query loads body = do payload ← decode_failure (loads body); query_field payload

-- `n > limit`, for a limit that is an `int`.
unfoldable pub exceeds : ℕ → ℤ → Bool
exceeds n (pos limit) = ltb limit n
exceeds n (negsuc m) = true

module _ (unicode : Unicode) where
  -- The digits of `int(s)`; `none` for a character that `int` does not take.
  unfoldable pub read_digits : ℕ → Str → Option ℕ
  read_digits n [] = some n
  read_digits n (c ∷ s) = elim (unicode.digit_value c) [
    | none ↦ none
    | some d ↦ read_digits (n * 10 + d) s
  ]

  -- `int(s)` for a text of digits. More than 4300 digits are refused.
  unfoldable pub parse_int : Str → Result ℕ
  unfolding read_digits
  parse_int s = elim (if ltb 4300 (length s) then none else read_digits 0 s) [
    | none ↦ raised value_error
    | some n ↦ ok n
  ]

  -- `s.isdigit()`.
  unfoldable pub is_digits : Str → Bool
  is_digits [] = false
  is_digits (c ∷ s) = all unicode.is_digit (c ∷ s)

  -- `declared is not None and declared.isdigit() and int(declared) > max_body_bytes`.
  unfoldable pub declares_more : Option Str → ℤ → Result Bool
  unfolding is_digits parse_int exceeds
  declares_more none max_body_bytes = ok false
  declares_more (some declared) max_body_bytes =
      if not (is_digits declared)
      then ok false
      else do n ← parse_int declared; ok (exceeds n max_body_bytes)
