-- ===== src/Tenants/Gate/Bodies.antt =====
-- What the gate makes of a body, with `json.loads` as the interpreter runs it
-- (backend/src/app/tenants/gate.py, `_sanitize_query`).
use honest_agent.Prelude.{
  ℕ, ◌<◌, ◌≡◌, refl, ap, ◌≢◌, ◌↔◌, Bool-cases, ◌⊎◌, inl, inr, ◌∙◌, true, ◌&&◌, List, ◌∷◌, arith,
  leb, all, length,
}
use honest_agent.Py.Str.{Str, codes, is_empty, strip}
use honest_agent.Py.Utf8.RoundTrip.{encode}
use honest_agent.Py.Value.{Float, Value, Fields, obj, str, null, get}
use honest_agent.Py.Exec.{
  Exception, value_error, recursion_error, unicode_decode_error, ok, raised, app, json_decode_error,
  Result-cases,
}
use honest_agent.Py.Json.Numbers.{is_decimal}
use honest_agent.Py.Json.Decode.{Interpreter, is_ws, loads}
use honest_agent.Py.Json.Print.{print, dict_of, is_readable}
use honest_agent.Py.Json.Print.Numbers.{is_number}
use honest_agent.Py.Json.Print.Encoded.{loads-print}
use honest_agent.Py.Json.Print.Dicts.{last_at, get-dict_of}
use honest_agent.Py.Json.Refused.{is_plain, nested, loads-continuation, loads-nested, loads-long}
use honest_agent.Py.Json.Scans.{is_json_failure-cases}
use honest_agent.Py.Json.Raises.{loads-raised}
use honest_agent.Core.Errors.{bad_request_error}
use honest_agent.Core.Handlers.{answered_status}
use honest_agent.Tenants.Gate.Checks.{decode_failure, query_text, query_field, sanitize_query}

-- The bytes of a printed JSON object, with white space or nothing behind its commas and colons,
-- nested no deeper than the interpreter admits, without floats, surrogates and integers of more than
-- 4300 digits: they give the text of the last `query` entry if that is a text which is not blank,
-- and a `BadRequestError` if it is not or if there is none. No other entry has a say.
pub sanitize_query-print :
    (python : Interpreter) (repr : Float → Str) (space : Str) (fs : Fields)
    → all is_ws space ≡ true
    → is_readable python.depth (obj fs) ≡ true
    → sanitize_query (loads python) (encode (print repr space (obj fs)))
      ≡ query_text (last_at (codes "query") null fs)
unfolding sanitize_query decode_failure query_field dict_of last_at
sanitize_query-print python repr space fs ws r =
    rw (loads-print repr space ws python fs r) (rw (get-dict_of (codes "query") fs) refl)

abbrev bad_request : Str → Exception
bad_request detail = app (record { kind = bad_request_error; detail = detail })

abbrev pub IsUncaught : Exception → Type 0
IsUncaught e = (e ≡ unicode_decode_error) ⊎ ((e ≡ recursion_error) ⊎ (e ≡ value_error))

-- The fields have no `query` that is a text and not blank.
abbrev pub NoQuery : Fields → Type 0
NoQuery fields =
    (query : Str) → get (codes "query") fields ≡ str query → is_empty (strip query) ≡ true

-- Why a body is refused, and with which exception.
pub data Rejected (python : Interpreter) (body : List ℕ) (e : Exception) : Type 0 where
  -- It is not JSON.
  malformed :
      loads python body ≡ raised json_decode_error
      → e ≡ bad_request (codes "request body is not valid json")
      → Rejected python body e
  -- `json.loads` failed in another way.
  uncaught : loads python body ≡ raised e → IsUncaught e → Rejected python body e
  not_object :
      (payload : Value)
      → loads python body ≡ ok payload
      → ((fields : Fields) → payload ≢ obj fields)
      → e ≡ bad_request (codes "request body must be a json object")
      → Rejected python body e
  no_query :
      (fields : Fields)
      → loads python body ≡ ok (obj fields)
      → NoQuery fields
      → e ≡ bad_request (codes "request must carry a non-empty query")
      → Rejected python body e

query_text-raised :
    (v : Value) (e : Exception)
    → query_text v ≡ raised e
    → (e ≡ bad_request (codes "request must carry a non-empty query"))
      × ((query : Str) → v ≡ str query → is_empty (strip query) ≡ true)
unfolding query_text
query_text-raised (str s) e h = elim (Bool-cases (is_empty (strip s))) [
  | inl blank ↦ (ground arith, λ query same. ground arith)
  | inr given ↦ absurd (ground arith)
]
query_text-raised _ e h = (ground arith, λ query same. absurd (ground arith))

query_text-blank :
    (v : Value)
    → ((query : Str) → v ≡ str query → is_empty (strip query) ≡ true)
    → query_text v ≡ raised (bad_request (codes "request must carry a non-empty query"))
unfolding query_text
query_text-blank (str s) h = ground (arith, h s refl)
query_text-blank _ h = refl

query_field-Rejected :
    (python : Interpreter) (body : List ℕ) (payload : Value) (e : Exception)
    → loads python body ≡ ok payload
    → query_field payload ≡ raised e
    → Rejected python body e
unfolding query_field
query_field-Rejected python body (obj fields) e read h =
    let (same, blank) = query_text-raised (get (codes "query") fields) e h in
    no_query fields read blank same
query_field-Rejected python body payload e read h =
    not_object payload read (λ fields same. ground arith) (ground arith)

query_field-not_object :
    (payload : Value)
    → ((fields : Fields) → payload ≢ obj fields)
    → query_field payload ≡ raised (bad_request (codes "request body must be a json object"))
unfolding query_field
query_field-not_object (obj fields) h = absurd (h fields refl)
query_field-not_object _ h = refl

decode_failure-IsUncaught : (e : Exception) → IsUncaught e → decode_failure (raised e) ≡ raised e
unfolding decode_failure
decode_failure-IsUncaught e (inl same) = rw same refl
decode_failure-IsUncaught e (inr (inl same)) = rw same refl
decode_failure-IsUncaught e (inr (inr same)) = rw same refl

raised-Rejected :
    (python : Interpreter) (body : List ℕ) (e : Exception)
    → sanitize_query (loads python) body ≡ raised e
    → Rejected python body e
unfolding sanitize_query decode_failure
raised-Rejected python body e h = elim (Result-cases (loads python body)) [
  | inl (payload, read) ↦ query_field-Rejected python body payload e read (ground arith)
  | inr (e', failed) ↦ elim (is_json_failure-cases e' (loads-raised python body e' failed)) [
    | inl bad ↦ malformed (failed ∙ ap raised bad) (ground arith)
    | inr other ↦
        let same : e' ≡ e = ground (arith, decode_failure-IsUncaught e' other) in
        uncaught (failed ∙ ap raised same) (rw same at other)
  ]
]

Rejected-raised :
    (python : Interpreter) (body : List ℕ) (e : Exception)
    → Rejected python body e
    → sanitize_query (loads python) body ≡ raised e
unfolding sanitize_query decode_failure
Rejected-raised python body e (malformed failed same) = ground arith
Rejected-raised python body e (uncaught failed other) =
    ground (arith, decode_failure-IsUncaught e other)
Rejected-raised python body e (not_object payload read other same) =
    ground (arith, query_field-not_object payload other)
Rejected-raised python body e (no_query fields read blank same) =
    unfold query_field in ground (arith, query_text-blank (get (codes "query") fields) blank)

-- A body is refused with an exception exactly in one of four cases: with a `BadRequestError` where
-- `json.loads` raises a `JSONDecodeError`, where it gives no object, and where it gives an object
-- whose `query` is no text or is blank; with what `json.loads` raises itself where that is a
-- `UnicodeDecodeError`, a `RecursionError` or a `ValueError`.
pub sanitize_query-raised :
    (python : Interpreter) (body : List ℕ) (e : Exception)
    → (sanitize_query (loads python) body ≡ raised e) ↔ Rejected python body e
sanitize_query-raised python body e = (raised-Rejected python body e, Rejected-raised python body e)

-- Bodies that `json.loads` refuses with another exception than a `JSONDecodeError`.
pub data Undecodable (python : Interpreter) : List ℕ → Type 0 where
  -- It begins inside a character of UTF-8, and no NUL follows.
  split_character :
      (b c : ℕ) (s : List ℕ)
      → leb 0x80 b && leb b 0xbf ≡ true
      → c ≢ 0
      → Undecodable python (b ∷ c ∷ s)
  -- More brackets than the interpreter admits, then anything in ASCII but NUL.
  too_deep :
      (n : ℕ) (rest : List ℕ)
      → python.depth < n
      → all is_plain rest ≡ true
      → Undecodable python (nested n rest)
  -- An integer of more than 4300 digits.
  too_long :
      (ds : List ℕ)
      → is_number ds ≡ true
      → all is_decimal ds ≡ true
      → 4300 < length ds
      → Undecodable python ds

-- Three kinds of body make `json.loads` raise an exception that is answered with 500, not with the
-- 400 of a body that is not JSON: one that begins with a continuation byte of UTF-8 and then a byte
-- that is not zero, one that begins with more opening brackets than the interpreter admits and goes
-- on in ASCII without NUL, and an integer of more than 4300 digits.
pub sanitize_query-Undecodable :
    (python : Interpreter) {body : List ℕ}
    → Undecodable python body
    → (e : Exception) × (sanitize_query (loads python) body ≡ raised e) × (answered_status e ≡ 500)
unfolding sanitize_query decode_failure answered_status
sanitize_query-Undecodable python (split_character b c s inside next) =
    (unicode_decode_error, rw (loads-continuation python b c s inside next) refl, refl)
sanitize_query-Undecodable python (too_deep n rest deep plain) =
    (recursion_error, rw (loads-nested python n rest deep plain) refl, refl)
sanitize_query-Undecodable python (too_long ds number digits long) =
    (value_error, rw (loads-long python ds number digits long) refl, refl)
