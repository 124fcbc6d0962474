-- ===== src/Tenants/Gate/Declared.antt =====
-- What the gate's middleware makes of a declared length (backend/src/app/tenants/gate.py,
-- `visitor_gate_middleware`).
use Prim.Native.Nat.{◌/◌, ◌%◌}
use honest_agent.Prelude.{
  ℕ, zero, suc, ◌+◌, ◌<◌, ◌≤◌, ◌≡◌, refl, ◌∙◌, true, some, [], ◌∷◌, all, arith, ltb, length,
  if◌then◌else◌,
}
use honest_agent.Py.Str.{Str, codes, starts_with}
use honest_agent.Py.Str.Decimal.{decimal_digits, decimal}
use honest_agent.Py.Unicode.{Unicode}
use honest_agent.Py.Value.{pos, Value}
use honest_agent.Py.Exec.{Result, ok, Action}
use honest_agent.Py.Json.Numbers.{is_decimal}
use honest_agent.Py.Json.Print.Numbers.{is_number, decimal-is_number, decimal-is_decimal}
use honest_agent.Core.Errors.{Response, app_error_response, status_code}
use honest_agent.Tenants.Gate.{
  Bytes, VisitorGate, Request, admit, too_large, widget_path_prefix, visitor_gate_middleware,
}
use honest_agent.Tenants.Gate.Checks.{exceeds, read_digits, parse_int, is_digits, declares_more}

-- What Python says of the digits of ASCII.
pub record ReadsDigits (unicode : Unicode) : Type 0 where
  pub is_digit : (c : ℕ) → is_decimal c ≡ true → unicode.is_digit c ≡ true
  pub digit_value : (d : ℕ) → d < 10 → unicode.digit_value (48 + d) ≡ some d

module _ (unicode : Unicode) (laws : ReadsDigits unicode) where
  read_digits-decimal_digits :
      (fuel n : ℕ) (done : Str)
      → n < fuel
      → read_digits unicode 0 (decimal_digits fuel n done) ≡ read_digits unicode n done
  unfolding decimal_digits read_digits
  read_digits-decimal_digits zero n done h = absurd (ground arith)
  read_digits-decimal_digits (suc fuel) n done h = ground (
    arith,
    read_digits-decimal_digits fuel (n / 10) ((48 + n % 10) ∷ done),
    laws.digit_value n,
    laws.digit_value (n % 10),
  )

  parse_int-decimal : (n : ℕ) → length (decimal n) ≤ 4300 → parse_int unicode (decimal n) ≡ ok n
  unfolding parse_int
  parse_int-decimal n short =
      let digits : read_digits unicode 0 (decimal n) ≡ some n =
        unfold decimal in
        read_digits-decimal_digits (suc n) n [] (omega arith) ∙ unfold read_digits in refl in
      ground arith

  all-is_decimal : (s : Str) → all is_decimal s ≡ true → all unicode.is_digit s ≡ true
  all-is_decimal [] h = refl
  all-is_decimal (c ∷ s) h = ground (arith, laws.is_digit c, all-is_decimal s)

  is_digits-number :
      (s : Str) → is_number s ≡ true → all is_decimal s ≡ true → is_digits unicode s ≡ true
  unfolding is_digits is_number
  is_digits-number [] n h = absurd (ground arith)
  is_digits-number (c ∷ s) n h = all-is_decimal (c ∷ s) h

  declares_more-decimal :
      (n limit : ℕ)
      → length (decimal n) ≤ 4300
      → declares_more unicode (some (decimal n)) (pos limit) ≡ ok (ltb limit n)
  unfolding declares_more exceeds
  declares_more-decimal n limit short =
      let digits = is_digits-number (decimal n) (decimal-is_number n) (decimal-is_decimal n) in
      ground (arith, parse_int-decimal n short)

  -- On the widget path, with Python's reading of the digits of ASCII, where the Content-Length is a
  -- number written in decimal, in at most 4300 digits, and the gate's limit is not negative: if the
  -- number is over the limit, the answer has status 413 and nothing else happens, the body is not
  -- read and no collaborator is called; if it is not, the middleware goes on to the reading of the
  -- body.
  pub middleware-declared :
      {S : Type 0} (loads : Bytes → Result Value) (gate : VisitorGate S) (request : Request S)
      (next : Request S → Action S Response) (n limit : ℕ) (s : S)
      → gate.max_body_bytes ≡ pos limit
      → starts_with widget_path_prefix request.path ≡ true
      → request.header (codes "content-length") ≡ some (decimal n)
      → length (decimal n) ≤ 4300
      → (response : Response) × (response.status_code ≡ 413)
        × (visitor_gate_middleware unicode loads gate request next s
            ≡ (if ltb limit n then (ok response, s) else admit unicode loads gate request next s))
  unfolding visitor_gate_middleware
  middleware-declared loads gate request next n limit s limited on given short = (
    too_large request.path,
    unfold too_large app_error_response status_code in refl,
    ground (arith, declares_more-decimal n limit short),
  )
