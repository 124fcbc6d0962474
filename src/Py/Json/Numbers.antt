-- ===== src/Py/Json/Numbers.antt =====
-- `_match_number`: a number from the front of a text.
use honest_agent.Prelude.{
  ℕ, zero, suc, ◌+◌, ◌-◌, ◌*◌, ◌≡◌, refl, Bool, true, false, ◌&&◌, ◌||◌, Option, none, some, [],
  ◌∷◌, ◌++◌, ltb, leb, ◌==◌, if◌then◌else◌, length,
}
use honest_agent.Py.Str.{Str, codes, is_empty}
use honest_agent.Py.Value.{Float, ℤ, pos, negsuc, Value, int, float}
use honest_agent.Py.Exec.{value_error, json_decode_error, Result, ok, raised}

unfoldable pub is_decimal : ℕ → Bool
is_decimal c = leb b'0' c && leb c b'9'

-- The digits at the front, and the rest.
unfoldable pub span_digits : Str → Str × Str
unfolding is_decimal
span_digits [] = ([], [])
span_digits (c ∷ s) =
    let (ds, rest) = span_digits s in if is_decimal c then (c ∷ ds, rest) else ([], c ∷ s)

-- `0`, or digits that begin with another one.
unfoldable pub integer_part : Str → Option (Str × Str)
unfolding span_digits
integer_part [] = none
integer_part (c ∷ s) =
    let (ds, rest) = span_digits s in
    if c == b'0' then some (c ∷ [], s) else if is_decimal c then some (c ∷ ds, rest) else none

-- A point and one digit at least, if they are there.
unfoldable pub fraction : Str → Str × Str
unfolding span_digits is_empty
fraction [] = ([], [])
fraction (c ∷ s) =
    let (ds, rest) = span_digits s in
    if c == b'.' && (if is_empty ds then false else true) then (c ∷ ds, rest) else ([], c ∷ s)

unfoldable pub sign : Str → Str × Str
sign [] = ([], [])
sign (c ∷ s) = if c == b'+' || c == b'-' then (c ∷ [], s) else ([], c ∷ s)

-- An `e`, a sign or none, and one digit at least, if they are there.
unfoldable pub exponent : Str → Str × Str
unfolding sign span_digits is_empty
exponent [] = ([], [])
exponent (c ∷ s) =
    let (plus, t) = sign s in
    let (ds, rest) = span_digits t in
    if (c == b'e' || c == b'E') && (if is_empty ds then false else true)
    then (c ∷ plus ++ ds, rest)
    else ([], c ∷ s)

-- The number that digits spell behind `n`.
unfoldable pub digits_value : ℕ → Str → ℕ
digits_value n [] = n
digits_value n (c ∷ s) = digits_value (n * 10 + (c - b'0')) s

unfoldable pub signed : Bool → ℕ → ℤ
signed false n = pos n
signed true zero = pos 0
signed true (suc n) = negsuc n

-- `int` of the digits, more than 4300 of which are refused.
unfoldable pub read_int : Bool → Str → Result Value
unfolding digits_value signed
read_int negative ds =
    if ltb 4300 (length ds)
    then raised value_error
    else ok (int (signed negative (digits_value 0 ds)))

module _ (parse_float : Str → Float) where
  -- A number with a fraction or an exponent is a float, else an int.
  unfoldable pub read_number : (negative : Bool) (whole decimals power : Str) → Result Value
  unfolding read_int
  read_number negative ds [] [] = read_int negative ds
  read_number negative ds fs es =
      ok (float (parse_float ((if negative then b'-' ∷ [] else []) ++ ds ++ fs ++ es)))

  unfoldable pub match_unsigned : Bool → Str → Result (Value × Str)
  unfolding integer_part fraction exponent read_number
  match_unsigned negative s = elim (integer_part s) [
    | none ↦ raised json_decode_error
    | some (ds, t) ↦
        let (fs, u) = fraction t in
        let (es, rest) = exponent u in
        elim (read_number negative ds fs es) [ raised e ↦ raised e | ok v ↦ ok (v, rest) ]
  ]

  unfoldable pub match_number : Str → Result (Value × Str)
  unfolding match_unsigned
  match_number [] = raised json_decode_error
  match_number (c ∷ s) = if c == b'-' then match_unsigned true s else match_unsigned false (c ∷ s)

  match_number_tests :
      (match_number (codes "-120,") ≡ ok (int (negsuc 119), codes ","))
      × (match_number (codes "0123") ≡ ok (int (pos 0), codes "123"))
      × (match_number (codes "1.5e+3]") ≡ ok (float (parse_float (codes "1.5e+3")), codes "]"))
      × (match_number (codes "1.e5") ≡ ok (int (pos 1), codes ".e5"))
      × (match_number (codes "1e+") ≡ ok (int (pos 1), codes "e+"))
      × (match_number (codes "-") ≡ raised json_decode_error)
  unfolding match_number codes
  match_number_tests = (refl, refl, refl, refl, refl, refl)
