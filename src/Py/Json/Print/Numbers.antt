-- ===== src/Py/Json/Print/Numbers.antt =====
-- A printed integer is read back.
use Prim.Native.Nat.{◌/◌, ◌%◌}
use honest_agent.Prelude.{
  ℕ, zero, suc, ◌+◌, ◌<◌, ◌≡◌, refl, ◌≢◌, Bool, true, false, not, ◌&&◌, ◌||◌, some, [], ◌∷◌, ◌++◌,
  arith, leb, ◌==◌, if◌then◌else◌, all, length,
}
use honest_agent.Py.Str.{Str}
use honest_agent.Py.Str.Decimal.{decimal_digits, decimal}
use honest_agent.Py.Value.{Float, int}
use honest_agent.Py.Exec.{ok}
use honest_agent.Py.Json.Numbers.{
  is_decimal, span_digits, integer_part, fraction, exponent, digits_value, signed, read_int,
  read_number, match_unsigned,
}

-- The text ends, or goes on with a character that ends a value.
unfoldable pub ends_value : Str → Bool
ends_value [] = true
ends_value (c ∷ s) = c == b',' || (c == b']' || c == b'}')

decimal_digits-digits_value :
    (fuel n : ℕ) (done : Str)
    → n < fuel
    → digits_value 0 (decimal_digits fuel n done) ≡ digits_value n done
unfolding decimal_digits digits_value
decimal_digits-digits_value zero n done h = absurd (ground arith)
decimal_digits-digits_value (suc fuel) n done h =
    ground (arith, decimal_digits-digits_value fuel (n / 10) ((48 + n % 10) ∷ done))

decimal_digits-is_decimal :
    (fuel n : ℕ) (done : Str)
    → all is_decimal done ≡ true
    → n < fuel
    → all is_decimal (decimal_digits fuel n done) ≡ true
unfolding decimal_digits is_decimal
decimal_digits-is_decimal zero n done d h = absurd (ground arith)
decimal_digits-is_decimal (suc fuel) n done d h =
    ground (arith, decimal_digits-is_decimal fuel (n / 10) ((48 + n % 10) ∷ done))

-- A first digit, and whether others may follow it.
unfoldable pub is_number : Str → Bool
is_number [] = false
is_number (c ∷ s) = is_decimal c && (not (c == b'0') || (if length s == 0 then true else false))

decimal_digits-is_number :
    (fuel n : ℕ) (done : Str) → n < fuel → (n ≢ 0) → is_number (decimal_digits fuel n done) ≡ true
unfolding decimal_digits is_number is_decimal
decimal_digits-is_number zero n done h k = absurd (ground arith)
decimal_digits-is_number (suc fuel) n done h k =
    ground (arith, decimal_digits-is_number fuel (n / 10) ((48 + n % 10) ∷ done))

span_digits-append :
    (ds rest : Str)
    → all is_decimal ds ≡ true
    → ends_value rest ≡ true
    → span_digits (ds ++ rest) ≡ (ds, rest)
unfolding span_digits is_decimal ends_value
span_digits-append [] [] d e = refl
span_digits-append [] (c ∷ rest) d e = ground arith
span_digits-append (c ∷ ds) rest d e = ground (arith, span_digits-append ds rest)

pub integer_part-append :
    (ds rest : Str)
    → is_number ds ≡ true
    → all is_decimal ds ≡ true
    → ends_value rest ≡ true
    → integer_part (ds ++ rest) ≡ some (ds, rest)
unfolding integer_part is_number is_decimal
integer_part-append [] rest n d e = absurd (ground arith)
integer_part-append (c ∷ []) rest n d e = ground (arith, span_digits-append [] rest)
integer_part-append (c ∷ x ∷ ds) rest n d e = ground (arith, span_digits-append (x ∷ ds) rest)

fraction-end : (rest : Str) → ends_value rest ≡ true → fraction rest ≡ ([], rest)
unfolding fraction ends_value
fraction-end [] e = refl
fraction-end (c ∷ rest) e = ground arith

exponent-end : (rest : Str) → ends_value rest ≡ true → exponent rest ≡ ([], rest)
unfolding exponent ends_value
exponent-end [] e = refl
exponent-end (c ∷ rest) e = ground arith

pub decimal-is_number : (n : ℕ) → is_number (decimal n) ≡ true
unfolding decimal is_number is_decimal
decimal-is_number zero = unfold decimal_digits in refl
decimal-is_number (suc n) =
    decimal_digits-is_number (suc (suc n)) (suc n) [] (omega arith) (omega arith)

pub decimal-is_decimal : (n : ℕ) → all is_decimal (decimal n) ≡ true
unfolding decimal
decimal-is_decimal n = decimal_digits-is_decimal (suc n) n [] refl (omega arith)

digits_value-decimal : (n : ℕ) → digits_value 0 (decimal n) ≡ n
unfolding decimal digits_value
digits_value-decimal n = rw (decimal_digits-digits_value (suc n) n [] (omega arith)) refl

-- `print_int` writes no minus but the sign, and a digit first.
pub decimal-head : (n : ℕ) → (c : ℕ) × ((s : Str) × (decimal n ≡ c ∷ s) × (is_decimal c ≡ true))
decimal-head n = shown (decimal n) (decimal-is_number n)
  where
    shown :
        (ds : Str)
        → is_number ds ≡ true
        → (c : ℕ) × ((s : Str) × (ds ≡ c ∷ s) × (is_decimal c ≡ true))
    shown [] h = absurd (unfold is_number in ground arith)
    shown (c ∷ s) h = (c, (s, refl, unfold is_number in ground arith))

module _ (parse_float : Str → Float) (rest : Str) (e : ends_value rest ≡ true) where
  pub match_unsigned-decimal :
      (negative : Bool) (n : ℕ)
      → leb (length (decimal n)) 4300 ≡ true
      → match_unsigned parse_float negative (decimal n ++ rest) ≡ ok (int (signed negative n), rest)
  unfolding match_unsigned read_number read_int
  match_unsigned-decimal negative n short =
      rw
        (
          integer_part-append (decimal n) rest (decimal-is_number n) (decimal-is_decimal n) e,
          match_unsigned,
        )
        (ground (arith, fraction-end rest e, exponent-end rest e, digits_value-decimal n, short))
