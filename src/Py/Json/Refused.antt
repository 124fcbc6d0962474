-- ===== src/Py/Json/Refused.antt =====
-- Bodies that `json.loads` refuses with something other than a `JSONDecodeError`.
use honest_agent.Prelude.{
  ℕ, zero, suc, ◌<◌, ◌≡◌, refl, sym, ap, ◌≢◌, ◌∙◌, Bool, true, false, ◌&&◌, List, some, [], ◌∷◌,
  append-nil, arith, leb, all, length,
}
use honest_agent.Py.Str.{Str, drop_while, starts_with}
use honest_agent.Py.Utf8.{
  decode_surrogatepass, decode_surrogatepass-ascii, decode_surrogatepass-continuation,
}
use honest_agent.Py.Value.{Float}
use honest_agent.Py.Exec.{value_error, unicode_decode_error, recursion_error, ok, raised}
use honest_agent.Py.Json.Encoding.{
  decode_body, detect_encoding, by_zeros, decode_as, decode_body-utf_8,
}
use honest_agent.Py.Json.Print.Values.{match_unsigned-head}
use honest_agent.Py.Json.Numbers.{
  fraction, exponent, integer_part, is_decimal, match_number, match_unsigned, read_number, read_int,
}
use honest_agent.Py.Json.Decode.{
  Interpreter, is_ws, skip, scan_array, scan_object, scan_with, scan_once, decode_text, loads,
}
use honest_agent.Py.Json.Print.Numbers.{is_number, ends_value, integer_part-append}

-- A body that begins inside a character.
pub loads-continuation :
    (python : Interpreter) (b c : ℕ) (s : List ℕ)
    → leb 0x80 b && leb b 0xbf ≡ true
    → c ≢ 0
    → loads python (b ∷ c ∷ s) ≡ raised unicode_decode_error
unfolding loads
loads-continuation python b c s h k =
    rw
      (
        decode_body-utf_8 b c s (ground arith) k (ground arith)
            ∙ decode_surrogatepass-continuation b (c ∷ s) h,
        loads,
      )
      refl

abbrev pub is_plain : ℕ → Bool
is_plain b = leb 1 b && leb b 0x7f

ascii-is_plain : (s : Str) → all is_plain s ≡ true → all (λ b. leb b 0x7f) s ≡ true
ascii-is_plain [] h = refl
ascii-is_plain (b ∷ s) h = ground (arith, ascii-is_plain s)

decode_body-single : (b : ℕ) → b ≢ 0 → decode_body (b ∷ []) ≡ decode_surrogatepass (b ∷ [])
unfolding decode_body detect_encoding by_zeros decode_as starts_with
decode_body-single b h = ground arith

decode_body-is_plain : (s : Str) → all is_plain s ≡ true → decode_body s ≡ ok s
decode_body-is_plain [] h =
    unfold decode_body detect_encoding by_zeros decode_as in decode_surrogatepass-ascii [] refl
decode_body-is_plain (b ∷ []) h =
    decode_body-single b (ground arith)
    ∙ decode_surrogatepass-ascii (b ∷ []) (ascii-is_plain (b ∷ []) h)
decode_body-is_plain (b ∷ c ∷ s) h =
    decode_body-utf_8 b c s (ground arith) (ground arith) (ground arith)
    ∙ decode_surrogatepass-ascii (b ∷ c ∷ s) (ascii-is_plain (b ∷ c ∷ s) h)

-- `n` brackets, one inside the other.
unfoldable pub nested : ℕ → Str → Str
nested zero rest = rest
nested (suc n) rest = b'[' ∷ nested n rest

scan_once-nested :
    (parse_float : Str → Float) (depth n : ℕ) (rest : Str)
    → depth < n
    → scan_once parse_float depth (nested n rest) ≡ raised recursion_error
unfolding nested scan_once scan_with
scan_once-nested parse_float depth zero rest h = absurd (omega arith)
scan_once-nested parse_float zero (suc n) rest h = refl
scan_once-nested parse_float (suc depth) (suc zero) rest h = absurd (omega arith)
scan_once-nested parse_float (suc depth) (suc (suc n)) rest h =
    let inner = scan_once-nested parse_float depth (suc n) rest (omega arith) in rw inner refl

nested-is_plain :
    (n : ℕ) (rest : Str) → all is_plain rest ≡ true → all is_plain (nested n rest) ≡ true
unfolding nested
nested-is_plain zero rest h = h
nested-is_plain (suc n) rest h = nested-is_plain n rest h

-- More brackets than the interpreter admits, with anything in ASCII behind them.
pub loads-nested :
    (python : Interpreter) (n : ℕ) (rest : Str)
    → python.depth < n
    → all is_plain rest ≡ true
    → loads python (nested n rest) ≡ raised recursion_error
unfolding loads
loads-nested python zero rest h k = absurd (omega arith)
loads-nested python (suc n) rest h k =
    let read = decode_body-is_plain (nested (suc n) rest) (nested-is_plain (suc n) rest k) in
    let deep = scan_once-nested python.parse_float python.depth (suc n) rest h in
    rw (read, loads) (unfold decode_text skip drop_while is_ws nested in rw deep refl)

match_unsigned-long :
    (parse_float : Str → Float) (ds : Str)
    → is_number ds ≡ true
    → all is_decimal ds ≡ true
    → 4300 < length ds
    → match_unsigned parse_float false ds ≡ raised value_error
unfolding match_unsigned read_number read_int
match_unsigned-long parse_float ds n d h =
    let whole : integer_part ds ≡ some (ds, []) =
      rw (ap integer_part (sym (append-nil ds)))
        (integer_part-append ds [] n d (unfold ends_value in refl)) in
    rw (whole, match_unsigned) (unfold fraction exponent in ground arith)

skip-is_decimal : (c : ℕ) (s : Str) → is_decimal c ≡ true → skip (c ∷ s) ≡ c ∷ s
unfolding skip drop_while is_ws is_decimal
skip-is_decimal c s h = ground arith

scan_once-is_decimal :
    (parse_float : Str → Float) (depth c : ℕ) (s : Str)
    → is_decimal c ≡ true
    → scan_once parse_float depth (c ∷ s) ≡ match_unsigned parse_float false (c ∷ s)
unfolding scan_once match_number
scan_once-is_decimal parse_float zero c s h =
    match_unsigned-head parse_float (λ _. raised recursion_error) (λ _. raised recursion_error) c s
      h
    ∙ unfold is_decimal in ground arith
scan_once-is_decimal parse_float (suc depth) c s h =
    match_unsigned-head parse_float (scan_object (scan_once parse_float depth))
      (scan_array (scan_once parse_float depth)) c s h
    ∙ unfold is_decimal in ground arith

is_decimal-is_plain : (s : Str) → all is_decimal s ≡ true → all is_plain s ≡ true
unfolding is_decimal
is_decimal-is_plain [] h = refl
is_decimal-is_plain (c ∷ s) h = ground (arith, is_decimal-is_plain s)

-- An integer of more than 4300 digits, as the whole body.
pub loads-long :
    (python : Interpreter) (ds : Str)
    → is_number ds ≡ true
    → all is_decimal ds ≡ true
    → 4300 < length ds
    → loads python ds ≡ raised value_error
unfolding loads
loads-long python [] n d h = absurd (omega arith)
loads-long python (c ∷ s) n d h =
    let first : is_decimal c ≡ true = ground arith in
    let read = decode_body-is_plain (c ∷ s) (is_decimal-is_plain (c ∷ s) d) in
    let refused =
      scan_once-is_decimal python.parse_float python.depth c s first
      ∙ match_unsigned-long python.parse_float (c ∷ s) n d h in
    rw (read, loads)
      (unfold decode_text in rw (skip-is_decimal c s first, decode_text) (rw refused refl))
