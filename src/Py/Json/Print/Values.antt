-- ===== src/Py/Json/Print/Values.antt =====
-- A printed value is read back, with whatever ends it left.
use honest_agent.Prelude.{
  ℕ, suc, ◌≡◌, refl, Bool, true, false, not, ◌&&◌, [], ◌∷◌, ◌++◌, arith, ◌==◌, all, length,
}
use honest_agent.Py.Str.{Str, codes, drop_while}
use honest_agent.Py.Value.{
  Float, ℤ, pos, negsuc, Fields, end, field, Items, no_items, item, Value, obj, arr, str, int,
  float, bool, null,
}
use honest_agent.Py.Exec.{Result, ok}
use honest_agent.Py.Json.Numbers.{is_decimal, match_number}
use honest_agent.Py.Json.Decode.{
  is_ws, skip, set, after, match_word, scan_scalar, separator, expect, read_string, scan_items,
  scan_array, scan_pair, scan_fields, scan_object, scan_with,
}
use honest_agent.Py.Json.Print.{print_chars, print_int, print, is_readable}
use honest_agent.Py.Json.Print.Strings.{scan_string-print_chars}
use honest_agent.Py.Json.Print.Numbers.{ends_value, decimal-head, match_unsigned-decimal}

-- The texts that are read as numbers: no word begins like them.
pub match_unsigned-head :
    (parse_float : Str → Float) (object array : Str → Result (Value × Str)) (c : ℕ) (s : Str)
    → is_decimal c ≡ true
    → scan_with object array parse_float (c ∷ s) ≡ match_number parse_float (c ∷ s)
unfolding scan_with scan_scalar match_word after codes is_decimal
match_unsigned-head parse_float object array c s h = ground arith

match_minus-head :
    (parse_float : Str → Float) (object array : Str → Result (Value × Str)) (c : ℕ) (s : Str)
    → is_decimal c ≡ true
    → scan_with object array parse_float (b'-' ∷ c ∷ s) ≡ match_number parse_float (b'-' ∷ c ∷ s)
unfolding scan_with scan_scalar match_word after codes is_decimal
match_minus-head parse_float object array c s h = ground arith

module _ (parse_float : Str → Float) (object array : Str → Result (Value × Str)) (rest : Str)
    (e : ends_value rest ≡ true) where
  pub scan_with-print_int :
      (depth : ℕ) (z : ℤ)
      → is_readable depth (int z) ≡ true
      → scan_with object array parse_float (print_int z ++ rest) ≡ ok (int z, rest)
  unfolding print_int is_readable match_number is_decimal
  scan_with-print_int depth (pos n) r =
      let (c, (s, shown, digit)) = decimal-head n in
      let read = match_unsigned-decimal parse_float rest e false n in
      ground (arith, match_unsigned-head parse_float object array c (s ++ rest))
  scan_with-print_int depth (negsuc n) r =
      let (c, (s, shown, digit)) = decimal-head (suc n) in
      let read = match_unsigned-decimal parse_float rest e true (suc n) in
      ground (arith, match_minus-head parse_float object array c (s ++ rest))

-- The text goes on, and not with white space or a closing bracket.
unfoldable pub starts_value : Str → Bool
starts_value [] = false
starts_value (c ∷ s) = not (is_ws c) && not (c == b']')

pub starts_value-print :
    (repr : Float → Str) (space : Str) (depth : ℕ) (v : Value) (rest : Str)
    → is_readable depth v ≡ true
    → starts_value (print repr space v ++ rest) ≡ true
unfolding starts_value is_ws print codes is_readable
starts_value-print repr space depth (obj end) rest r = refl
starts_value-print repr space depth (obj (field k v fs)) rest r = refl
starts_value-print repr space depth (arr no_items) rest r = refl
starts_value-print repr space depth (arr (item v vs)) rest r = refl
starts_value-print repr space depth (str s) rest r = refl
starts_value-print repr space depth (int (pos n)) rest r =
    let (c, (s, shown, digit)) = decimal-head n in unfold print_int is_decimal in ground arith
starts_value-print repr space depth (int (negsuc n)) rest r = unfold print_int in refl
starts_value-print repr space depth (float x) rest r = absurd (ground arith)
starts_value-print repr space depth (bool true) rest r = refl
starts_value-print repr space depth (bool false) rest r = refl
starts_value-print repr space depth null rest r = refl

skip-starts_value : (s : Str) → starts_value s ≡ true → skip s ≡ s
unfolding skip drop_while starts_value
skip-starts_value [] h = refl
skip-starts_value (c ∷ s) h = ground arith

skip-space :
    (space s : Str) → all is_ws space ≡ true → starts_value s ≡ true → skip (space ++ s) ≡ s
unfolding skip drop_while
skip-space [] s h k = skip-starts_value s k
skip-space (c ∷ space) s h k = ground (arith, skip-space space s)

-- The separators behind a printed value.
unfoldable pub item_count : Items → ℕ
item_count no_items = 0
item_count (item v vs) = suc (item_count vs)

unfoldable pub field_count : Fields → ℕ
field_count end = 0
field_count (field k v fs) = suc (field_count fs)

pub read_string-print_chars : (key t : Str) → read_string (print_chars key ++ t) ≡ ok (key, t)
unfolding read_string
read_string-print_chars key t = rw (scan_string-print_chars key t, read_string) refl

module _ (space : Str) (ws : all is_ws space ≡ true) (value : Str → Result (Value × Str)) where
  pub scan_pair-print :
      (key t rest : Str) (x : Value)
      → starts_value t ≡ true
      → value t ≡ ok (x, rest)
      → scan_pair value (b'"' ∷ (print_chars key ++ (b':' ∷ (space ++ t)))) ≡ ok (key, (x, rest))
  unfolding scan_pair expect
  scan_pair-print key t rest x plain read =
      let colon : skip (b':' ∷ (space ++ t)) ≡ b':' ∷ (space ++ t) =
        unfold skip drop_while is_ws in refl in
      ground (
        arith,
        read_string-print_chars key (b':' ∷ (space ++ t)),
        colon,
        skip-space space t,
        ws,
        plain,
        read,
      )

  -- The last item, and an item with others behind it.
  pub scan_items-last :
      (fuel : ℕ) (t rest : Str) (x : Value)
      → value t ≡ ok (x, b']' ∷ rest)
      → scan_items value (suc fuel) t ≡ ok (item x no_items, rest)
  unfolding scan_items separator skip drop_while is_ws
  scan_items-last fuel t rest x read = rw (read, scan_items) refl

  pub scan_items-more :
      (fuel : ℕ) (t u rest : Str) (x : Value) (xs : Items)
      → value t ≡ ok (x, b',' ∷ (space ++ u))
      → starts_value u ≡ true
      → scan_items value fuel u ≡ ok (xs, rest)
      → scan_items value (suc fuel) t ≡ ok (item x xs, rest)
  unfolding scan_items separator skip drop_while is_ws
  scan_items-more fuel t u rest x xs read plain others =
      rw (read, scan_items) (rw (skip-space space u ws plain, skip) (rw others refl))

  pub scan_fields-last :
      (fuel : ℕ) (d : Fields) (key t rest : Str) (x : Value)
      → scan_pair value t ≡ ok (key, (x, b'}' ∷ rest))
      → scan_fields value (suc fuel) d t ≡ ok (set key x d, rest)
  unfolding scan_fields separator skip drop_while is_ws
  scan_fields-last fuel d key t rest x read = rw (read, scan_fields) refl

  pub scan_fields-more :
      (fuel : ℕ) (d fs : Fields) (key t u rest : Str) (x : Value)
      → scan_pair value t ≡ ok (key, (x, b',' ∷ (space ++ u)))
      → starts_value u ≡ true
      → scan_fields value fuel (set key x d) u ≡ ok (fs, rest)
      → scan_fields value (suc fuel) d t ≡ ok (fs, rest)
  unfolding scan_fields separator skip drop_while is_ws
  scan_fields-more fuel d fs key t u rest x read plain others =
      rw (read, scan_fields) (rw (skip-space space u ws plain, skip) (rw others refl))

-- A bracket with something behind it.
pub scan_array-starts_value :
    (value : Str → Result (Value × Str)) (t rest : Str) (xs : Items)
    → starts_value t ≡ true
    → scan_items value (length t) t ≡ ok (xs, rest)
    → scan_array value t ≡ ok (arr xs, rest)
unfolding scan_array starts_value
scan_array-starts_value value [] rest xs plain read = absurd (ground arith)
scan_array-starts_value value (c ∷ t) rest xs plain read = ground (arith, skip-starts_value (c ∷ t))

-- A brace with a key behind it.
pub scan_object-quote :
    (value : Str → Result (Value × Str)) (s rest : Str) (fs : Fields)
    → scan_fields value (suc (length s)) end (b'"' ∷ s) ≡ ok (fs, rest)
    → scan_object value (b'"' ∷ s) ≡ ok (obj fs, rest)
unfolding scan_object skip drop_while is_ws
scan_object-quote value s rest fs read = rw (read, scan_object) refl
