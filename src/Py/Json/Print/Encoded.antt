-- ===== src/Py/Json/Print/Encoded.antt =====
-- `json.loads` on the UTF-8 bytes of a printed object.

use honest_agent.Prelude.{
  ℕ, zero, suc, ◌≡◌, refl, ◌∙◌, Bool, true, false, [], ◌∷◌, ◌++◌, append-nil, arith, all,
}
use honest_agent.Py.Str.{Str, codes, drop_while}
use honest_agent.Py.Str.Decimal.{decimal}
use honest_agent.Py.Utf8.{decode_surrogatepass}
use honest_agent.Py.Utf8.RoundTrip.{is_scalar, encode_char, encode, decode_surrogatepass-encode}
use honest_agent.Py.Value.{
  Float, pos, negsuc, Fields, end, field, Items, no_items, item, Value, obj, arr, str, int, float,
  bool, null,
}
use honest_agent.Py.Exec.{ok}
use honest_agent.Py.Json.Encoding.{decode_body, decode_body-utf_8}
use honest_agent.Py.Json.Numbers.{is_decimal}
use honest_agent.Py.Json.Decode.{Interpreter, is_ws, skip, scan_once, decode_text, loads}
use honest_agent.Py.Json.Print.{
  hex_char, print_char, print_chars, print_int, print, print_items, print_fields, dict_of,
  is_readable, are_readable, are_readable_fields,
}
use honest_agent.Py.Json.Print.Numbers.{ends_value, decimal-is_decimal}
use honest_agent.Py.Json.Print.RoundTrip.{scan_once-print}

abbrev scalars : Str → Bool
scalars = all is_scalar

scalars-append : (s t : Str) → scalars s ≡ true → scalars t ≡ true → scalars (s ++ t) ≡ true
scalars-append [] t h k = k
scalars-append (c ∷ s) t h k = ground (arith, scalars-append s t)

scalars-is_decimal : (s : Str) → all is_decimal s ≡ true → scalars s ≡ true
unfolding is_decimal is_scalar
scalars-is_decimal [] h = refl
scalars-is_decimal (c ∷ s) h = ground (arith, scalars-is_decimal s)

scalars-is_ws : (s : Str) → all is_ws s ≡ true → scalars s ≡ true
unfolding is_ws is_scalar
scalars-is_ws [] h = refl
scalars-is_ws (c ∷ s) h = ground (arith, scalars-is_ws s)

print_char-scalars : (c : ℕ) → is_scalar c ≡ true → scalars (print_char c) ≡ true
unfolding print_char hex_char is_scalar
print_char-scalars c h = ground arith

print_chars-scalars : (s : Str) → scalars s ≡ true → scalars (print_chars s) ≡ true
unfolding print_chars
print_chars-scalars [] h = unfold is_scalar in refl
print_chars-scalars (c ∷ s) h =
    scalars-append (print_char c) (print_chars s) (print_char-scalars c (ground arith))
      (print_chars-scalars s (ground arith))

module _ (repr : Float → Str) (space : Str) (ws : all is_ws space ≡ true) where
  key-scalars :
      (k t : Str)
      → scalars k ≡ true
      → scalars t ≡ true
      → scalars (print_chars k ++ (b':' ∷ (space ++ t))) ≡ true
  key-scalars k t h r =
      scalars-append (print_chars k) (b':' ∷ (space ++ t)) (print_chars-scalars k h)
        (unfold is_scalar in ground (arith, scalars-append space t (scalars-is_ws space ws) r))

  mutual
    unfolding print print_int codes is_scalar is_readable

    print-scalars :
        (depth : ℕ) (v : Value) → is_readable depth v ≡ true → scalars (print repr space v) ≡ true
    print-scalars zero (obj fs) r = absurd (ground arith)
    print-scalars (suc depth) (obj end) r = refl
    print-scalars (suc depth) (obj (field k v fs)) r =
        let others = print_fields-scalars depth fs (ground arith) in
        let t =
          scalars-append (print repr space v) (print_fields repr space fs)
            (print-scalars depth v (ground arith)) others in
        key-scalars k (print repr space v ++ print_fields repr space fs) (ground arith) t
    print-scalars zero (arr vs) r = absurd (ground arith)
    print-scalars (suc depth) (arr no_items) r = refl
    print-scalars (suc depth) (arr (item v vs)) r =
        scalars-append (print repr space v) (print_items repr space vs)
          (print-scalars depth v (ground arith)) (print_items-scalars depth vs (ground arith))
    print-scalars depth (str s) r = print_chars-scalars s (ground arith)
    print-scalars depth (int (pos n)) r = scalars-is_decimal (decimal n) (decimal-is_decimal n)
    print-scalars depth (int (negsuc n)) r =
        scalars-is_decimal (decimal (suc n)) (decimal-is_decimal (suc n))
    print-scalars depth (float x) r = absurd (ground arith)
    print-scalars depth (bool true) r = refl
    print-scalars depth (bool false) r = refl
    print-scalars depth null r = refl

    print_items-scalars :
        (depth : ℕ) (vs : Items)
        → are_readable depth vs ≡ true
        → scalars (print_items repr space vs) ≡ true
    print_items-scalars depth no_items r = refl
    print_items-scalars depth (item v vs) r =
        scalars-append space (print repr space v ++ print_items repr space vs)
          (scalars-is_ws space ws)
          (scalars-append (print repr space v) (print_items repr space vs)
            (print-scalars depth v (ground arith)) (print_items-scalars depth vs (ground arith)))

    print_fields-scalars :
        (depth : ℕ) (fs : Fields)
        → are_readable_fields depth fs ≡ true
        → scalars (print_fields repr space fs) ≡ true
    print_fields-scalars depth end r = refl
    print_fields-scalars depth (field k v fs) r =
        let others = print_fields-scalars depth fs (ground arith) in
        let t =
          scalars-append (print repr space v) (print_fields repr space fs)
            (print-scalars depth v (ground arith)) others in
        scalars-append space
          (b'"'
            ∷ (print_chars k
                ++ (b':' ∷ (space ++ (print repr space v ++ print_fields repr space fs)))))
          (scalars-is_ws space ws)
          (key-scalars k (print repr space v ++ print_fields repr space fs) (ground arith) t)

  -- A printed object begins with a brace and a character that is no zero.
  decode_body-surrogatepass :
      (fs : Fields)
      → decode_body (encode (print repr space (obj fs)))
        ≡ decode_surrogatepass (encode (print repr space (obj fs)))
  unfolding print codes encode encode_char
  decode_body-surrogatepass end = decode_body-utf_8 b'{' b'}' [] (omega arith) (omega arith) refl
  decode_body-surrogatepass (field k v fs) =
      decode_body-utf_8 b'{' b'"' _ (omega arith) (omega arith) refl

  decode_body-print :
      (depth : ℕ) (fs : Fields)
      → is_readable depth (obj fs) ≡ true
      → decode_body (encode (print repr space (obj fs))) ≡ ok (print repr space (obj fs))
  decode_body-print depth fs r =
      decode_body-surrogatepass fs
      ∙ decode_surrogatepass-encode (print repr space (obj fs)) (print-scalars depth (obj fs) r)

  skip-print : (fs : Fields) → skip (print repr space (obj fs)) ≡ print repr space (obj fs)
  unfolding skip drop_while is_ws print codes
  skip-print end = refl
  skip-print (field k v fs) = refl

  scan_once-whole :
      (python : Interpreter) (fs : Fields)
      → is_readable python.depth (obj fs) ≡ true
      → scan_once python.parse_float python.depth (print repr space (obj fs))
        ≡ ok (dict_of (obj fs), [])
  unfolding ends_value
  scan_once-whole python fs r =
      rw (← append-nil (print repr space (obj fs)))
        (scan_once-print python.parse_float repr space ws (obj fs) python.depth r [] refl)

  -- With interpreter depth for its containers, a printed object is read back as the dict that its
  -- entries fill, whatever the texts and the integers in it; a later entry of a key wins.
  pub loads-print :
      (python : Interpreter) (fs : Fields)
      → is_readable python.depth (obj fs) ≡ true
      → loads python (encode (print repr space (obj fs))) ≡ ok (dict_of (obj fs))
  unfolding loads decode_text
  loads-print python fs r =
      ground
        (arith, decode_body-print python.depth fs r, skip-print fs, scan_once-whole python fs r)
