-- ===== src/Py/Json/Print.antt =====
-- JSON as clients write it: `JSON.stringify`, and `json.dumps(value, ensure_ascii=False)`.
pub mod Strings
pub mod Numbers
pub mod Values
pub mod Texts
pub mod RoundTrip
pub mod Encoded
pub mod Dicts
use Prim.Native.Nat.{◌/◌, ◌%◌}
use honest_agent.Prelude.{
  ℕ, zero, suc, ◌+◌, ◌-◌, Bool, true, false, ◌&&◌, ◌++◌, [], ◌∷◌, ltb, leb, ◌==◌, if◌then◌else◌,
  all, length,
}
use honest_agent.Py.Str.{Str, codes}
use honest_agent.Py.Str.Decimal.{decimal}
use honest_agent.Py.Utf8.RoundTrip.{is_scalar}
use honest_agent.Py.Value.{
  Float, ℤ, pos, negsuc, Fields, end, field, Items, no_items, item, Value, obj, arr, str, int,
  float, bool, null,
}
use honest_agent.Py.Json.Decode.{set}

unfoldable pub hex_char : ℕ → ℕ
hex_char d = if ltb d 10 then b'0' + d else b'a' + d - 10

unfoldable pub print_char : ℕ → Str
unfolding hex_char
print_char c =
    if c == b'"'
    then b'\\' ∷ b'"' ∷ []
    else if c == b'\\'
    then b'\\' ∷ b'\\' ∷ []
    else if c == 8
    then b'\\' ∷ b'b' ∷ []
    else if c == 9
    then b'\\' ∷ b't' ∷ []
    else if c == 10
    then b'\\' ∷ b'n' ∷ []
    else if c == 12
    then b'\\' ∷ b'f' ∷ []
    else if c == 13
    then b'\\' ∷ b'r' ∷ []
    else if leb c 0x1f
    then b'\\' ∷ b'u' ∷ b'0' ∷ b'0' ∷ hex_char (c / 16) ∷ hex_char (c % 16) ∷ []
    else c ∷ []

-- The characters of a literal and its last quote.
unfoldable pub print_chars : Str → Str
unfolding print_char
print_chars [] = b'"' ∷ []
print_chars (c ∷ s) = print_char c ++ print_chars s

unfoldable pub print_int : ℤ → Str
unfolding decimal
print_int (pos n) = decimal n
print_int (negsuc n) = b'-' ∷ decimal (suc n)

-- `repr` is how a float is written, and `space` what follows a comma and a colon: a blank by
-- default, nothing from `JSON.stringify`.
module _ (repr : Float → Str) (space : Str) where
  unfoldable mutual
    pub print : Value → Str
    print (obj end) = codes "{}"
    print (obj (field k v fs)) =
        b'{' ∷ b'"' ∷ (print_chars k ++ (b':' ∷ (space ++ (print v ++ print_fields fs))))
    print (arr no_items) = codes "[]"
    print (arr (item v vs)) = b'[' ∷ (print v ++ print_items vs)
    print (str s) = b'"' ∷ print_chars s
    print (int z) = print_int z
    print (float x) = repr x
    print (bool true) = codes "true"
    print (bool false) = codes "false"
    print null = codes "null"

    -- What follows an item, to the last bracket.
    pub print_items : Items → Str
    print_items no_items = b']' ∷ []
    print_items (item v vs) = b',' ∷ (space ++ (print v ++ print_items vs))

    pub print_fields : Fields → Str
    print_fields end = b'}' ∷ []
    print_fields (field k v fs) =
        b','
        ∷ (space ++ (b'"' ∷ (print_chars k ++ (b':' ∷ (space ++ (print v ++ print_fields fs))))))

-- The dict that entries fill one after the other, on top of `d`: a later entry of a key wins.
unfoldable mutual
  pub dict_of : Value → Value
  dict_of (obj fs) = obj (fill end fs)
  dict_of (arr vs) = arr (dicts_of vs)
  dict_of v = v

  pub dicts_of : Items → Items
  dicts_of no_items = no_items
  dicts_of (item v vs) = item (dict_of v) (dicts_of vs)

  pub fill : Fields → Fields → Fields
  fill d end = d
  fill d (field k v fs) = fill (set k (dict_of v) d) fs

-- Values that are read back: at most `depth` containers inside each other, texts without
-- surrogates, integers of at most 4300 digits, and no floats.
unfoldable mutual
  pub is_readable : ℕ → Value → Bool
  is_readable zero (obj fs) = false
  is_readable (suc depth) (obj fs) = are_readable_fields depth fs
  is_readable zero (arr vs) = false
  is_readable (suc depth) (arr vs) = are_readable depth vs
  is_readable depth (str s) = all is_scalar s
  is_readable depth (int (pos n)) = leb (length (decimal n)) 4300
  is_readable depth (int (negsuc n)) = leb (length (decimal (suc n))) 4300
  is_readable depth (float x) = false
  is_readable depth (bool b) = true
  is_readable depth null = true

  pub are_readable : ℕ → Items → Bool
  are_readable depth no_items = true
  are_readable depth (item v vs) = is_readable depth v && are_readable depth vs

  pub are_readable_fields : ℕ → Fields → Bool
  are_readable_fields depth end = true
  are_readable_fields depth (field k v fs) =
      all is_scalar k && (is_readable depth v && are_readable_fields depth fs)
