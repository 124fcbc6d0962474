-- ===== src/Py/Json/Decode.antt =====
-- `scan_once` and `json.loads`: values by recursive descent.
use honest_agent.Prelude.{
  ℕ, zero, suc, Bool, true, false, Option, none, some, List, [], ◌∷◌, ◌||◌, ◌==◌, if◌then◌else◌,
  length,
}
use honest_agent.Py.Str.{Str, codes, drop_while, is_empty, str_eq}
use honest_agent.Py.Value.{
  Float, Fields, end, field, Items, no_items, item, Value, obj, arr, str, float, bool, null,
}
use honest_agent.Py.Exec.{json_decode_error, recursion_error, Result, ok, raised}
use honest_agent.Py.Exec.Checked.{◌>>=◌}
use honest_agent.Py.Json.Encoding.{decode_body}
use honest_agent.Py.Json.Strings.{scan_string}
use honest_agent.Py.Json.Numbers.{match_number}

-- What `json.loads` takes from the interpreter: how many containers may still be entered, one
-- inside the other, before the recursion limit; and `float` of a text.
pub record Interpreter : Type 0 where
  pub depth : ℕ
  pub parse_float : Str → Float

unfoldable pub is_ws : ℕ → Bool
is_ws c = c == b' ' || (c == b'\t' || (c == b'\n' || c == b'\r'))

unfoldable pub skip : Str → Str
unfolding is_ws drop_while
skip s = drop_while is_ws s

-- `d[key] = v`: a key that is there keeps its place.
unfoldable pub set : Str → Value → Fields → Fields
unfolding str_eq
set key v end = field key v end
set key v (field k w fs) =
    let rest = set key v fs in if str_eq key k then field k v fs else field k w rest

-- What stands behind `prefix`, if the text begins with it.
unfoldable pub after : Str → Str → Option Str
after [] s = some s
after (c ∷ p) [] = none
after (c ∷ p) (d ∷ s) = let rest = after p s in if c == d then rest else none

-- The bits of the floats that are no numbers.
abbrev nan : Value
nan = float 0x7ff8000000000000

abbrev infinity : Value
infinity = float 0x7ff0000000000000

abbrev minus_infinity : Value
minus_infinity = float 0xfff0000000000000

-- The words that stand for values.
abbrev pub words : List (Str × Value)
words =
    (codes "null", null)
    ∷ (codes "true", bool true)
    ∷ (codes "false", bool false)
    ∷ (codes "NaN", nan)
    ∷ (codes "Infinity", infinity)
    ∷ (codes "-Infinity", minus_infinity)
    ∷ []

unfoldable pub match_word : List (Str × Value) → Str → Option (Value × Str)
unfolding after
match_word [] s = none
match_word ((w, v) ∷ ws) s = elim (after w s) [
  | some rest ↦ some (v, rest)
  | none ↦ match_word ws s
]

-- A word, or else a number.
unfoldable pub scan_scalar : (Str → Float) → Str → Result (Value × Str)
unfolding match_word codes match_number
scan_scalar parse_float s = elim (match_word words s) [
  | some r ↦ ok r
  | none ↦ match_number parse_float s
]

-- `elements` behind one of them: the closing bracket (`true`) or a comma, and the rest.
unfoldable pub separator : ℕ → Str → Option (Bool × Str)
separator close [] = none
separator close (c ∷ s) =
    if c == close then some (true, s) else if c == b',' then some (false, s) else none

unfoldable pub expect : ℕ → Str → Result Str
expect c [] = raised json_decode_error
expect c (d ∷ s) = if d == c then ok s else raised json_decode_error

unfoldable pub read_string : Str → Result (Str × Str)
unfolding scan_string
read_string s = elim (scan_string s) [ none ↦ raised json_decode_error | some r ↦ ok r ]

-- The loops over what a container holds; `value` reads a value. The fuel is the length of the
-- text: each round takes a character at least, and more fuel changes nothing (Scans/Fuel).
module _ (value : Str → Result (Value × Str)) where
  unfoldable pub scan_items : ℕ → Str → Result (Items × Str)
  unfolding separator skip
  scan_items zero s = raised json_decode_error
  scan_items (suc fuel) s = do
    (v, t) ← value s
    elim (separator b']' (skip t)) [
      | none ↦ raised json_decode_error
      | some (true, u) ↦ ok (item v no_items, u)
      | some (false, u) ↦ do (vs, rest) ← scan_items fuel (skip u); ok (item v vs, rest)
    ]

  -- `_parse_array`, from behind the bracket.
  unfoldable pub scan_array : Str → Result (Value × Str)
  unfolding scan_items skip
  scan_array s = elim (skip s) [
    | [] ↦ raised json_decode_error
    | c ∷ t ↦
        if c == b']'
        then ok (arr no_items, t)
        else do (vs, rest) ← scan_items (suc (length t)) (c ∷ t); ok (arr vs, rest)
  ]

  -- A key, the colon and the value.
  unfoldable pub scan_pair : Str → Result (Str × (Value × Str))
  unfolding expect read_string skip
  scan_pair s = do
    t ← expect b'"' s
    (key, u) ← read_string t
    w ← expect b':' (skip u)
    (v, rest) ← value (skip w)
    ok (key, (v, rest))

  -- The dict `d` is filled in the order of the text.
  unfoldable pub scan_fields : ℕ → Fields → Str → Result (Fields × Str)
  unfolding scan_pair set separator skip
  scan_fields zero d s = raised json_decode_error
  scan_fields (suc fuel) d s = do
    (key, (v, t)) ← scan_pair s
    elim (separator b'}' (skip t)) [
      | none ↦ raised json_decode_error
      | some (true, rest) ↦ ok (set key v d, rest)
      | some (false, u) ↦ scan_fields fuel (set key v d) (skip u)
    ]

  -- `_parse_object`, from behind the brace.
  unfoldable pub scan_object : Str → Result (Value × Str)
  unfolding scan_fields skip
  scan_object s = elim (skip s) [
    | [] ↦ raised json_decode_error
    | c ∷ t ↦
        if c == b'}'
        then ok (obj end, t)
        else do (fs, rest) ← scan_fields (suc (length t)) end (c ∷ t); ok (obj fs, rest)
  ]

-- `scan_once`, with the readers of what stands behind `{` and `[`.
unfoldable pub scan_with :
    (Str → Result (Value × Str))
    → (Str → Result (Value × Str))
    → (Str → Float)
    → Str
    → Result (Value × Str)
unfolding read_string scan_scalar
scan_with object array parse_float [] = raised json_decode_error
scan_with object array parse_float (c ∷ s) =
    if c == b'"'
    then (do (t, rest) ← read_string s; ok (str t, rest))
    else if c == b'{'
    then object s
    else if c == b'['
    then array s
    else scan_scalar parse_float (c ∷ s)

-- `_Py_EnterRecursiveCall` fails where `depth` is spent.
unfoldable pub scan_once : (Str → Float) → ℕ → Str → Result (Value × Str)
unfolding scan_object scan_array scan_with
scan_once parse_float zero s =
    scan_with (λ _. raised recursion_error) (λ _. raised recursion_error) parse_float s
scan_once parse_float (suc depth) s =
    scan_with (scan_object (scan_once parse_float depth)) (scan_array (scan_once parse_float depth))
      parse_float s

-- `JSONDecoder.decode`.
unfoldable pub decode_text : Interpreter → Str → Result Value
unfolding scan_once skip is_empty
decode_text python s = do
  (v, rest) ← scan_once python.parse_float python.depth (skip s)
  if is_empty (skip rest) then ok v else raised json_decode_error

unfoldable pub loads : Interpreter → List ℕ → Result Value
unfolding decode_body decode_text
loads python body = do text ← decode_body body; decode_text python text
