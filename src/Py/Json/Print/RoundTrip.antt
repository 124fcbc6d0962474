-- ===== src/Py/Json/Print/RoundTrip.antt =====
-- What was printed is read back, as the dict that its entries fill.
use honest_agent.Prelude.{
  ℕ, zero, suc, ◌<◌, ◌≡◌, refl, ◌∙◌, Bool, true, false, ◌∷◌, ◌++◌, append_assoc, arith, all, length,
}
use honest_agent.Py.Str.{Str, codes, drop_while}
use honest_agent.Py.Value.{
  Float, Fields, end, field, Items, no_items, item, Value, obj, arr, str, int, float, bool, null,
}
use honest_agent.Py.Exec.{Result, ok}
use honest_agent.Py.Json.Decode.{
  is_ws, skip, set, scan_scalar, match_word, after, scan_items, scan_array, scan_fields,
  scan_object, scan_with, scan_once,
}
use honest_agent.Py.Json.Print.{
  print_chars, print, print_items, print_fields, dict_of, dicts_of, fill, is_readable, are_readable,
  are_readable_fields,
}
use honest_agent.Py.Json.Print.Texts.{
  key_text, print-obj, print_items-item, print_fields-field, length-behind, item_count-lt,
  field_count-lt,
}
use honest_agent.Py.Json.Print.Numbers.{ends_value}
use honest_agent.Py.Json.Print.Values.{
  scan_with-print_int, starts_value, starts_value-print, read_string-print_chars, item_count,
  field_count, scan_array-starts_value, scan_object-quote, scan_pair-print, scan_items-last,
  scan_items-more, scan_fields-last, scan_fields-more,
}

module _ (parse_float : Str → Float) (repr : Float → Str) (space : Str)
    (ws : all is_ws space ≡ true) where
  -- `value` reads this printed value, whatever ends it.
  abbrev ReadBy : (Str → Result (Value × Str)) → Value → Type 0
  ReadBy value v =
      (rest : Str)
      → ends_value rest ≡ true
      → value (print repr space v ++ rest) ≡ ok (dict_of v, rest)

  abbrev ReadsValue : Value → Type 0
  ReadsValue v = (depth : ℕ) → is_readable depth v ≡ true → ReadBy (scan_once parse_float depth) v

  abbrev ReadsItems : Items → Type 0
  ReadsItems vs =
      (depth : ℕ) (v : Value) (fuel : ℕ) (rest : Str)
      → are_readable depth vs ≡ true
      → ReadBy (scan_once parse_float depth) v
      → item_count vs < fuel
      → scan_items (scan_once parse_float depth) fuel
          (print repr space v ++ (print_items repr space vs ++ rest))
        ≡ ok (item (dict_of v) (dicts_of vs), rest)

  abbrev ReadsFields : Fields → Type 0
  ReadsFields fs =
      (depth : ℕ) (k : Str) (v : Value) (d : Fields) (fuel : ℕ) (rest : Str)
      → are_readable_fields depth fs ≡ true
      → is_readable depth v ≡ true
      → ReadBy (scan_once parse_float depth) v
      → field_count fs < fuel
      → scan_fields (scan_once parse_float depth) fuel d
          (key_text repr space k v (print_fields repr space fs ++ rest))
        ≡ ok (fill (set k (dict_of v) d) fs, rest)

  no_items-ReadsItems : ReadsItems no_items
  unfolding print_items dicts_of item_count ends_value
  no_items-ReadsItems depth v zero rest r read h = absurd (omega arith)
  no_items-ReadsItems depth v (suc fuel) rest r read h =
      scan_items-last space ws (scan_once parse_float depth) fuel _ rest (dict_of v)
        (read (b']' ∷ rest) refl)

  item-ReadsItems : (w : Value) (vs : Items) → ReadsValue w → ReadsItems vs → ReadsItems (item w vs)
  unfolding print_items dicts_of item_count are_readable ends_value
  item-ReadsItems w vs ih ihs depth v zero rest r read h = absurd (omega arith)
  item-ReadsItems w vs ih ihs depth v (suc fuel) rest r read h =
      let behind = print_items repr space vs ++ rest in
      scan_items-more space ws (scan_once parse_float depth) fuel _ (print repr space w ++ behind)
        rest (dict_of v) (dicts_of (item w vs))
        (rw (print_items-item repr space w vs rest)
          (read (b',' ∷ (space ++ (print repr space w ++ behind))) refl))
        (starts_value-print repr space depth w behind (ground arith))
        (ihs depth w fuel rest (ground arith) (ih depth (ground arith)) (omega arith))

  end-ReadsFields : ReadsFields end
  unfolding print_fields fill field_count ends_value
  end-ReadsFields depth k v d zero rest r rv read h = absurd (omega arith)
  end-ReadsFields depth k v d (suc fuel) rest r rv read h =
      let t = print repr space v ++ (b'}' ∷ rest) in
      let value = scan_once parse_float depth in
      scan_fields-last space ws value fuel d k (key_text repr space k v (b'}' ∷ rest)) rest
        (dict_of v)
        (scan_pair-print space ws value k t (b'}' ∷ rest) (dict_of v)
          (starts_value-print repr space depth v (b'}' ∷ rest) rv) (read (b'}' ∷ rest) refl))

  field-ReadsFields :
      (l : Str) (w : Value) (fs : Fields)
      → ReadsValue w
      → ReadsFields fs
      → ReadsFields (field l w fs)
  unfolding print_fields fill field_count are_readable_fields ends_value starts_value is_ws
  field-ReadsFields l w fs ih ihs depth k v d zero rest r rv read h = absurd (omega arith)
  field-ReadsFields l w fs ih ihs depth k v d (suc fuel) rest r rv read h =
      let u = key_text repr space l w (print_fields repr space fs ++ rest) in
      let t = print repr space v ++ (b',' ∷ (space ++ u)) in
      let value = scan_once parse_float depth in
      rw (print_fields-field repr space l w fs rest) (
        scan_fields-more space ws value fuel d (fill (set k (dict_of v) d) (field l w fs)) k
          (key_text repr space k v (b',' ∷ (space ++ u))) u rest (dict_of v)
          (scan_pair-print space ws value k t (b',' ∷ (space ++ u)) (dict_of v)
            (starts_value-print repr space depth v (b',' ∷ (space ++ u)) rv)
            (read (b',' ∷ (space ++ u)) refl))
          refl
          (ihs depth l w (set k (dict_of v) d) fuel rest (ground arith) (ground arith)
            (ih depth (ground arith)) (omega arith)))

  arr-ReadsValue :
      (v : Value) (vs : Items) → ReadsValue v → ReadsItems vs → ReadsValue (arr (item v vs))
  unfolding scan_once scan_with print dict_of dicts_of is_readable are_readable
  arr-ReadsValue v vs ih ihs zero r rest e = absurd (ground arith)
  arr-ReadsValue v vs ih ihs (suc depth) r rest e =
      let behind = print_items repr space vs ++ rest in
      let t = print repr space v ++ behind in
      rw (append_assoc (print repr space v) (print_items repr space vs) rest) (
        scan_array-starts_value (scan_once parse_float depth) t rest
          (item (dict_of v) (dicts_of vs))
          (starts_value-print repr space depth v behind (ground arith))
          (ihs depth v (length t) rest (ground arith) (ih depth (ground arith)) (
            omega (
              arith,
              item_count-lt repr space vs rest,
              length-behind (print repr space v) behind,
            ))))

  dict_of-obj :
      (k : Str) (v : Value) (fs : Fields)
      → dict_of (obj (field k v fs)) ≡ obj (fill (set k (dict_of v) end) fs)
  unfolding dict_of fill
  dict_of-obj k v fs = refl

  scan_once-brace :
      (depth : ℕ) (s : Str)
      → scan_once parse_float (suc depth) (b'{' ∷ s) ≡ scan_object (scan_once parse_float depth) s
  unfolding scan_once scan_with
  scan_once-brace depth s = refl

  obj-ReadsValue :
      (k : Str) (v : Value) (fs : Fields)
      → ReadsValue v
      → ReadsFields fs
      → ReadsValue (obj (field k v fs))
  unfolding is_readable are_readable_fields
  obj-ReadsValue k v fs ih ihs zero r rest e = absurd (ground arith)
  obj-ReadsValue k v fs ih ihs (suc depth) r rest e =
      let behind = print_fields repr space fs ++ rest in
      let t = key_text repr space k v behind in
      let read =
        ihs depth k v end (length t) rest (ground arith) (ground arith) (ih depth (ground arith)) (
          omega (
            arith,
            field_count-lt repr space fs rest,
            length-behind (print repr space v) behind,
            length-behind space (print repr space v ++ behind),
            length-behind (print_chars k) (b':' ∷ (space ++ (print repr space v ++ behind))),
          )) in
      rw (print-obj repr space k v fs rest, dict_of-obj k v fs)
        (scan_once-brace depth (key_text repr space k v behind)
          ∙ scan_object-quote (scan_once parse_float depth)
              (print_chars k ++ (b':' ∷ (space ++ (print repr space v ++ behind)))) rest
              (fill (set k (dict_of v) end) fs) read)

  bool-ReadsValue : (b : Bool) → ReadsValue (bool b)
  unfolding scan_once scan_with scan_scalar match_word after codes print dict_of
  bool-ReadsValue true zero r rest e = refl
  bool-ReadsValue true (suc depth) r rest e = refl
  bool-ReadsValue false zero r rest e = refl
  bool-ReadsValue false (suc depth) r rest e = refl

  str-ReadsValue : (s : Str) → ReadsValue (str s)
  unfolding scan_once scan_with print dict_of
  str-ReadsValue s zero r rest e = rw (read_string-print_chars s rest, scan_once) refl
  str-ReadsValue s (suc depth) r rest e = rw (read_string-print_chars s rest, scan_once) refl

  mutual
    unfolding scan_once scan_with scan_array scan_object scan_scalar match_word after codes skip
        drop_while is_ws print dict_of fill is_readable

    -- What is printed of a readable value is read back, entry by entry.
    pub scan_once-print : (v : Value) → ReadsValue v
    scan_once-print (obj end) zero r rest e = absurd (ground arith)
    scan_once-print (obj end) (suc depth) r rest e = refl
    scan_once-print (obj (field k v fs)) depth r rest e =
        obj-ReadsValue k v fs (scan_once-print v) (scan_fields-print fs) depth r rest e
    scan_once-print (arr no_items) zero r rest e = absurd (ground arith)
    scan_once-print (arr no_items) (suc depth) r rest e = refl
    scan_once-print (arr (item v vs)) depth r rest e =
        arr-ReadsValue v vs (scan_once-print v) (scan_items-print vs) depth r rest e
    scan_once-print (str s) depth r rest e = str-ReadsValue s depth r rest e
    scan_once-print (int z) zero r rest e = scan_with-print_int parse_float _ _ rest e zero z r
    scan_once-print (int z) (suc depth) r rest e =
        scan_with-print_int parse_float _ _ rest e (suc depth) z r
    scan_once-print (float x) depth r rest e = absurd (ground arith)
    scan_once-print (bool b) depth r rest e = bool-ReadsValue b depth r rest e
    scan_once-print null zero r rest e = refl
    scan_once-print null (suc depth) r rest e = refl

    scan_items-print : (vs : Items) → ReadsItems vs
    scan_items-print no_items = no_items-ReadsItems
    scan_items-print (item v vs) = item-ReadsItems v vs (scan_once-print v) (scan_items-print vs)

    scan_fields-print : (fs : Fields) → ReadsFields fs
    scan_fields-print end = end-ReadsFields
    scan_fields-print (field k v fs) =
        field-ReadsFields k v fs (scan_once-print v) (scan_fields-print fs)
