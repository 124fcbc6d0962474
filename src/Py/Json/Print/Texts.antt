-- ===== src/Py/Json/Print/Texts.antt =====
-- How printed containers read in parts, and how long they are.
use honest_agent.Prelude.{◌<◌, ◌≤◌, ◌≡◌, [], ◌∷◌, ◌++◌, append_assoc, arith, length}
use honest_agent.Py.Str.{Str}
use honest_agent.Py.Value.{Float, Fields, end, field, Items, no_items, item, Value, obj}
use honest_agent.Py.Json.Print.{print_chars, print, print_items, print_fields}
use honest_agent.Py.Json.Print.Values.{item_count, field_count}

pub length-behind : (s t : Str) → length t ≤ length (s ++ t)
length-behind [] t = omega arith
length-behind (c ∷ s) t = omega (arith, length-behind s t)

module _ (repr : Float → Str) (space : Str) where
  -- A key, its value and what follows.
  abbrev pub key_text : Str → Value → Str → Str
  key_text k v t = b'"' ∷ (print_chars k ++ (b':' ∷ (space ++ (print repr space v ++ t))))

  pub print-obj :
      (k : Str) (v : Value) (fs : Fields) (rest : Str)
      → print repr space (obj (field k v fs)) ++ rest
        ≡ b'{' ∷ key_text k v (print_fields repr space fs ++ rest)
  unfolding print
  print-obj k v fs rest = simp append_assoc

  pub print_items-item :
      (v : Value) (vs : Items) (rest : Str)
      → print_items repr space (item v vs) ++ rest
        ≡ b',' ∷ (space ++ (print repr space v ++ (print_items repr space vs ++ rest)))
  unfolding print_items
  print_items-item v vs rest = simp append_assoc

  pub print_fields-field :
      (k : Str) (v : Value) (fs : Fields) (rest : Str)
      → print_fields repr space (field k v fs) ++ rest
        ≡ b',' ∷ (space ++ key_text k v (print_fields repr space fs ++ rest))
  unfolding print_fields
  print_fields-field k v fs rest = simp append_assoc

  pub item_count-lt :
      (vs : Items) (rest : Str) → item_count vs < length (print_items repr space vs ++ rest)
  unfolding item_count
  item_count-lt no_items rest = unfold print_items in omega arith
  item_count-lt (item v vs) rest =
      let others = item_count-lt vs rest in
      rw (print_items-item v vs rest) (
        omega (
          arith,
          others,
          length-behind (print repr space v) (print_items repr space vs ++ rest),
          length-behind space (print repr space v ++ (print_items repr space vs ++ rest)),
        ))

  pub field_count-lt :
      (fs : Fields) (rest : Str) → field_count fs < length (print_fields repr space fs ++ rest)
  unfolding field_count
  field_count-lt end rest = unfold print_fields in omega arith
  field_count-lt (field k v fs) rest =
      let t = print_fields repr space fs ++ rest in
      rw (print_fields-field k v fs rest) (
        omega (
          arith,
          field_count-lt fs rest,
          length-behind (print repr space v) t,
          length-behind space (print repr space v ++ t),
          length-behind (print_chars k) (b':' ∷ (space ++ (print repr space v ++ t))),
          length-behind space (key_text k v t),
        ))
