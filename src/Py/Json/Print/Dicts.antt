-- ===== src/Py/Json/Print/Dicts.antt =====
-- What is found at a key of a dict that was read.
use honest_agent.Prelude.{◌≡◌, refl, ◌∙◌, inl, inr, Bool-cases, arith, if◌then◌else◌}
use honest_agent.Py.Str.{Str, str_eq}
use honest_agent.Py.Str.Laws.{str_eq_refl, eq_of_str_eq}
use honest_agent.Py.Value.{Fields, end, field, Value, null, get}
use honest_agent.Py.Json.Decode.{set}
use honest_agent.Py.Json.Print.{dict_of, fill}

-- The value of the last entry at a key, as a dict; `v` if there is none.
unfoldable pub last_at : Str → Value → Fields → Value
last_at key v end = v
last_at key v (field k w fs) = last_at key (if str_eq key k then dict_of w else v) fs

get-set :
    (key k : Str) (v : Value) (d : Fields)
    → get key (set k v d) ≡ (if str_eq key k then v else get key d)
unfolding get set
get-set key k v end = refl
get-set key k v (field l w fs) = elim (Bool-cases (str_eq k l)) [
  | inl same ↦ let k_is_l = eq_of_str_eq k l same in ground arith
  | inr other ↦ elim (Bool-cases (str_eq key l)) [
    | inl here ↦
        let key_is_l = eq_of_str_eq key l here in
        elim (Bool-cases (str_eq key k)) [
          | inl both ↦ let key_is_k = eq_of_str_eq key k both in ground (arith, str_eq_refl k)
          | inr apart ↦ ground arith
        ]
    | inr there ↦ ground (arith, get-set key k v fs)
  ]
]

get-fill : (key : Str) (fs d : Fields) → get key (fill d fs) ≡ last_at key (get key d) fs
unfolding fill last_at
get-fill key end d = refl
get-fill key (field k w fs) d =
    get-fill key fs (set k (dict_of w) d) ∙ rw (get-set key k (dict_of w) d) refl

-- The dict that was read has at a key what the last entry of the key says.
pub get-dict_of : (key : Str) (fs : Fields) → get key (fill end fs) ≡ last_at key null fs
get-dict_of key fs = get-fill key fs end ∙ unfold get in refl
