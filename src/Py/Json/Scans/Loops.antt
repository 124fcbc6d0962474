-- ===== src/Py/Json/Scans/Loops.antt =====
-- The loops, whose fuel is enough, and the readers of values.
use honest_agent.Prelude.{
  ℕ, zero, suc, ◌<◌, ◌≤◌, ◌≡◌, refl, ap, ◌⊎◌, inl, inr, Option-cases, Bool-cases, Bool, true, false,
  some, [], ◌∷◌, arith, ◌==◌, length,
}
use honest_agent.Py.Str.{Str}
use honest_agent.Py.Value.{Float, Value, Fields, end}
use honest_agent.Py.Exec.{recursion_error, Result, raised}
use honest_agent.Py.Json.Decode.{
  skip, set, separator, expect, read_string, scan_items, scan_array, scan_pair, scan_fields,
  scan_object, scan_with, scan_once,
}
use honest_agent.Py.Json.Scans.{is_json_failure, Leaves, Scans, bind-Leaves, bind-Scans, Scans-mono}
use honest_agent.Py.Json.Scans.Pieces.{length-skip, read_string-Scans, scan_scalar-Scans}

length-separator :
    (close : ℕ) (s t : Str) (last : Bool) → separator close s ≡ some (last, t) → length t < length s
unfolding separator
length-separator close [] t last h = absurd (ground arith)
length-separator close (c ∷ s) t last h = ground arith

Str-cases : (s : Str) → (s ≡ []) ⊎ ((c : ℕ) × ((t : Str) × (s ≡ c ∷ t)))
Str-cases [] = inl refl
Str-cases (c ∷ t) = inr (c, (t, refl))

pub behind :
    (close : ℕ) (t u : Str) (last : Bool)
    → separator close (skip t) ≡ some (last, u)
    → (length u < length t) × (length (skip u) < length t)
behind close t u last h =
    let less = length-separator close (skip t) u last h in
    (omega (arith, less, length-skip t), omega (arith, less, length-skip t, length-skip u))

expect-Leaves : (c : ℕ) (s : Str) → Leaves (λ t. t) (length s) (expect c s)
unfolding expect is_json_failure
expect-Leaves c [] = refl
expect-Leaves c (d ∷ s) = elim (Bool-cases (d == c)) [
  | inl same ↦ rw (same, expect) (omega arith)
  | inr other ↦ rw (other, expect) refl
]

module _ (value : Str → Result (Value × Str))
    (value-Scans : (s : Str) → Scans (length s) (value s)) where
  scan_items-Scans : (fuel : ℕ) (s : Str) → Scans (length s) (scan_items value fuel s)
  unfolding scan_items is_json_failure
  scan_items-Scans zero s = refl
  scan_items-Scans (suc fuel) s =
      bind-Scans (length s) (length s) (value s) _ (value-Scans s) λ v t small.
        elim (Option-cases (separator b']' (skip t))) [
          | inl neither ↦ rw (neither, scan_items) refl
          | inr ((true, u), ends) ↦
              rw (ends, scan_items) (omega (arith, (behind b']' t u true ends).0))
          | inr ((false, u), goes_on) ↦
              rw (goes_on, scan_items)
                (bind-Scans (length (skip u)) (length s) (scan_items value fuel (skip u)) _
                  (scan_items-Scans fuel (skip u))
                  λ vs w less. omega (arith, (behind b']' t u false goes_on).1))
        ]

  scan_array-Scans : (s : Str) → Scans (suc (length s)) (scan_array value s)
  unfolding scan_array is_json_failure
  scan_array-Scans s = elim (Str-cases (skip s)) [
    | inl nothing ↦ rw (nothing, scan_array) refl
    | inr (c, (t, there)) ↦
        let less : length (c ∷ t) ≤ length s = omega (arith, length-skip s, ap length there) in
        elim (Bool-cases (c == b']')) [
          | inl closed ↦ rw (there, scan_array) (rw closed (omega arith))
          | inr opened ↦
              rw (there, scan_array)
                (rw opened (
                  bind-Scans (length (c ∷ t)) (suc (length s))
                    (scan_items value (suc (length t)) (c ∷ t)) _
                    (scan_items-Scans (suc (length t)) (c ∷ t)) λ vs u fewer. omega arith))
        ]
  ]

  -- A key, a colon and a value.
  pub scan_pair-Leaves : (s : Str) → Leaves (λ x. x.1.1) (length s) (scan_pair value s)
  unfolding scan_pair
  scan_pair-Leaves s =
      bind-Leaves (λ t. t) (λ x. x.1.1) (length s) (length s) (expect b'"' s) _
        (expect-Leaves b'"' s)
        λ t less.
          bind-Leaves (λ x. x.1) (λ x. x.1.1) (length t) (length s) (read_string t) _
            (read_string-Scans t)
            λ (key, u) less'.
              bind-Leaves (λ w. w) (λ x. x.1.1) (length (skip u)) (length s) (expect b':' (skip u))
                _ (expect-Leaves b':' (skip u))
                λ w less''.
                  bind-Leaves (λ x. x.1) (λ x. x.1.1) (length (skip w)) (length s) (value (skip w))
                    _ (value-Scans (skip w))
                    λ (v, rest) fewer. omega (arith, length-skip u, length-skip w)

  scan_fields-Scans :
      (fuel : ℕ) (d : Fields) (s : Str) → Scans (length s) (scan_fields value fuel d s)
  unfolding scan_fields is_json_failure
  scan_fields-Scans zero d s = refl
  scan_fields-Scans (suc fuel) d s =
      bind-Leaves (λ x. x.1.1) (λ x. x.1) (length s) (length s) (scan_pair value s) _
        (scan_pair-Leaves s)
        λ (key, (v, t)) small. elim (Option-cases (separator b'}' (skip t))) [
          | inl neither ↦ rw (neither, scan_fields) refl
          | inr ((true, u), ends) ↦
              rw (ends, scan_fields) (omega (arith, (behind b'}' t u true ends).0))
          | inr ((false, u), goes_on) ↦
              rw (goes_on, scan_fields)
                (Scans-mono (length (skip u)) (length s)
                  (scan_fields value fuel (set key v d) (skip u))
                  (omega (arith, (behind b'}' t u false goes_on).1))
                  (scan_fields-Scans fuel (set key v d) (skip u)))
        ]

  scan_object-Scans : (s : Str) → Scans (suc (length s)) (scan_object value s)
  unfolding scan_object is_json_failure
  scan_object-Scans s = elim (Str-cases (skip s)) [
    | inl nothing ↦ rw (nothing, scan_object) refl
    | inr (c, (t, there)) ↦
        let less : length (c ∷ t) ≤ length s = omega (arith, length-skip s, ap length there) in
        elim (Bool-cases (c == b'}')) [
          | inl closed ↦ rw (there, scan_object) (rw closed (omega arith))
          | inr opened ↦
              rw (there, scan_object)
                (rw opened (
                  bind-Scans (length (c ∷ t)) (suc (length s))
                    (scan_fields value (suc (length t)) end (c ∷ t)) _
                    (scan_fields-Scans (suc (length t)) end (c ∷ t)) λ fs u fewer. omega arith))
        ]
  ]

scan_with-Scans :
    (object array : Str → Result (Value × Str)) (parse_float : Str → Float) (s : Str)
    → ((t : Str) → Scans (suc (length t)) (object t))
    → ((t : Str) → Scans (suc (length t)) (array t))
    → Scans (length s) (scan_with object array parse_float s)
unfolding scan_with is_json_failure
scan_with-Scans object array parse_float [] o a = refl
scan_with-Scans object array parse_float (c ∷ s) o a = elim (Bool-cases (c == b'"')) [
  | inl quote ↦
      rw (quote, scan_with)
        (bind-Scans (length s) (suc (length s)) (read_string s) _ (read_string-Scans s)
          λ t u less. omega arith)
  | inr no_quote ↦ elim (Bool-cases (c == b'{')) [
    | inl brace ↦ rw (no_quote, scan_with) (rw brace (o s))
    | inr no_brace ↦ elim (Bool-cases (c == b'[')) [
      | inl bracket ↦ rw (no_quote, scan_with) (rw no_brace (rw bracket (a s)))
      | inr other ↦
          rw (no_quote, scan_with) (rw no_brace (rw other (scan_scalar-Scans parse_float (c ∷ s))))
    ]
  ]
]

-- A value takes one character at least, and fails only as `json.loads` does.
pub scan_once-Scans :
    (parse_float : Str → Float) (depth : ℕ) (s : Str)
    → Scans (length s) (scan_once parse_float depth s)
unfolding scan_once
scan_once-Scans parse_float zero s =
    scan_with-Scans (λ _. raised recursion_error) (λ _. raised recursion_error) parse_float s
      (λ t. unfold is_json_failure in refl) (λ t. unfold is_json_failure in refl)
scan_once-Scans parse_float (suc depth) s =
    let inner = scan_once-Scans parse_float depth in
    scan_with-Scans (scan_object (scan_once parse_float depth))
      (scan_array (scan_once parse_float depth)) parse_float s
      (scan_object-Scans (scan_once parse_float depth) inner)
      (scan_array-Scans (scan_once parse_float depth) inner)
