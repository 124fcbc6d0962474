-- ===== src/Py/Json/Scans/Pieces.antt =====
-- The readers of strings, numbers and words.
use honest_agent.Prelude.{
  ℕ, suc, ◌+◌, ◌<◌, ◌≤◌, ◌≡◌, refl, ◌⊎◌, inl, inr, all, Option-cases, Bool-cases, Bool, true, false,
  Option, none, some, List, [], ◌∷◌, arith, ltb, ◌==◌, length,
}
use honest_agent.Py.Str.{Str, codes, drop_while}
use honest_agent.Py.Value.{Float, Value, int}
use honest_agent.Py.Exec.{value_error, ok, raised}
use honest_agent.Py.Json.Encoding.{CodeUnit}
use honest_agent.Py.Json.Strings.{Mode, plain, step, closes, emit, scan, scan_string}
use honest_agent.Py.Json.Numbers.{
  span_digits, integer_part, fraction, sign, exponent, digits_value, signed, read_int, read_number,
  match_unsigned, match_number,
}
use honest_agent.Py.Json.Decode.{skip, after, words, match_word, scan_scalar, read_string}
use honest_agent.Py.Json.Scans.{is_json_failure, Scans, Scans-mono}

pub length-skip : (s : Str) → length (skip s) ≤ length s
unfolding skip drop_while
length-skip [] = omega arith
length-skip (c ∷ s) = ground (arith, length-skip s)

length-emit :
    (out : Option CodeUnit) (r : Option (List CodeUnit × Str)) (us : List CodeUnit) (t : Str)
    (n : ℕ)
    → ((vs : List CodeUnit) (u : Str) → r ≡ some (vs, u) → length u < n)
    → emit out r ≡ some (us, t)
    → length t < n
unfolding emit
length-emit out none us t n h k = absurd (ground arith)
length-emit none (some (vs, u)) us t n h k = let small = h vs u refl in ground arith
length-emit (some x) (some (vs, u)) us t n h k = let small = h vs u refl in ground arith

length-scan :
    (m : Mode) (s t : Str) (us : List CodeUnit) → scan m s ≡ some (us, t) → length t < length s
unfolding scan
length-scan m [] t us h = absurd (ground arith)
length-scan m (c ∷ s) t us h = elim (Bool-cases (closes m c)) [
  | inl closed ↦ ground arith
  | inr goes_on ↦ elim (Option-cases (step m c)) [
    | inl refused ↦ absurd (ground arith)
    | inr ((m', out), moved) ↦
        let small =
          length-emit out (scan m' s) us t (length s) (λ vs u e. length-scan m' s u vs e)
            (ground arith) in
        ground arith
  ]
]

pub read_string-Scans : (s : Str) → Scans (length s) (read_string s)
unfolding read_string scan_string
read_string-Scans s = elim (Option-cases (scan plain s)) [
  | inl none_there ↦ rw (none_there, read_string) (unfold is_json_failure in refl)
  | inr ((us, t), there) ↦ rw (there, read_string) (length-scan plain s t us there)
]

length-span_digits : (s : Str) → length (span_digits s).1 ≤ length s
unfolding span_digits
length-span_digits [] = omega arith
length-span_digits (c ∷ s) = ground (arith, length-span_digits s)

length-fraction : (s : Str) → length (fraction s).1 ≤ length s
unfolding fraction
length-fraction [] = omega arith
length-fraction (c ∷ s) = ground (arith, length-span_digits s)

length-sign : (s : Str) → length (sign s).1 ≤ length s
unfolding sign
length-sign [] = omega arith
length-sign (c ∷ s) = ground arith

length-exponent : (s : Str) → length (exponent s).1 ≤ length s
unfolding exponent
length-exponent [] = omega arith
length-exponent (c ∷ s) = ground (arith, length-sign s, length-span_digits (sign s).1)

length-integer_part : (s ds t : Str) → integer_part s ≡ some (ds, t) → length t < length s
unfolding integer_part
length-integer_part [] ds t h = absurd (ground arith)
length-integer_part (c ∷ s) ds t h = ground (arith, length-span_digits s)

length-after : (p s t : Str) → after p s ≡ some t → length p + length t ≡ length s
unfolding after
length-after [] s t h = ground arith
length-after (c ∷ p) [] t h = absurd (ground arith)
length-after (c ∷ p) (d ∷ s) t h = ground (arith, length-after p s t)

length-match_word :
    (ws : List (Str × Value)) (s t : Str) (v : Value)
    → all (λ (w : Str × Value). ltb 0 (length w.0)) ws ≡ true
    → match_word ws s ≡ some (v, t)
    → length t < length s
unfolding match_word
length-match_word [] s t v h k = absurd (ground arith)
length-match_word ((w, x) ∷ ws) s t v h k = elim (Option-cases (after w s)) [
  | inl other ↦ length-match_word ws s t v (ground arith) (ground arith)
  | inr (u, here) ↦ let same = length-after w s u here in ground arith
]

module _ (parse_float : Str → Float) where
  read_number-cases :
      (negative : Bool) (ds fs es : Str)
      → ((v : Value) × (read_number parse_float negative ds fs es ≡ ok v))
        ⊎ (read_number parse_float negative ds fs es ≡ raised value_error)
  unfolding read_number read_int
  read_number-cases negative ds [] [] = elim (Bool-cases (ltb 4300 (length ds))) [
    | inl long ↦ inr (rw long refl)
    | inr short ↦ inl (int (signed negative (digits_value 0 ds)), rw short refl)
  ]
  read_number-cases negative ds (c ∷ fs) es = inl (_, refl)
  read_number-cases negative ds [] (c ∷ es) = inl (_, refl)

  match_unsigned-Scans :
      (negative : Bool) (s : Str) → Scans (length s) (match_unsigned parse_float negative s)
  unfolding match_unsigned is_json_failure
  match_unsigned-Scans negative s = elim (Option-cases (integer_part s)) [
    | inl none_there ↦ rw (none_there, match_unsigned) refl
    | inr ((ds, t), there) ↦
        let fs = fraction t in
        let es = exponent fs.1 in
        let small : length es.1 < length s =
          omega
            (arith, length-integer_part s ds t there, length-fraction t, length-exponent fs.1) in
        elim (read_number-cases negative ds fs.0 es.0) [
          | inl (v, read) ↦ rw (there, match_unsigned) (rw read small)
          | inr long ↦ rw (there, match_unsigned) (rw long refl)
        ]
  ]

  match_number-Scans : (s : Str) → Scans (length s) (match_number parse_float s)
  unfolding match_number is_json_failure
  match_number-Scans [] = refl
  match_number-Scans (c ∷ s) = elim (Bool-cases (c == b'-')) [
    | inl minus ↦
        rw (minus, match_number)
          (Scans-mono (length s) (suc (length s)) (match_unsigned parse_float true s) (omega arith)
            (match_unsigned-Scans true s))
    | inr other ↦ rw (other, match_number) (match_unsigned-Scans false (c ∷ s))
  ]

  pub scan_scalar-Scans : (s : Str) → Scans (length s) (scan_scalar parse_float s)
  unfolding scan_scalar
  scan_scalar-Scans s = elim (Option-cases (match_word words s)) [
    | inl number ↦ rw (number, scan_scalar) (match_number-Scans s)
    | inr ((v, t), word) ↦
        rw (word, scan_scalar) (length-match_word words s t v (unfold codes in refl) word)
  ]
