-- ===== src/Py/Json/Raises.antt =====
-- The exceptions of `json.loads`.
use honest_agent.Prelude.{
  ℕ, ◌≡◌, refl, inl, inr, Bool, true, false, List, [], ◌∷◌, Bool-cases, Option-cases, ◌==◌, length,
}
use honest_agent.Py.Str.{Str, is_empty}
use honest_agent.Py.Utf8.{run, idle, decode_surrogatepass}
use honest_agent.Py.Value.{Value}
use honest_agent.Py.Exec.{Exception, Result, ok, raised}
use honest_agent.Py.Exec.Checked.{◌>>=◌}
use honest_agent.Py.Json.Encoding.{
  Encoding, utf_8, utf_8_sig, utf_16, utf_16_be, utf_16_le, utf_32, utf_32_be, utf_32_le,
  detect_encoding, units_16, decode_16, chars_32, decode_32, decode_as, decode_body,
}
use honest_agent.Py.Json.Decode.{Interpreter, skip, scan_once, decode_text, loads}
use honest_agent.Py.Json.Scans.{is_json_failure, Scans}
use honest_agent.Py.Json.Scans.Loops.{scan_once-Scans}

-- Whatever is raised is a failure of `json.loads`.
abbrev Fails : {A : Type 0} → Result A → Type 0
Fails (ok a) = Unit
Fails (raised e) = is_json_failure e ≡ true

bind-Fails :
    {A B : Type 0} (r : Result A) (next : A → Result B)
    → Fails r
    → ((a : A) → Fails (next a))
    → Fails (r >>= next)
bind-Fails (ok a) next h k = k a
bind-Fails (raised e) next h k = h

decode_surrogatepass-Fails : (s : List ℕ) → Fails (decode_surrogatepass s)
unfolding decode_surrogatepass is_json_failure
decode_surrogatepass-Fails s = elim (Option-cases (run true idle s)) [
  | inl refused ↦ rw (refused, decode_surrogatepass) refl
  | inr (t, read) ↦ rw (read, decode_surrogatepass) tt
]

decode_16-Fails : (big : Bool) (s : List ℕ) → Fails (decode_16 big s)
unfolding decode_16 is_json_failure
decode_16-Fails big s = elim (Option-cases (units_16 big s)) [
  | inl refused ↦ rw (refused, decode_16) refl
  | inr (t, read) ↦ rw (read, decode_16) tt
]

decode_32-Fails : (big : Bool) (s : List ℕ) → Fails (decode_32 big s)
unfolding decode_32 is_json_failure
decode_32-Fails big s = elim (Option-cases (chars_32 big s)) [
  | inl refused ↦ rw (refused, decode_32) refl
  | inr (t, read) ↦ rw (read, decode_32) tt
]

decode_as-Fails : (encoding : Encoding) (s : List ℕ) → Fails (decode_as encoding s)
unfolding decode_as is_json_failure
decode_as-Fails utf_8 s = decode_surrogatepass-Fails s
decode_as-Fails utf_8_sig [] = refl
decode_as-Fails utf_8_sig (a ∷ []) = refl
decode_as-Fails utf_8_sig (a ∷ b ∷ []) = refl
decode_as-Fails utf_8_sig (a ∷ b ∷ c ∷ s) = decode_surrogatepass-Fails s
decode_as-Fails utf_16 [] = refl
decode_as-Fails utf_16 (a ∷ []) = refl
decode_as-Fails utf_16 (a ∷ b ∷ s) = decode_16-Fails (a == 0xfe) s
decode_as-Fails utf_16_be s = decode_16-Fails true s
decode_as-Fails utf_16_le s = decode_16-Fails false s
decode_as-Fails utf_32 [] = refl
decode_as-Fails utf_32 (a ∷ []) = refl
decode_as-Fails utf_32 (a ∷ b ∷ []) = refl
decode_as-Fails utf_32 (a ∷ b ∷ c ∷ []) = refl
decode_as-Fails utf_32 (a ∷ b ∷ c ∷ d ∷ s) = decode_32-Fails (a == 0) s
decode_as-Fails utf_32_be s = decode_32-Fails true s
decode_as-Fails utf_32_le s = decode_32-Fails false s

scan_once-Fails : (n : ℕ) (r : Result (Value × Str)) → Scans n r → Fails r
scan_once-Fails n (ok (v, t)) h = tt
scan_once-Fails n (raised e) h = h

decode_text-Fails : (python : Interpreter) (s : Str) → Fails (decode_text python s)
unfolding decode_text
decode_text-Fails python s =
    let value = scan_once python.parse_float python.depth (skip s) in
    bind-Fails value _
      (scan_once-Fails (length (skip s)) value
        (scan_once-Scans python.parse_float python.depth (skip s)))
      λ (v, rest). elim (Bool-cases (is_empty (skip rest))) [
        | inl whole ↦ rw whole tt
        | inr more ↦ rw more (unfold is_json_failure in refl)
      ]

loads-Fails : (python : Interpreter) (body : List ℕ) → Fails (loads python body)
unfolding loads decode_body
loads-Fails python body =
    bind-Fails (decode_body body) _ (decode_as-Fails (detect_encoding body) body)
      λ text. decode_text-Fails python text

pub loads-raised :
    (python : Interpreter) (body : List ℕ) (e : Exception)
    → loads python body ≡ raised e
    → is_json_failure e ≡ true
loads-raised python body e h = rw h at (loads-Fails python body)
