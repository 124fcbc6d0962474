-- ===== src/Py/Json/Strings.antt =====
-- `scanstring` with `strict=True`: a string literal, from behind its first quote.
use honest_agent.Prelude.{
  ℕ, ◌+◌, ◌-◌, ◌*◌, ◌≡◌, refl, Bool, true, false, ◌&&◌, Option, none, some, List, [], ◌∷◌, leb,
  ◌==◌, if◌then◌else◌,
}
use honest_agent.Py.Str.{Str, codes}
use honest_agent.Py.Json.Encoding.{CodeUnit, join_surrogates}

-- Between characters, behind a backslash, or inside `\uXXXX` with so many digits due.
pub data Mode : Type 0 where
  plain : Mode
  escape : Mode
  hex : (due value : ℕ) → Mode

unfoldable pub hex_digit : ℕ → Option ℕ
hex_digit c =
    if leb b'0' c && leb c b'9'
    then some (c - b'0')
    else if leb b'a' c && leb c b'f'
    then some (c - b'a' + 10)
    else if leb b'A' c && leb c b'F'
    then some (c - b'A' + 10)
    else none

-- What a backslash and this character stand for.
unfoldable pub escaped : ℕ → Option ℕ
escaped c =
    if c == b'"'
    then some b'"'
    else if c == b'\\'
    then some b'\\'
    else if c == b'/'
    then some b'/'
    else if c == b'b'
    then some 8
    else if c == b'f'
    then some 12
    else if c == b'n'
    then some 10
    else if c == b'r'
    then some 13
    else if c == b't'
    then some 9
    else none

-- The mode after a character, and the code unit that it completes.
unfoldable pub step : Mode → ℕ → Option (Mode × Option CodeUnit)
unfolding escaped hex_digit
step plain c =
    if c == b'\\'
    then some (escape, none)
    else if leb c 0x1f
    then none
    else some (plain, some (c, false))
step escape c =
    if c == b'u'
    then some (hex 4 0, none)
    else elim (escaped c) [ none ↦ none | some d ↦ some (plain, some (d, false)) ]
step (hex due value) c = elim (hex_digit c) [
  | none ↦ none
  | some d ↦
      let n = value * 16 + d in
      if due == 1 then some (plain, some (n, true)) else some (hex (due - 1) n, none)
]

-- The quote that ends the literal.
unfoldable pub closes : Mode → ℕ → Bool
closes plain c = c == b'"'
closes _ c = false

unfoldable pub emit : Option CodeUnit → Option (List CodeUnit × Str) → Option (List CodeUnit × Str)
emit out none = none
emit none (some r) = some r
emit (some u) (some (us, rest)) = some (u ∷ us, rest)

-- The code units of a literal, and what stands behind its last quote.
unfoldable pub scan : Mode → Str → Option (List CodeUnit × Str)
unfolding step closes emit
scan m [] = none
scan m (c ∷ s) =
    let more : Option (List CodeUnit × Str) = elim (step m c) [
      | none ↦ none
      | some (m', out) ↦ emit out (scan m' s)
    ] in
    if closes m c then some ([], s) else more

-- Escaped surrogates that form a pair are one character; others stay as they are.
unfoldable pub scan_string : Str → Option (Str × Str)
unfolding scan join_surrogates
scan_string s = elim (scan plain s) [
  | none ↦ none
  | some (us, rest) ↦ some (join_surrogates us, rest)
]

-- Escapes, a pair of surrogates, a lone one, a raw line break, and no last quote.
scan_string_tests :
    (scan_string (codes "a\\n\\u0041\"!") ≡ some (b'a' ∷ 10 ∷ b'A' ∷ [], codes "!"))
    × (scan_string (codes "\\uD83d\\uDE00\"") ≡ some (0x1f600 ∷ [], []))
    × (scan_string (codes "\\ud83d\\n\"") ≡ some (0xd83d ∷ 10 ∷ [], []))
    × (scan_string (10 ∷ b'"' ∷ []) ≡ none)
    × (scan_string (codes "a\\x\"") ≡ none)
    × (scan_string (codes "a") ≡ none)
unfolding scan_string codes
scan_string_tests = (refl, refl, refl, refl, refl, refl)
