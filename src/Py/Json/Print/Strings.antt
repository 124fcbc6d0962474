-- ===== src/Py/Json/Print/Strings.antt =====
-- A printed string literal is read back.

use honest_agent.Prelude.{
  ℕ, ◌≡◌, refl, ◌&&◌, ◌||◌, not, some, [], ◌∷◌, ◌++◌, append_assoc, map, arith, leb, ◌==◌,
}
use honest_agent.Py.Str.{Str}
use honest_agent.Py.Json.Encoding.{CodeUnit, attach, join_pairs, join_surrogates}
use honest_agent.Py.Json.Strings.{plain, hex_digit, escaped, step, closes, emit, scan, scan_string}
use honest_agent.Py.Json.Print.{hex_char, print_char, print_chars}

-- What the scanner makes of a printed character: only `\u` may give half of a pair.
unit_of : ℕ → CodeUnit
unit_of c = (c, leb c 0x1f && not (c == 8 || leb 9 c && leb c 10 || leb 12 c && leb c 13))

scan-print_char :
    (c : ℕ) (rest : Str)
    → scan plain (print_char c ++ rest) ≡ emit (some (unit_of c)) (scan plain rest)
unfolding scan step closes emit escaped hex_digit print_char hex_char unit_of
scan-print_char c rest = ground arith

scan-print_chars : (s rest : Str) → scan plain (print_chars s ++ rest) ≡ some (map unit_of s, rest)
unfolding print_chars scan emit closes
scan-print_chars [] rest = refl
scan-print_chars (c ∷ s) rest =
    rw (append_assoc, scan-print_char c (print_chars s ++ rest), scan-print_chars s rest) refl

join_pairs-unit_of : (s : Str) → join_pairs (map unit_of s) ≡ map unit_of s
unfolding join_pairs attach unit_of
join_pairs-unit_of [] = refl
join_pairs-unit_of (c ∷ []) = refl
join_pairs-unit_of (c ∷ d ∷ s) = rw (join_pairs-unit_of (d ∷ s)) (ground arith)

codes-unit_of : (s : Str) → map (λ (u : CodeUnit). u.0) (map unit_of s) ≡ s
unfolding unit_of
codes-unit_of [] = refl
codes-unit_of (c ∷ s) = rw (codes-unit_of s) refl

join_surrogates-unit_of : (s : Str) → join_surrogates (map unit_of s) ≡ s
unfolding join_surrogates
join_surrogates-unit_of s = simp (join_pairs-unit_of, codes-unit_of)

pub scan_string-print_chars : (s rest : Str) → scan_string (print_chars s ++ rest) ≡ some (s, rest)
unfolding scan_string
scan_string-print_chars s rest =
    rw (scan-print_chars s rest, scan_string) (ground (arith, join_surrogates-unit_of s))
