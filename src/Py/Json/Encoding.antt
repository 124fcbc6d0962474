-- ===== src/Py/Json/Encoding.antt =====
-- `json.detect_encoding`, and the decoding of a body with `errors="surrogatepass"`.
use honest_agent.Prelude.{
  ℕ, ◌+◌, ◌-◌, ◌*◌, ◌≡◌, refl, ◌≢◌, Bool, true, false, ◌&&◌, ◌||◌, Option, none, some, List, [],
  ◌∷◌, map, arith, leb, ◌==◌, if◌then◌else◌,
}
use honest_agent.Py.Str.{Str, starts_with}
use honest_agent.Py.Exec.{unicode_decode_error, Result, ok, raised}
use honest_agent.Py.Utf8.{decode_surrogatepass}

pub data Encoding : Type 0 where
  utf_8 utf_8_sig utf_16 utf_16_be utf_16_le utf_32 utf_32_be utf_32_le : Encoding

-- The tests on the zeros among the first bytes.
unfoldable pub by_zeros : List ℕ → Encoding
by_zeros (a ∷ b ∷ c ∷ d ∷ s) =
    if a == 0
    then if b == 0 then utf_32_be else utf_16_be
    else if b == 0
    then if c == 0 && d == 0 then utf_32_le else utf_16_le
    else utf_8
by_zeros (a ∷ b ∷ []) = if a == 0 then utf_16_be else if b == 0 then utf_16_le else utf_8
by_zeros _ = utf_8

unfoldable pub detect_encoding : List ℕ → Encoding
unfolding starts_with by_zeros
detect_encoding s =
    if starts_with (0 ∷ 0 ∷ 0xfe ∷ 0xff ∷ []) s || starts_with (0xff ∷ 0xfe ∷ 0 ∷ 0 ∷ []) s
    then utf_32
    else if starts_with (0xfe ∷ 0xff ∷ []) s || starts_with (0xff ∷ 0xfe ∷ []) s
    then utf_16
    else if starts_with (0xef ∷ 0xbb ∷ 0xbf ∷ []) s
    then utf_8_sig
    else by_zeros s

-- A code unit, and whether it may be one half of a surrogate pair.
abbrev pub CodeUnit : Type 0
CodeUnit = ℕ × Bool

abbrev pub is_high : CodeUnit → Bool
is_high (c, half) = half && (leb 0xd800 c && leb c 0xdbff)

abbrev pub is_low : CodeUnit → Bool
is_low (c, half) = half && (leb 0xdc00 c && leb c 0xdfff)

-- A high surrogate and a low one behind it are one character.
unfoldable pub attach : CodeUnit → List CodeUnit → List CodeUnit
attach u [] = u ∷ []
attach u (v ∷ vs) =
    if is_high u && is_low v
    then (0x10000 + (u.0 - 0xd800) * 1024 + (v.0 - 0xdc00), true) ∷ vs
    else u ∷ v ∷ vs

unfoldable pub join_pairs : List CodeUnit → List CodeUnit
unfolding attach
join_pairs [] = []
join_pairs (u ∷ us) = attach u (join_pairs us)

unfoldable pub join_surrogates : List CodeUnit → Str
unfolding join_pairs
join_surrogates us = map (λ u. u.0) (join_pairs us)

-- Bytes taken two at a time, the more significant one first if the flag says so.
unfoldable pub units_16 : Bool → List ℕ → Option (List CodeUnit)
units_16 big [] = some []
units_16 big (a ∷ []) = none
units_16 big (a ∷ b ∷ s) = elim (units_16 big s) [
  | none ↦ none
  | some us ↦ some ((if big then a * 256 + b else b * 256 + a, true) ∷ us)
]

unfoldable pub decode_16 : Bool → List ℕ → Result Str
unfolding units_16 join_surrogates
decode_16 big s = elim (units_16 big s) [
  | none ↦ raised unicode_decode_error
  | some us ↦ ok (join_surrogates us)
]

-- A character of four bytes is at most U+10FFFF.
unfoldable pub chars_32 : Bool → List ℕ → Option Str
chars_32 big [] = some []
chars_32 big (a ∷ b ∷ c ∷ d ∷ s) =
    let n =
      if big
      then a * 16777216 + b * 65536 + c * 256 + d
      else d * 16777216 + c * 65536 + b * 256 + a in
    let rest = chars_32 big s in
    if leb n 0x10ffff then elim rest [ none ↦ none | some t ↦ some (n ∷ t) ] else none
chars_32 big _ = none

unfoldable pub decode_32 : Bool → List ℕ → Result Str
unfolding chars_32
decode_32 big s = elim (chars_32 big s) [ none ↦ raised unicode_decode_error | some t ↦ ok t ]

-- `utf-16`, `utf-32` and `utf-8-sig` read past a byte order mark and, where it tells, obey it.
unfoldable pub decode_as : Encoding → List ℕ → Result Str
unfolding decode_16 decode_32
decode_as utf_8 s = decode_surrogatepass s
decode_as utf_8_sig (a ∷ b ∷ c ∷ s) = decode_surrogatepass s
decode_as utf_16 (a ∷ b ∷ s) = decode_16 (a == 0xfe) s
decode_as utf_16_be s = decode_16 true s
decode_as utf_16_le s = decode_16 false s
decode_as utf_32 (a ∷ b ∷ c ∷ d ∷ s) = decode_32 (a == 0) s
decode_as utf_32_be s = decode_32 true s
decode_as utf_32_le s = decode_32 false s
-- No mark, no such encoding.
decode_as _ s = raised unicode_decode_error

unfoldable pub decode_body : List ℕ → Result Str
unfolding detect_encoding decode_as
decode_body s = decode_as (detect_encoding s) s

-- A text whose first two bytes are neither zeros nor a part of a mark is UTF-8.
pub decode_body-utf_8 :
    (a b : ℕ) (s : List ℕ)
    → a ≢ 0
    → b ≢ 0
    → leb a 0xbf ≡ true
    → decode_body (a ∷ b ∷ s) ≡ decode_surrogatepass (a ∷ b ∷ s)
unfolding decode_body detect_encoding starts_with by_zeros decode_as
decode_body-utf_8 a b [] h k l = ground arith
decode_body-utf_8 a b (c ∷ []) h k l = ground arith
decode_body-utf_8 a b (c ∷ d ∷ s) h k l = ground arith

-- "[]" in three encodings, an unpaired surrogate, and half a character.
decode_body_tests :
    (decode_body (0xff ∷ 0xfe ∷ 0x5b ∷ 0 ∷ 0x5d ∷ 0 ∷ []) ≡ ok (0x5b ∷ 0x5d ∷ []))
    × (decode_body (0 ∷ 0x5b ∷ 0 ∷ 0x5d ∷ []) ≡ ok (0x5b ∷ 0x5d ∷ []))
    × (decode_body (0xef ∷ 0xbb ∷ 0xbf ∷ 0x5b ∷ 0x5d ∷ []) ≡ ok (0x5b ∷ 0x5d ∷ []))
    × (decode_body (0xed ∷ 0xa0 ∷ 0x80 ∷ []) ≡ ok (0xd800 ∷ []))
    × (decode_body (0xfe ∷ 0xff ∷ 0xd8 ∷ 0x3d ∷ 0xde ∷ 0 ∷ []) ≡ ok (0x1f600 ∷ []))
    × (decode_body (0x22 ∷ 0xc3 ∷ []) ≡ raised unicode_decode_error)
unfolding decode_body decode_surrogatepass
decode_body_tests = (refl, refl, refl, refl, refl, refl)
