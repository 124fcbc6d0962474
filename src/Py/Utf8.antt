-- ===== src/Py/Utf8.antt =====
-- `bytes.decode()`: the UTF-8 decoder, byte by byte. It is strict, or lets encoded surrogates
-- pass as `errors="surrogatepass"` does; `surrogates` says which.
pub mod RoundTrip
use honest_agent.Prelude.{
  ℕ, ◌+◌, ◌-◌, ◌*◌, ◌≡◌, refl, Bool, true, false, not, ◌&&◌, Option, none, some, List, [], ◌∷◌,
  arith, leb, ◌==◌, if◌then◌else◌, all,
}
use honest_agent.Py.Str.{Str}
use honest_agent.Py.Exec.{unicode_decode_error, Result, ok, raised}

-- The bytes that are still due, the bits read so far, and the range of the next byte.
pub record Decoder : Type 0 where
  due : ℕ
  bits : ℕ
  low : ℕ
  high : ℕ

abbrev pub idle : Decoder
idle = record { due = 0; bits = 0; low = 0; high = 0 }

abbrev waiting : ℕ → ℕ → ℕ → ℕ → Option (Decoder × Option ℕ)
waiting due bits low high = some (record { due = due; bits = bits; low = low; high = high }, none)

-- A byte where a character begins.
unfoldable pub first_byte : Bool → ℕ → Option (Decoder × Option ℕ)
first_byte surrogates b =
    if leb b 0x7f
    then some (idle, some b)
    else if leb b 0xc1
    then none
    else if leb b 0xdf
    then waiting 1 (b - 0xc0) 0x80 0xbf
    else if b == 0xe0
    then waiting 2 0 0xa0 0xbf
    else if b == 0xed
    then waiting 2 0xd 0x80 (if surrogates then 0xbf else 0x9f)
    else if leb b 0xef
    then waiting 2 (b - 0xe0) 0x80 0xbf
    else if b == 0xf0
    then waiting 3 0 0x90 0xbf
    else if leb b 0xf3
    then waiting 3 (b - 0xf0) 0x80 0xbf
    else if b == 0xf4
    then waiting 3 4 0x80 0x8f
    else none

-- A byte inside a character.
unfoldable pub next_byte : Decoder → ℕ → Option (Decoder × Option ℕ)
next_byte d b =
    let bits = d.bits * 64 + (b - 0x80) in
    if not (leb d.low b && leb b d.high)
    then none
    else if d.due == 1
    then some (idle, some bits)
    else waiting (d.due - 1) bits 0x80 0xbf

-- The state after a byte, and the character that it completes.
unfoldable pub step : Bool → Decoder → ℕ → Option (Decoder × Option ℕ)
unfolding first_byte next_byte
step surrogates d b = if d.due == 0 then first_byte surrogates b else next_byte d b

unfoldable pub emit : Option ℕ → Option Str → Option Str
emit none s = s
emit (some c) none = none
emit (some c) (some s) = some (c ∷ s)

unfoldable pub run : Bool → Decoder → List ℕ → Option Str
unfolding step emit
run surrogates d [] = if d.due == 0 then some [] else none
run surrogates d (b ∷ s) = elim (step surrogates d b) [
  | none ↦ none
  | some (d', out) ↦ emit out (run surrogates d' s)
]

abbrev decoded : Option Str → Result Str
decoded none = raised unicode_decode_error
decoded (some t) = ok t

unfoldable pub decode : List ℕ → Result Str
unfolding run
decode s = decoded (run false idle s)

-- `s.decode("utf-8", "surrogatepass")`.
unfoldable pub decode_surrogatepass : List ℕ → Result Str
unfolding run
decode_surrogatepass s = decoded (run true idle s)

run-ascii :
    (surrogates : Bool) (s : List ℕ)
    → all (λ b. leb b 0x7f) s ≡ true
    → run surrogates idle s ≡ some s
unfolding run
run-ascii surrogates [] h = refl
run-ascii surrogates (b ∷ s) h = ground (arith, run-ascii surrogates s)

-- ASCII bytes are their own characters.
pub decode-ascii : (s : List ℕ) → all (λ b. leb b 0x7f) s ≡ true → decode s ≡ ok s
unfolding decode
decode-ascii s h = rw (run-ascii false s h, decode) refl

pub decode_surrogatepass-ascii :
    (s : List ℕ) → all (λ b. leb b 0x7f) s ≡ true → decode_surrogatepass s ≡ ok s
unfolding decode_surrogatepass
decode_surrogatepass-ascii s h = rw (run-ascii true s h, decode_surrogatepass) refl

-- No character begins with a continuation byte.
pub decode_surrogatepass-continuation :
    (b : ℕ) (s : List ℕ)
    → leb 0x80 b && leb b 0xbf ≡ true
    → decode_surrogatepass (b ∷ s) ≡ raised unicode_decode_error
unfolding decode_surrogatepass run
decode_surrogatepass-continuation b s h = ground arith

-- A euro sign and an emoji; a lone continuation byte, an overlong form and a surrogate.
decode_tests :
    (decode (0xe2 ∷ 0x82 ∷ 0xac ∷ 0xf0 ∷ 0x9f ∷ 0x98 ∷ 0x80 ∷ []) ≡ ok (0x20ac ∷ 0x1f600 ∷ []))
    × (decode (0x80 ∷ []) ≡ raised unicode_decode_error)
    × (decode (0xc0 ∷ 0xaf ∷ []) ≡ raised unicode_decode_error)
    × (decode (0xed ∷ 0xa0 ∷ 0x80 ∷ []) ≡ raised unicode_decode_error)
unfolding decode
decode_tests = (refl, refl, refl, refl)
