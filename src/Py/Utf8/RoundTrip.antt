-- ===== src/Py/Utf8/RoundTrip.antt =====
-- `str.encode()`, and what the decoder makes of it.
use Prim.Native.Nat.{◌/◌, ◌%◌}
use honest_agent.Prelude.{
  ℕ, ◌+◌, ◌≡◌, refl, Bool, true, false, ◌&&◌, ◌||◌, some, List, [], ◌∷◌, ◌++◌, arith, ltb, leb,
  if◌then◌else◌, all,
}
use honest_agent.Py.Str.{Str}
use honest_agent.Py.Exec.{ok}
use honest_agent.Py.Utf8.{idle, emit, run, decode, decode_surrogatepass}

-- A Unicode scalar value: a code point that is no surrogate.
unfoldable pub is_scalar : ℕ → Bool
is_scalar c = ltb c 0xd800 || leb 0xe000 c && leb c 0x10ffff

unfoldable pub encode_char : ℕ → List ℕ
encode_char c =
    if ltb c 0x80
    then c ∷ []
    else if ltb c 0x800
    then (0xc0 + c / 64) ∷ (0x80 + c % 64) ∷ []
    else if ltb c 0x10000
    then (0xe0 + c / 4096) ∷ (0x80 + c / 64 % 64) ∷ (0x80 + c % 64) ∷ []
    else (0xf0 + c / 262144) ∷ (0x80 + c / 4096 % 64) ∷ (0x80 + c / 64 % 64) ∷ (0x80 + c % 64) ∷ []

-- `s.encode()`.
unfoldable pub encode : Str → List ℕ
unfolding encode_char
encode [] = []
encode (c ∷ s) = encode_char c ++ encode s

run-encode_char :
    (surrogates : Bool) (c : ℕ) (rest : List ℕ)
    → is_scalar c ≡ true
    → run surrogates idle (encode_char c ++ rest) ≡ emit (some c) (run surrogates idle rest)
unfolding run encode_char is_scalar
run-encode_char surrogates c rest h = ground arith

run-encode :
    (surrogates : Bool) (s : Str) → all is_scalar s ≡ true → run surrogates idle (encode s) ≡ some s
unfolding encode run emit
run-encode surrogates [] h = refl
run-encode surrogates (c ∷ s) h =
    rw
      (
        run-encode_char surrogates c (encode s) (ground arith),
        run-encode surrogates s (ground arith),
      )
      refl

-- Decoding undoes encoding.
pub decode-encode : (s : Str) → all is_scalar s ≡ true → decode (encode s) ≡ ok s
unfolding decode
decode-encode s h = rw (run-encode false s h) refl

pub decode_surrogatepass-encode :
    (s : Str) → all is_scalar s ≡ true → decode_surrogatepass (encode s) ≡ ok s
unfolding decode_surrogatepass
decode_surrogatepass-encode s h = rw (run-encode true s h) refl
