-- ===== src/Mcp/Tokens/Plain.antt =====
-- A token library over a plain serialization, with no signature but the key itself, which keeps
-- what `Library` asks.
use honest_agent.Prelude.{
  ℕ, zero, suc, ◌+◌, ◌≡◌, refl, ap, Bool, true, false, [], ◌∷◌, ◌++◌, arith, ltb, if◌then◌else◌,
  length,
}
use honest_agent.Py.Str.{Str, codes}
use honest_agent.Py.Value.{ℤ, pos, negsuc, Float, Value, Fields, null, int, str, end, field, get}
use honest_agent.Py.Exec.{py_jwt_error, Result, ok, raised}
use honest_agent.Py.Jwt.{Jwt, Floats, DecodeOptions}
use honest_agent.Mcp.Tokens.Library.{is_plain, PlainClaims, is_current, DecodesOwnTokens}

-- A text behind its length, and the way back.
unfoldable pub frame : Str → Str → Str
frame s rest = length s ∷ (s ++ rest)

unfoldable pub split : ℕ → Str → Str × Str
split zero s = ([], s)
split (suc n) [] = ([], [])
split (suc n) (c ∷ s) = let (a, b) = split n s in (c ∷ a, b)

split-append : (s rest : Str) → split (length s) (s ++ rest) ≡ (s, rest)
unfolding split
split-append [] rest = refl
split-append (c ∷ s) rest = ground (arith, split-append s rest)

unfoldable pub cut : Str → Str × Str
cut [] = ([], [])
cut (n ∷ s) = split n s

cut-frame : (s rest : Str) → cut (frame s rest) ≡ (s, rest)
unfolding cut frame
cut-frame s rest = split-append s rest

unfoldable pub text_of : Value → Str
text_of (str s) = s
text_of _ = []

unfoldable pub number_of : Value → ℕ
number_of (int (pos n)) = n
number_of _ = 0

unfoldable pub size : Fields → ℕ
size end = 0
size (field k v fs) = suc (size fs)

-- A field is its name, a mark for the kind of its value, and the value.
unfoldable pub write_claims : Fields → Str
write_claims end = []
write_claims (field k (str s) fs) = frame k (0 ∷ frame s (write_claims fs))
write_claims (field k (int (pos n)) fs) = frame k (1 ∷ n ∷ write_claims fs)
write_claims (field k _ fs) = []

unfoldable pub read_value : Str → Value × Str
read_value (zero ∷ s) = let (t, rest) = cut s in (str t, rest)
read_value (suc m ∷ n ∷ rest) = (int (pos n), rest)
read_value _ = (null, [])

unfoldable pub read_claims : ℕ → Str → Fields
read_claims zero s = end
read_claims (suc n) s =
    let (k, r) = cut s in let (v, rest) = read_value r in field k v (read_claims n rest)

read-write_claims :
    (claims : Fields)
    → is_plain claims ≡ true
    → read_claims (size claims) (write_claims claims) ≡ claims
unfolding read_claims read_value write_claims size is_plain
read-write_claims end h = refl
read-write_claims (field k (str s) fs) h =
    simp cut-frame (ap (field k (str s)) (read-write_claims fs h))
read-write_claims (field k (int (pos n)) fs) h =
    simp cut-frame (ap (field k (int (pos n))) (read-write_claims fs h))
read-write_claims (field k _ fs) h = absurd (ground arith)

unfoldable pub encode_claims : Fields → Str → Str → Str
encode_claims claims key a = frame key (size claims ∷ write_claims claims)

unfoldable pub accept : Float → Str → DecodeOptions → Str → Fields → Result Fields
accept at key' options key claims =
    if is_current options claims key key' (text_of (get (codes "iss") claims))
      (text_of (get (codes "aud") claims)) (number_of (get (codes "iat") claims))
      (number_of (get (codes "exp") claims)) at
    then ok claims
    else raised py_jwt_error

unfoldable pub finish : Float → Str → DecodeOptions → Str → Str → Result Fields
finish at key' options key [] = raised py_jwt_error
finish at key' options key (n ∷ body) = accept at key' options key (read_claims n body)

unfoldable pub decode_token : Float → Str → Str → DecodeOptions → Result Fields
decode_token at token key' options = let (key, r) = cut token in finish at key' options key r

abbrev pub plain_jwt : Jwt Str
plain_jwt = record {
  get_unverified_header = λ token. raised py_jwt_error;
  decode = decode_token;
  encode = encode_claims;
}

unfoldable pub lt_int : ℕ → ℤ → Bool
lt_int x (pos n) = ltb x n
lt_int x (negsuc n) = false

-- Times that are whole numbers.
abbrev pub whole : Floats
whole = record { add_int = λ x n. x + n; lt = ltb; lt_int = lt_int; truncate = λ x. x }

accept-PlainClaims :
    (claims : Fields) (key key' issuer audience : Str) (iat exp : ℕ) (at : Float)
    (options : DecodeOptions)
    → PlainClaims claims issuer audience iat exp
    → accept at key' options key claims ≡ (
        if is_current options claims key key' issuer audience iat exp at
        then ok claims
        else raised py_jwt_error)
unfolding accept text_of number_of
accept-PlainClaims claims key key' issuer audience iat exp at options p =
    rw p.named_issuer (rw p.named_audience (rw p.issued (rw p.expires refl)))

pub plain_decodes : DecodesOwnTokens plain_jwt whole
unfolding decode_token encode_claims finish
plain_decodes = record {
  decode-encode = λ claims key key' issuer audience iat exp at options p.
      rw (cut-frame key (size claims ∷ write_claims claims)) (
        rw (read-write_claims claims p.plain)
          (accept-PlainClaims claims key key' issuer audience iat exp at options p));
}
