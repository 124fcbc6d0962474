-- ===== src/Mcp/Tokens/Ascii.antt =====
-- A token library whose tokens are in ASCII: the plain one, with other letters.
use honest_agent.Prelude.{
  ℕ, zero, suc, ◌+◌, ◌==◌, ◌≡◌, refl, ◌∙◌, true, [], ◌∷◌, arith, if◌then◌else◌,
}
use honest_agent.Py.Str.{Str, is_ascii}
use honest_agent.Py.Jwt.{Jwt}
use honest_agent.Mcp.Tokens.{algorithm}
use honest_agent.Mcp.Tokens.Library.{DecodesOwnTokens}
use honest_agent.Mcp.Tokens.Plain.{plain_jwt, whole, plain_decodes}

-- A token of the plain library, with every code written in ones that end in a zero: ASCII, as the
-- library's tokens are.
unfoldable pub ones : ℕ → Str → Str
ones zero rest = b'0' ∷ rest
ones (suc n) rest = b'1' ∷ ones n rest

unfoldable pub to_ascii : Str → Str
unfolding ones
to_ascii [] = []
to_ascii (c ∷ s) = ones c (to_ascii s)

unfoldable pub from_ascii : (counted : ℕ) → Str → Str
from_ascii n [] = []
from_ascii n (c ∷ s) =
    let more = from_ascii (suc n) s in
    let next = from_ascii 0 s in if c == b'1' then more else n ∷ next

from_ascii-ones : (n c : ℕ) (rest : Str) → from_ascii n (ones c rest) ≡ (n + c) ∷ from_ascii 0 rest
unfolding from_ascii ones
from_ascii-ones n zero rest = ground arith
from_ascii-ones n (suc c) rest = ground (arith, from_ascii-ones (suc n) c rest)

from_ascii-to_ascii : (s : Str) → from_ascii 0 (to_ascii s) ≡ s
unfolding to_ascii
from_ascii-to_ascii [] = unfold from_ascii in refl
from_ascii-to_ascii (c ∷ s) =
    ground (arith, from_ascii-ones 0 c (to_ascii s), from_ascii-to_ascii s)

is_ascii-ones : (c : ℕ) (rest : Str) → is_ascii (ones c rest) ≡ is_ascii rest
unfolding ones is_ascii
is_ascii-ones zero rest = refl
is_ascii-ones (suc c) rest = is_ascii-ones c rest

pub to_ascii-is_ascii : (s : Str) → is_ascii (to_ascii s) ≡ true
unfolding to_ascii
to_ascii-is_ascii [] = unfold is_ascii in refl
to_ascii-is_ascii (c ∷ s) = is_ascii-ones c (to_ascii s) ∙ to_ascii-is_ascii s

abbrev pub ascii_jwt : Jwt Str
ascii_jwt = record plain_jwt {
  encode = λ claims key algorithm. to_ascii (plain_jwt.encode claims key algorithm);
  decode = λ at token key options. plain_jwt.decode at (from_ascii 0 token) key options;
}

pub ascii_decodes : DecodesOwnTokens ascii_jwt whole
ascii_decodes = record {
  decode-encode = λ claims key key' issuer audience iat exp at options plain.
      rw (from_ascii-to_ascii (plain_jwt.encode claims key algorithm))
        (plain_decodes.decode-encode claims key key' issuer audience iat exp at options plain);
}
