-- ===== src/Py/Unicode.antt =====
-- What the program uses of the Unicode database and of the `ipaddress` module: large tables and
-- parsers of the interpreter, which are parameters, with the laws that the proofs use.
use honest_agent.Prelude.{
  ℕ, ◌+◌, ◌-◌, ◌≡◌, refl, Bool, true, ◌&&◌, Option, none, some, [], ◌∷◌, map, arith, leb,
  if◌then◌else◌,
}
use honest_agent.Py.Str.{Str, has, is_ascii}

pub record Unicode : Type 0 where
  -- `s.lower()`.
  pub lower : Str → Str
  -- `unicodedata.normalize("NFKC", s)`.
  pub nfkc : Str → Str
  -- What `str.isdigit` accepts, for one character.
  pub is_digit : ℕ → Bool
  -- The digit that `int` reads at a character, for the characters that it takes.
  pub digit_value : ℕ → Option ℕ
  -- Whether `urllib.parse._check_bracketed_host` accepts an address between brackets.
  pub is_bracketed_host : Str → Bool

-- `c.lower()`, for one ASCII character.
unfoldable pub lower_ascii : ℕ → ℕ
lower_ascii c = if leb b'A' c && leb c b'Z' then c + 32 else c

unfoldable pub is_ascii_digit : ℕ → Bool
is_ascii_digit c = leb b'0' c && leb c b'9'

pub record UnicodeLaws (unicode : Unicode) : Type 0 where
  pub lower-ascii : (s : Str) → is_ascii s ≡ true → unicode.lower s ≡ map lower_ascii s
  -- Lowering brings in no punctuation.
  pub lower-punctuation :
      (c : ℕ) (s : Str)
      → leb 33 c && leb c 64 ≡ true
      → has c (unicode.lower s) ≡ true
      → has c s ≡ true
  pub is_digit-ascii : (c : ℕ) → leb c 127 ≡ true → unicode.is_digit c ≡ is_ascii_digit c

-- The database cut down to ASCII.
abbrev pub ascii_unicode : Unicode
ascii_unicode = record {
  lower = map lower_ascii;
  nfkc = λ s. s;
  is_digit = is_ascii_digit;
  digit_value = λ c. if is_ascii_digit c then some (c - 48) else none;
  is_bracketed_host = λ s. has b':' s;
}

lower_ascii-punctuation :
    (c : ℕ) (s : Str)
    → leb 33 c && leb c 64 ≡ true
    → has c (map lower_ascii s) ≡ true
    → has c s ≡ true
unfolding has lower_ascii
lower_ascii-punctuation c [] p h = h
lower_ascii-punctuation c (d ∷ s) p h = ground (arith, lower_ascii-punctuation c s p)

pub ascii_unicode_laws : UnicodeLaws ascii_unicode
ascii_unicode_laws = record {
  lower-ascii = λ s h. refl;
  lower-punctuation = lower_ascii-punctuation;
  is_digit-ascii = λ c h. refl;
}
