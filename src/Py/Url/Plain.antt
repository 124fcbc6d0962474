-- ===== src/Py/Url/Plain.antt =====
-- Plain texts `scheme://host[:port]`: their characters, and what the steps of `urlsplit` leave of them
-- as it is.
use honest_agent.Prelude.{
  ℕ, ◌≡◌, refl, ◌≢◌, Bool, true, false, not, ◌&&◌, ◌||◌, [], ◌∷◌, ◌++◌, arith, leb, ◌==◌, all,
}
use honest_agent.Py.Str.{Str, has, is_ascii}
use honest_agent.Py.Str.Split.{all_append, all_mono, has-all, remove_absent, drop_while_none}
use honest_agent.Py.Unicode.{is_ascii_digit}
use honest_agent.Py.Url.{is_alpha, is_scheme_char, is_scheme, until_delimiter, clean_url}

-- A character of a host name: a letter, a digit, `-`, `.` or `_`.
unfoldable pub is_host_char : ℕ → Bool
unfolding is_alpha is_ascii_digit
is_host_char c = is_alpha c || is_ascii_digit c || c == b'-' || c == b'.' || c == b'_'

-- The port behind a host: nothing, or a colon and digits.
unfoldable pub is_port : Str → Bool
unfolding is_ascii_digit
is_port [] = true
is_port (c ∷ s) = c == b':' && all is_ascii_digit s

-- The characters of `host[:port]`.
unfoldable pub is_authority_char : ℕ → Bool
unfolding is_host_char
is_authority_char c = is_host_char c || c == b':'

-- Printable ASCII other than the space.
unfoldable pub is_graphic : ℕ → Bool
is_graphic c = leb 33 c && leb c 126

pub host_char-graphic : (c : ℕ) → is_host_char c ≡ true → is_graphic c ≡ true
unfolding is_host_char is_graphic
host_char-graphic c h = ground arith

pub authority_char-graphic : (c : ℕ) → is_authority_char c ≡ true → is_graphic c ≡ true
unfolding is_authority_char is_graphic
authority_char-graphic c h = ground arith

pub digit-authority : (c : ℕ) → is_ascii_digit c ≡ true → is_authority_char c ≡ true
unfolding is_authority_char is_ascii_digit
digit-authority c h = ground arith

pub host-authority : (c : ℕ) → is_host_char c ≡ true → is_authority_char c ≡ true
unfolding is_authority_char
host-authority c h = ground arith

pub port-authority : (s : Str) → is_port s ≡ true → all is_authority_char s ≡ true
unfolding is_port
port-authority [] h = refl
port-authority (c ∷ s) h =
    let digits = all_mono is_ascii_digit is_authority_char s digit-authority in
    unfold is_authority_char in ground (arith, digits)

pub scheme-graphic : (s : Str) → is_scheme s ≡ true → all is_graphic s ≡ true
unfolding is_scheme
scheme-graphic (c ∷ s) h =
    all_mono is_scheme_char is_graphic (c ∷ s) scheme_char-graphic (ground arith)
  where
    scheme_char-graphic : (d : ℕ) → is_scheme_char d ≡ true → is_graphic d ≡ true
    scheme_char-graphic d k = unfold is_scheme_char is_graphic in ground arith
scheme-graphic [] h = cc

pub scheme-colon : (s : Str) → is_scheme s ≡ true → has b':' s ≡ false
unfolding is_scheme
scheme-colon (c ∷ s) h =
    has-all is_scheme_char b':' (c ∷ s) (unfold is_scheme_char in refl) (ground arith)
scheme-colon [] h = cc

-- `scheme://host[:port]`.
pub record IsOrigin (scheme host port : Str) : Type 0 where
  pub scheme_good : is_scheme scheme ≡ true
  pub host_good : all is_host_char host ≡ true
  pub host_given : host ≢ []
  pub port_good : is_port port ≡ true

unfoldable pub origin_text : Str → Str → Str → Str
origin_text scheme host port = scheme ++ b':' ∷ b'/' ∷ b'/' ∷ (host ++ port)

pub is_ascii-graphic : (s : Str) → all is_graphic s ≡ true → is_ascii s ≡ true
unfolding is_ascii is_graphic
is_ascii-graphic [] h = refl
is_ascii-graphic (c ∷ s) h = ground (arith, is_ascii-graphic s)

pub until_delimiter_none : (s : Str) → all is_authority_char s ≡ true → until_delimiter s ≡ s
unfolding until_delimiter is_authority_char
until_delimiter_none [] h = refl
until_delimiter_none (c ∷ s) h = ground (arith, until_delimiter_none s)

pub clean_url_graphic : (s : Str) → all is_graphic s ≡ true → clean_url s ≡ s
unfolding clean_url
clean_url_graphic s h =
    let above =
      all_mono is_graphic (λ c. not (leb c 32)) s (λ c k. unfold is_graphic in ground arith) h in
    rw (drop_while_none (λ c. leb c 32) s above) (
      rw (remove_absent 9 s (has-all is_graphic 9 s (unfold is_graphic in refl) h)) (
        rw (remove_absent 13 s (has-all is_graphic 13 s (unfold is_graphic in refl) h))
          (remove_absent 10 s (has-all is_graphic 10 s (unfold is_graphic in refl) h))))

pub authority-good :
    (scheme host port : Str)
    → IsOrigin scheme host port
    → all is_authority_char (host ++ port) ≡ true
authority-good scheme host port o =
    all_append is_authority_char host port
      (all_mono is_host_char is_authority_char host host-authority o.host_good)
      (port-authority port o.port_good)

pub origin-graphic :
    (scheme host port : Str)
    → IsOrigin scheme host port
    → all is_graphic (origin_text scheme host port) ≡ true
unfolding origin_text
origin-graphic scheme host port o =
    all_append is_graphic scheme (b':' ∷ b'/' ∷ b'/' ∷ (host ++ port))
      (scheme-graphic scheme o.scheme_good)
      (unfold is_graphic in
        all_mono is_authority_char is_graphic (host ++ port) authority_char-graphic
          (authority-good scheme host port o))

-- No authority character is a bracket, an `@`, a `%` or a delimiter.
pub absent-authority :
    (c : ℕ) (s : Str)
    → is_authority_char c ≡ false
    → all is_authority_char s ≡ true
    → has c s ≡ false
absent-authority c s = has-all is_authority_char c s
