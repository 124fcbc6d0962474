-- ===== src/Py/Url.antt =====
-- The standard library's `urllib.parse.urlsplit` (Python 3.12), as far as the program reads its
-- result: the scheme and the host. The path, the query and the fragment are not kept.
pub mod Plain
pub mod Laws
pub mod Port
use honest_agent.Prelude.{
  ℕ, Bool, false, not, ◌&&◌, ◌||◌, Option, none, some, [], ◌∷◌, ◌++◌, map, leb, ◌==◌, if◌then◌else◌,
  all,
}
use honest_agent.Py.Str.{
  Str, str_eq, has, is_empty, drop_while, partition, after_last, starts_with, remove, is_ascii,
}
use honest_agent.Py.Unicode.{Unicode, lower_ascii, is_ascii_digit}
use honest_agent.Py.Exec.{value_error, Result, ok, raised}
use honest_agent.Py.Exec.Checked.{◌>>=◌, ◌>>◌}

pub record SplitResult : Type 0 where
  pub scheme : Str
  pub netloc : Str

unfoldable pub is_alpha : ℕ → Bool
is_alpha c = leb b'A' c && leb c b'Z' || leb b'a' c && leb c b'z'

-- `c in scheme_chars`.
unfoldable pub is_scheme_char : ℕ → Bool
unfolding is_alpha is_ascii_digit
is_scheme_char c = is_alpha c || is_ascii_digit c || c == b'+' || c == b'-' || c == b'.'

-- `i > 0 and url[0].isascii() and url[0].isalpha()`, with the loop over `url[:i]`.
unfoldable pub is_scheme : Str → Bool
unfolding is_scheme_char
is_scheme [] = false
is_scheme (c ∷ s) = is_alpha c && all is_scheme_char (c ∷ s)

-- The characters that end a netloc: `/`, `?` and `#`.
unfoldable pub is_delimiter : ℕ → Bool
is_delimiter c = c == b'/' || c == b'?' || c == b'#'

-- `_splitnetloc`, the first part.
unfoldable pub until_delimiter : Str → Str
unfolding is_delimiter
until_delimiter [] = []
until_delimiter (c ∷ s) = if is_delimiter c then [] else c ∷ until_delimiter s

-- The netloc behind `//`; empty where the text does not begin so.
unfoldable pub netloc_of : Str → Str
unfolding until_delimiter
netloc_of (a ∷ b ∷ s) = if a == b'/' && b == b'/' then until_delimiter s else []
netloc_of _ = []

-- The scheme, and what stands behind its colon.
unfoldable pub split_scheme : Str → Str × Str
split_scheme url =
    let p = partition b':' url in
    if p.found && is_scheme p.before then (map lower_ascii p.before, p.after) else ([], url)

-- `netloc.rpartition("@")[2]`.
unfoldable pub host_and_port : Str → Str
host_and_port netloc = after_last b'@' netloc

-- `_hostinfo[0]`.
unfoldable pub host_part : Str → Str
unfolding host_and_port
host_part netloc =
    let p = partition b'[' (host_and_port netloc) in
    if p.found
    then (partition b']' p.after).before
    else (partition b':' (host_and_port netloc)).before

-- The tabs and line ends that `urlsplit` removes, behind its `lstrip`.
unfoldable pub clean_url : Str → Str
unfolding remove drop_while
clean_url url = remove 10 (remove 13 (remove 9 (drop_while (λ c. leb c 32) url)))

module _ (unicode : Unicode) where
  -- `_check_bracketed_netloc`.
  unfoldable pub check_bracketed : Str → Result (Unit {0})
  unfolding host_and_port partition is_empty starts_with
  check_bracketed netloc =
      let p = partition b'[' (host_and_port netloc) in
      let q = partition b']' p.after in
      if not p.found
      then (if unicode.is_bracketed_host (partition b':' (host_and_port netloc)).before
          then ok tt
          else raised value_error)
      else if not (is_empty p.before) || not (is_empty q.after || starts_with (b':' ∷ []) q.after)
      then raised value_error
      else if unicode.is_bracketed_host q.before
      then ok tt
      else raised value_error

  -- The test of the brackets in `urlsplit`.
  unfoldable pub check_brackets : Str → Result (Unit {0})
  check_brackets netloc =
      if has b'[' netloc && has b']' netloc
      then check_bracketed netloc
      else if has b'[' netloc || has b']' netloc
      then raised value_error
      else ok tt

  -- `_checknetloc`: no character may turn into a delimiter under NFKC.
  unfoldable pub check_netloc : Str → Result (Unit {0})
  check_netloc netloc =
      let n = remove b'?' (remove b'#' (remove b':' (remove b'@' netloc))) in
      let m = unicode.nfkc n in
      if is_ascii netloc || str_eq n m
      then ok tt
      else if has b'/' m || has b'?' m || has b'#' m || has b'@' m || has b':' m
      then raised value_error
      else ok tt

  unfoldable pub urlsplit : Str → Result SplitResult
  urlsplit url = do
    let (scheme, rest) = split_scheme (clean_url url)
    check_brackets (netloc_of rest)
    check_netloc (netloc_of rest)
    ok (record { scheme = scheme; netloc = netloc_of rest })

  -- The `hostname` property; what stands behind a `%` keeps its case.
  unfoldable pub hostname : SplitResult → Option Str
  hostname parts =
      let host = host_part parts.netloc in
      let p = partition b'%' host in
      if is_empty host
      then none
      else some (unicode.lower p.before ++ (if p.found then b'%' ∷ p.after else []))
