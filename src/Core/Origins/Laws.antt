-- ===== src/Core/Origins/Laws.antt =====
-- Which host an Origin, a Referer or a Host header counts for, and when it is allowed.
use honest_agent.Prelude.{
  ℕ, ◌≡◌, refl, ap, ◌≢◌, ◌⊎◌, inl, inr, true, false, not, ◌&&◌, Option, none, some, List, [], ◌∷◌,
  ◌++◌, map, arith, leb, ◌==◌, if◌then◌else◌, ==_refl, Bool-cases, all,
}
use honest_agent.Py.Str.{
  Str, codes, str_eq, member, has, is_empty, is_space, strip, rstrip, partition,
}
use honest_agent.Py.Str.Laws.{eq_of_str_eq}
use honest_agent.Py.Str.Split.{
  all_mono, has-append, has-partition_before, has-partition_after, has-drop_while_end,
  drop_while_none, drop_while_end_none,
}
use honest_agent.Py.Unicode.{Unicode, UnicodeLaws, lower_ascii}
use honest_agent.Py.Exec.{value_error, ok, raised, Result-cases}
use honest_agent.Py.Url.{
  SplitResult, urlsplit, hostname, is_scheme, is_delimiter, host_part, netloc_of, split_scheme,
  clean_url,
}
use honest_agent.Py.Url.Plain.{
  IsOrigin, origin_text, is_graphic, is_host_char, origin-graphic, is_ascii-graphic,
}
use honest_agent.Py.Url.Laws.{
  urlsplit-origin, hostname-origin, has-host_part, at-host_part, delimiter-netloc,
  open_bracket_text, open_bracket-graphic, urlsplit-open_bracket,
}
use honest_agent.Core.Origins.{trimmed_host, is_void, origin_host, host_allowed}

strip-graphic : (s : Str) → all is_graphic s ≡ true → strip s ≡ s
unfolding strip
strip-graphic s h =
    let none_space =
      all_mono is_graphic (λ c. not (is_space c)) s
        (λ c k. unfold is_graphic is_space in ground arith) h in
    rw (drop_while_none is_space s none_space) (drop_while_end_none is_space s none_space)

-- Texts that differ in whether they have a character differ.
str_eq-has : (c : ℕ) (s t : Str) → has c s ≡ true → has c t ≡ false → str_eq s t ≡ false
str_eq-has c s t h k = elim (Bool-cases (str_eq s t)) [
  | inl same ↦ let e = eq_of_str_eq s t same in ground (arith, ap (has c) e)
  | inr differ ↦ differ
]

has-lower_ascii :
    (c : ℕ) (s : Str) → lower_ascii c ≡ c → has c s ≡ true → has c (map lower_ascii s) ≡ true
unfolding has
has-lower_ascii c [] e h = h
has-lower_ascii c (d ∷ s) e h = elim (Bool-cases (d == c)) [
  | inl same ↦ let p : d ≡ c = ground arith in rw p (rw e (rw (==_refl c) refl))
  | inr other ↦ ground (arith, has-lower_ascii c s e)
]

is_empty-has : (c : ℕ) (s : Str) → has c s ≡ true → is_empty s ≡ false
unfolding has is_empty
is_empty-has c [] h = ground arith
is_empty-has c (d ∷ s) h = refl

is_empty-map : (f : ℕ → ℕ) (s : Str) → is_empty (map f s) ≡ is_empty s
unfolding is_empty
is_empty-map f [] = refl
is_empty-map f (c ∷ s) = refl

map-ne-nil : (f : ℕ → ℕ) (s : Str) → s ≢ [] → map f s ≢ []
map-ne-nil f [] n h = n refl
map-ne-nil f (c ∷ s) n h = cc

is_empty-scheme : (s : Str) → is_scheme s ≡ true → is_empty s ≡ false
unfolding is_scheme is_empty
is_empty-scheme [] h = ground arith
is_empty-scheme (c ∷ s) h = refl

colon-origin : (scheme host port : Str) → has b':' (origin_text scheme host port) ≡ true
unfolding origin_text
colon-origin scheme host port =
    rw (has-append b':' scheme (b':' ∷ b'/' ∷ b'/' ∷ (host ++ port))) (unfold has in ground arith)

module _ (unicode : Unicode) (laws : UnicodeLaws unicode) where
  is_void-graphic :
      (text : Str)
      → has b':' text ≡ true
      → all is_graphic text ≡ true
      → is_void unicode text ≡ false
  unfolding is_void
  is_void-graphic text colon good =
      let lowered = laws.lower-ascii text (is_ascii-graphic text good) in
      let kept = has-lower_ascii b':' text (unfold lower_ascii in refl) colon in
      rw lowered (
        rw (str_eq-has b':' (map lower_ascii text) (codes "null") kept (unfold has codes in refl))
          (rw (is_empty-has b':' text colon) refl))

  trimmed_host-given : (h : Str) → h ≢ [] → trimmed_host (some h) ≡ some (rstrip b'.' h)
  unfolding trimmed_host
  trimmed_host-given [] n = absurd (n refl)
  trimmed_host-given (c ∷ h) n = refl

  -- The host of `scheme://host[:port]` is the host in lower case with no dots at its end.
  pub origin_host-plain :
      (scheme host port : Str)
      → IsOrigin scheme host port
      → origin_host unicode (origin_text scheme host port)
        ≡ ok (some (rstrip b'.' (map lower_ascii host)))
  unfolding origin_host
  origin_host-plain scheme host port o =
      rw (strip-graphic (origin_text scheme host port) (origin-graphic scheme host port o)) (
        rw
          (is_void-graphic (origin_text scheme host port) (colon-origin scheme host port)
            (origin-graphic scheme host port o))
          (rw (urlsplit-origin unicode scheme host port o) (
            rw (hostname-origin unicode scheme host port laws o) (
              rw (is_empty-map lower_ascii scheme) (
                rw (is_empty-scheme scheme o.scheme_good) (
                  ap ok (
                    trimmed_host-given (map lower_ascii host)
                      (map-ne-nil lower_ascii host o.host_given))))))))

  -- With Unicode tables that keep ASCII as it is: a text `scheme://host`, with or without a port,
  -- where the scheme is well formed and not empty and the host is a plain name, is allowed exactly
  -- by a list that holds this host in small letters and with no dot at its end: neither the scheme
  -- nor the port counts, and no other host does.
  pub host_allowed-plain :
      (scheme host port : Str) (allowed_hosts : List Str)
      → IsOrigin scheme host port
      → host_allowed unicode (origin_text scheme host port) allowed_hosts
        ≡ ok (member (rstrip b'.' (map lower_ascii host)) allowed_hosts)
  unfolding host_allowed
  host_allowed-plain scheme host port allowed_hosts o =
      rw (origin_host-plain scheme host port o) refl

  hostname-punctuation :
      (c : ℕ) (parts : SplitResult) (h : Str)
      → leb 33 c && leb c 64 ≡ true
      → hostname unicode parts ≡ some h
      → has c h ≡ true
      → (has c (host_part parts.netloc) ≡ true) ⊎ (c ≡ b'%')
  unfolding hostname
  hostname-punctuation c parts h p e k =
      let host = host_part parts.netloc in
      let q = partition b'%' host in
      let tail : Str = if q.found then b'%' ∷ q.after else [] in
      unfold has in
      ground (
        arith,
        has-append c (unicode.lower q.before) tail,
        laws.lower-punctuation c q.before p,
        has-partition_before c b'%' host,
        has-partition_after c b'%' host,
      )

  urlsplit-netloc :
      (s : Str) (parts : SplitResult)
      → urlsplit unicode s ≡ ok parts
      → (rest : Str) × (parts.netloc ≡ netloc_of rest)
  unfolding urlsplit
  urlsplit-netloc s parts e = ((split_scheme (clean_url s)).1, ground arith)

  trimmed_host_sound :
      (o : Option Str) (h : Str)
      → trimmed_host o ≡ some h
      → (g : Str) × (o ≡ some g) × (h ≡ rstrip b'.' g)
  unfolding trimmed_host
  trimmed_host_sound none h e = absurd (ground arith)
  trimmed_host_sound (some []) h e = absurd (ground arith)
  trimmed_host_sound (some (c ∷ s)) h e = (c ∷ s, refl, ground arith)

  forbidden :
      (c : ℕ) → (is_delimiter c ≡ true) ⊎ (c ≡ b'@') → (leb 33 c && leb c 64 ≡ true) × (c ≢ b'%')
  unfolding is_delimiter
  forbidden c p = ground arith

  forbidden-netloc :
      (c : ℕ) (s : Str)
      → (is_delimiter c ≡ true) ⊎ (c ≡ b'@')
      → has c (host_part (netloc_of s)) ≡ false
  forbidden-netloc c s (inl d) =
      ground (arith, has-host_part c (netloc_of s), delimiter-netloc c s d)
  forbidden-netloc c s (inr a) = rw a (elim (Bool-cases (has b'@' (host_part (netloc_of s)))) [
    | inl there ↦ absurd (at-host_part (netloc_of s) there)
    | inr absent ↦ absent
  ])

  -- No host that a value counts for holds `/`, `?`, `#` or `@`, whatever the value is.
  pub origin_host-punctuation :
      (c : ℕ) (value h : Str)
      → (is_delimiter c ≡ true) ⊎ (c ≡ b'@')
      → origin_host unicode value ≡ ok (some h)
      → has c h ≡ false
  unfolding origin_host
  origin_host-punctuation c value h p e = elim (Result-cases (urlsplit unicode (strip value))) [
    | inr (x, failed) ↦ absurd (ground arith)
    | inl (parts, split) ↦
        let (g, named, trimmed) = trimmed_host_sound (hostname unicode parts) h (ground arith) in
        let (rest, at) = urlsplit-netloc (strip value) parts split in
        let (range, plain) = forbidden c p in
        elim (Bool-cases (has c h)) [
          | inr absent ↦ absent
          | inl there ↦
              let in_g : has c g ≡ true =
                has-drop_while_end c (λ d. d == b'.') g (unfold rstrip in ground arith) in
              ground (
                arith,
                hostname-punctuation c parts g range named in_g,
                forbidden-netloc c rest p,
                ap host_part at,
              )
        ]
  ]

  -- An Origin `scheme://[host` with no closing bracket is not turned down: ValueError comes out.
  pub host_allowed-open_bracket :
      (scheme host : Str) (allowed_hosts : List Str)
      → is_scheme scheme ≡ true
      → all is_host_char host ≡ true
      → host_allowed unicode (open_bracket_text scheme host) allowed_hosts ≡ raised value_error
  unfolding host_allowed origin_host
  host_allowed-open_bracket scheme host allowed_hosts s h =
      let text = open_bracket_text scheme host in
      let good = open_bracket-graphic scheme host s h in
      let colon : has b':' text ≡ true =
        unfold open_bracket_text has in
        rw (has-append b':' scheme (b':' ∷ b'/' ∷ b'/' ∷ b'[' ∷ host)) (ground arith) in
      let shown : is_void unicode text ≡ false = is_void-graphic text colon good in
      rw (strip-graphic text good)
        (rw shown (rw (urlsplit-open_bracket unicode scheme host s h) refl))
