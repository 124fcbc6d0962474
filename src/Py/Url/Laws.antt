-- ===== src/Py/Url/Laws.antt =====
-- What `urlsplit` and `hostname` make of a plain `scheme://host[:port]`, and which characters a
-- host can hold.
use honest_agent.Prelude.{
  ℕ, ◌≡◌, refl, ap, ◌≢◌, inl, inr, true, false, none, some, [], ◌∷◌, ◌++◌, append-nil, map, arith,
  ◌==◌, if◌then◌else◌, Bool-cases, all,
}
use honest_agent.Py.Str.{Str, has, is_empty, partition, after_last}
use honest_agent.Py.Str.Split.{
  all_append, all_mono, has-all, partition_found, partition_absent, has-partition_before,
  has-partition_after, after_last_absent, has-after_last_self, has-after_last,
}
use honest_agent.Py.Unicode.{Unicode, UnicodeLaws, lower_ascii}
use honest_agent.Py.Exec.{value_error, ok, raised}
use honest_agent.Py.Url.{
  is_scheme, is_delimiter, until_delimiter, netloc_of, split_scheme, host_part, check_brackets,
  check_netloc, urlsplit, hostname,
}
use honest_agent.Py.Url.Plain.{
  is_host_char, is_port, is_authority_char, is_graphic, host_char-graphic, authority_char-graphic,
  host-authority, scheme-graphic, scheme-colon, IsOrigin, origin_text, is_ascii-graphic,
  until_delimiter_none, clean_url_graphic, authority-good, origin-graphic, absent-authority,
}

host_part-plain :
    (scheme host port : Str) → IsOrigin scheme host port → host_part (host ++ port) ≡ host
unfolding host_part
host_part-plain scheme host port o =
    let good = authority-good scheme host port o in
    rw
      (after_last_absent b'@' (host ++ port)
        (absent-authority b'@' _ (unfold is_authority_char in refl) good))
      (rw
        (partition_absent b'[' (host ++ port)
          (absent-authority b'[' _ (unfold is_authority_char in refl) good))
        (before-port port o.port_good))
  where
    colon-host : has b':' host ≡ false
    colon-host = has-all is_host_char b':' host (unfold is_host_char in refl) o.host_good

    before-port : (p : Str) → is_port p ≡ true → (partition b':' (host ++ p)).before ≡ host
    before-port [] k = rw append-nil (rw (partition_absent b':' host colon-host) refl)
    before-port (c ∷ p) k =
        let colon : c ≡ b':' = unfold is_port in ground arith in
        rw colon (rw (partition_found b':' host p colon-host) refl)

pub has-host_part : (c : ℕ) (s : Str) → has c (host_part s) ≡ true → has c s ≡ true
unfolding host_part
has-host_part c s h = ground (
  arith,
  has-partition_before c b':' (after_last b'@' s),
  has-partition_before c b']' (partition b'[' (after_last b'@' s)).after,
  has-partition_after c b'[' (after_last b'@' s),
  has-after_last c b'@' s,
)

pub at-host_part : (s : Str) → has b'@' (host_part s) ≡ true → ⊥
unfolding host_part
at-host_part s h = ground (
  arith,
  has-partition_before b'@' b':' (after_last b'@' s),
  has-partition_before b'@' b']' (partition b'[' (after_last b'@' s)).after,
  has-partition_after b'@' b'[' (after_last b'@' s),
  has-after_last_self b'@' s,
)

delimiter-until : (c : ℕ) (s : Str) → is_delimiter c ≡ true → has c (until_delimiter s) ≡ false
unfolding until_delimiter has
delimiter-until c [] h = refl
delimiter-until c (d ∷ s) h = elim (Bool-cases (d == c)) [
  | inl same ↦ let e : d ≡ c = ground arith in ground (arith, ap is_delimiter e)
  | inr other ↦ ground (arith, delimiter-until c s h)
]

pub delimiter-netloc : (c : ℕ) (s : Str) → is_delimiter c ≡ true → has c (netloc_of s) ≡ false
unfolding netloc_of
delimiter-netloc c [] h = unfold has in refl
delimiter-netloc c (a ∷ []) h = unfold has in refl
delimiter-netloc c (a ∷ b ∷ s) h = unfold has in ground (arith, delimiter-until c s h)

module _ (unicode : Unicode) where
  pub urlsplit-origin :
      (scheme host port : Str)
      → IsOrigin scheme host port
      → urlsplit unicode (origin_text scheme host port)
        ≡ ok (record { scheme = map lower_ascii scheme; netloc = host ++ port })
  unfolding urlsplit split_scheme origin_text netloc_of check_brackets check_netloc
  urlsplit-origin scheme host port o =
      let good = authority-good scheme host port o in
      rw (clean_url_graphic (origin_text scheme host port) (origin-graphic scheme host port o)) (
        rw
          (partition_found b':' scheme (b'/' ∷ b'/' ∷ (host ++ port))
            (scheme-colon scheme o.scheme_good))
          (rw o.scheme_good (
            rw (until_delimiter_none (host ++ port) good) (
              rw (absent-authority b'[' _ (unfold is_authority_char in refl) good) (
                rw (absent-authority b']' _ (unfold is_authority_char in refl) good) (
                  rw
                    (is_ascii-graphic _
                      (all_mono is_authority_char is_graphic _ authority_char-graphic good))
                    refl))))))

  -- The host of such a text is its host, lowered.
  pub hostname-origin :
      (scheme host port : Str)
      → UnicodeLaws unicode
      → IsOrigin scheme host port
      → hostname unicode (record { scheme = map lower_ascii scheme; netloc = host ++ port })
        ≡ some (map lower_ascii host)
  unfolding hostname
  hostname-origin scheme host port laws o = rw (host_part-plain scheme host port o) (
      rw
        (partition_absent b'%' host
          (has-all is_host_char b'%' host (unfold is_host_char in refl) o.host_good))
        (rw
          (laws.lower-ascii host (
            is_ascii-graphic host
              (all_mono is_host_char is_graphic host host_char-graphic o.host_good)))
          (given host o.host_given)))
    where
      given :
          (h : Str)
          → h ≢ []
          → (if is_empty h then none else some (map lower_ascii h ++ [])) ≡ some (map lower_ascii h)
      given [] n = absurd (n refl)
      given (c ∷ h) n = unfold is_empty in rw append-nil refl

-- `scheme://[host`, with a bracket that nothing closes.
unfoldable pub open_bracket_text : Str → Str → Str
open_bracket_text scheme host = scheme ++ b':' ∷ b'/' ∷ b'/' ∷ b'[' ∷ host

pub open_bracket-graphic :
    (scheme host : Str)
    → is_scheme scheme ≡ true
    → all is_host_char host ≡ true
    → all is_graphic (open_bracket_text scheme host) ≡ true
unfolding open_bracket_text
open_bracket-graphic scheme host s h =
    all_append is_graphic scheme (b':' ∷ b'/' ∷ b'/' ∷ b'[' ∷ host) (scheme-graphic scheme s)
      (unfold is_graphic in all_mono is_host_char is_graphic host host_char-graphic h)

bracket-open :
    (host : Str)
    → all is_host_char host ≡ true
    → (has b'[' (b'[' ∷ host) ≡ true) × (has b']' (b'[' ∷ host) ≡ false)
bracket-open host h =
    let closed = has-all is_host_char b']' host (unfold is_host_char in refl) h in
    (unfold has in refl, unfold has in ground (arith, closed))

-- A bracket that nothing closes makes `urlsplit` raise ValueError.
pub urlsplit-open_bracket :
    (unicode : Unicode) (scheme host : Str)
    → is_scheme scheme ≡ true
    → all is_host_char host ≡ true
    → urlsplit unicode (open_bracket_text scheme host) ≡ raised value_error
unfolding urlsplit split_scheme open_bracket_text netloc_of check_brackets
urlsplit-open_bracket unicode scheme host s h =
    let good = all_mono is_host_char is_authority_char host host-authority h in
    rw (clean_url_graphic (open_bracket_text scheme host) (open_bracket-graphic scheme host s h)) (
      rw (partition_found b':' scheme (b'/' ∷ b'/' ∷ b'[' ∷ host) (scheme-colon scheme s)) (
        rw s (
          unfold until_delimiter in
          rw (until_delimiter_none host good)
            (let (opened, closed) = bracket-open host h in rw opened (rw closed refl)))))
