-- ===== src/Core/Origins/Tests.antt =====
-- The origins of the repository's unit tests, and some malformed ones.
use honest_agent.Prelude.{
  String, ◌≡◌, refl, inr, Bool, true, false, none, some, List, [], ◌∷◌, map, arith,
}
use honest_agent.Py.Str.{Str, codes, has, member, rstrip}
use honest_agent.Py.Unicode.{ascii_unicode, ascii_unicode_laws, lower_ascii}
use honest_agent.Py.Url.{is_scheme}
use honest_agent.Py.Url.Plain.{IsOrigin, origin_text, is_host_char, is_port}
use honest_agent.Core.Origins.Laws.{host_allowed-plain, origin_host-punctuation}
use honest_agent.Py.Exec.{Result, ok, raised, value_error}
use honest_agent.Core.Origins.Run.{running}
use honest_agent.Core.Origins.{origin_host, host_allowed, authority_host, authority_allowed}

abbrev allowed : List Str
allowed = codes "allowed.com" ∷ codes "tenant-a.example.com" ∷ codes "localhost" ∷ []

abbrev allows : String → Result Bool
allows value = host_allowed ascii_unicode (codes value) allowed

host_allowed_tests :
    (allows "https://allowed.com" ≡ ok true)
    × (allows "https://Allowed.com" ≡ ok true)
    × (allows "https://allowed.com:8443" ≡ ok true)
    × (allows "https://allowed.com." ≡ ok true)
    × (allows "https://allowed.com.evil.com" ≡ ok false)
    × (allows "https://evil-allowed.com" ≡ ok false)
    × (allows "https://www.allowed.com" ≡ ok false)
    × (allows "null" ≡ ok false)
    × (allows "   " ≡ ok false)
    × (allows "allowed.com" ≡ ok false)
    × (allows "https://allowed.com@evil.com/allowed.com" ≡ ok false)
    × (allows "https://[::1" ≡ raised value_error)
unfolding running
host_allowed_tests = (refl, refl, refl, refl, refl, refl, refl, refl, refl, refl, refl, refl)

authority_host_tests :
    (authority_host ascii_unicode (codes "localhost:8000") ≡ ok (some (codes "localhost")))
    × (authority_host ascii_unicode (codes "[::1]:8000") ≡ ok (some (codes "::1")))
    × (authority_allowed ascii_unicode (codes "evil.com") allowed ≡ ok false)
    × (authority_host ascii_unicode (codes "") ≡ ok none)
    × (origin_host ascii_unicode (codes "https://.") ≡ ok (some []))
unfolding running
authority_host_tests = (refl, refl, refl, refl, refl)

IsOrigin-a : IsOrigin (codes "https") (codes "Allowed.com") (codes ":8443")
unfolding running is_host_char is_port is_scheme
IsOrigin-a = record {
  scheme_good = refl;
  host_good = refl;
  host_given = λ h. ground arith;
  port_good = refl;
}

host_allowed-plain_example :
    host_allowed ascii_unicode
      (origin_text (codes "https") (codes "Allowed.com") (codes ":8443"))
      allowed
    ≡ ok (member (rstrip b'.' (map lower_ascii (codes "Allowed.com"))) allowed)
host_allowed-plain_example =
    host_allowed-plain ascii_unicode ascii_unicode_laws (codes "https") (codes "Allowed.com")
      (codes ":8443") allowed IsOrigin-a

abbrev tricky : Str
tricky = codes "https://allowed.com@evil.com/allowed.com"

tricky_host : origin_host ascii_unicode tricky ≡ ok (some (codes "evil.com"))
unfolding running
tricky_host = refl

origin_host-punctuation_example : has b'@' (codes "evil.com") ≡ false
origin_host-punctuation_example =
    origin_host-punctuation ascii_unicode ascii_unicode_laws b'@' tricky (codes "evil.com")
      (inr refl) tricky_host
