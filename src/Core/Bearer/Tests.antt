-- ===== src/Core/Bearer/Tests.antt =====
-- Authorization headers.
use honest_agent.Prelude.{◌≡◌, refl, ◌↔◌, some}
use honest_agent.Py.Str.{codes}
use honest_agent.Py.Unicode.{ascii_unicode}
use honest_agent.Py.Exec.{ok, fail}
use honest_agent.Core.Errors.{authentication_error}
use honest_agent.Core.Bearer.{parse_bearer}
use honest_agent.Core.Bearer.Laws.{CarriesToken, parse_bearer_iff}
use honest_agent.Core.Origins.Run.{running}

parse_bearer_tests :
    (parse_bearer ascii_unicode (some (codes "Bearer  abc ")) ≡ ok (codes "abc"))
    × (parse_bearer ascii_unicode (some (codes "Basic abc"))
        ≡ fail authentication_error (codes "malformed authorization header"))
    × (parse_bearer ascii_unicode (some (codes "Bearer "))
        ≡ fail authentication_error (codes "malformed authorization header"))
unfolding parse_bearer running
parse_bearer_tests = (refl, refl, refl)

parse_bearer_iff_example :
    (parse_bearer ascii_unicode (some (codes "Bearer  abc ")) ≡ ok (codes "abc"))
    ↔ CarriesToken ascii_unicode (codes "Bearer  abc ") (codes "abc")
parse_bearer_iff_example = parse_bearer_iff ascii_unicode (codes "Bearer  abc ") (codes "abc")
