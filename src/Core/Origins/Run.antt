-- ===== src/Core/Origins/Run.antt =====
-- Opens everything that the functions on origins run through, for evaluations.
use honest_agent.Py.Str.{
  codes, str_eq, member, has, is_empty, strip, rstrip, partition, after_last, starts_with, remove,
  is_ascii, drop_while, drop_while_end, is_space,
}
use honest_agent.Py.Unicode.{lower_ascii}
use honest_agent.Py.Url.{
  urlsplit, hostname, host_part, host_and_port, check_bracketed, check_brackets, check_netloc,
  clean_url, split_scheme, netloc_of, is_scheme,
}
use honest_agent.Core.Origins.{origin_host, host_allowed, authority_host, authority_allowed}

unfoldable pub running : Unit {0}
unfolding codes str_eq member has is_empty strip rstrip partition after_last starts_with remove
    is_ascii drop_while drop_while_end is_space lower_ascii urlsplit hostname host_part
    host_and_port check_bracketed check_brackets check_netloc clean_url split_scheme netloc_of
    is_scheme origin_host host_allowed authority_host authority_allowed
running = tt
