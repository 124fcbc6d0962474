-- ===== src/Core/Bearer/Laws.antt =====
-- Which Authorization headers carry a token.
use honest_agent.Prelude.{
  ◌≡◌, refl, ◌∙◌, ◌↔◌, inl, inr, false, Option, some, ◌∷◌, ◌++◌, arith, Bool-cases,
}
use honest_agent.Py.Str.{
  Str, codes, has, is_ascii, is_empty, drop_while, drop_while_end, strip, partition,
}
use honest_agent.Py.Str.Laws.{str_eq_refl, eq_of_str_eq}
use honest_agent.Py.Str.Split.{partition_found, partition_sound, partition_missed}
use honest_agent.Py.Unicode.{Unicode, UnicodeLaws, lower_ascii}
use honest_agent.Py.Exec.{Exception, ok, raised}
use honest_agent.Core.Handlers.{answered_status}
use honest_agent.Core.Bearer.{parse_bearer}

-- A scheme that reads `bearer` in lower case, one space, and a text that trims to the token.
pub record CarriesToken (unicode : Unicode) (header token : Str) : Type 0 where
  pub scheme : Str
  pub rest : Str
  pub split : header ≡ scheme ++ b' ' ∷ rest
  pub first : has b' ' scheme ≡ false
  pub is_bearer : unicode.lower scheme ≡ codes "bearer"
  pub trimmed : strip rest ≡ token
  pub given : is_empty token ≡ false

module _ (unicode : Unicode) where
  bearer_complete :
      (header token : Str)
      → CarriesToken unicode header token
      → parse_bearer unicode (some header) ≡ ok token
  unfolding parse_bearer
  bearer_complete header token c = rw c.split (
      rw (partition_found b' ' c.scheme c.rest c.first)
        (ground (arith, c.trimmed, c.given, c.is_bearer, str_eq_refl (codes "bearer"))))

  bearer_sound :
      (header token : Str)
      → parse_bearer unicode (some header) ≡ ok token
      → CarriesToken unicode header token
  unfolding parse_bearer
  bearer_sound header token h = elim (Bool-cases (partition b' ' header).found) [
    | inr missed ↦ absurd (
        unfold strip drop_while drop_while_end is_empty in
        ground (arith, partition_missed b' ' header missed))
    | inl found ↦ record {
      scheme = (partition b' ' header).before;
      rest = (partition b' ' header).after;
      split = (partition_sound b' ' header found).0;
      first = (partition_sound b' ' header found).1;
      is_bearer =
          eq_of_str_eq (unicode.lower (partition b' ' header).before) (codes "bearer")
            (ground arith);
      trimmed = ground arith;
      given = ground arith;
    }
  ]

  -- A header that is given yields a token exactly when what stands before its first space is
  -- `bearer` in letters of either case, and what stands behind it, without the blanks around it, is
  -- this token and is not empty.
  pub parse_bearer_iff :
      (header token : Str)
      → (parse_bearer unicode (some header) ≡ ok token) ↔ CarriesToken unicode header token
  parse_bearer_iff header token = (bearer_sound header token, bearer_complete header token)

  -- Whatever `parse_bearer` raises, for a header that is given or missing, is answered with 401.
  parse_bearer-401 :
      (header : Option Str) (e : Exception)
      → parse_bearer unicode header ≡ raised e
      → answered_status e ≡ 401
  unfolding parse_bearer answered_status
  parse_bearer-401 header e h = ground arith

pub parse_bearer-Bearer :
    (unicode : Unicode) (token : Str)
    → UnicodeLaws unicode
    → strip token ≡ token
    → is_empty token ≡ false
    → parse_bearer unicode (some (codes "Bearer " ++ token)) ≡ ok token
parse_bearer-Bearer unicode token laws unpadded given =
    (parse_bearer_iff unicode (codes "Bearer " ++ token) token).1 (record {
      scheme = codes "Bearer";
      rest = token;
      split = unfold codes in refl;
      first = unfold codes has in refl;
      is_bearer =
          laws.lower-ascii (codes "Bearer") (unfold codes is_ascii in refl)
          ∙ (unfold codes lower_ascii in refl);
      trimmed = unpadded;
      given = given;
    })
