-- ===== src/Tenants/Gate/Inputs.antt =====
-- When the origin of a visit passes, and which query its body carries.
use honest_agent.Prelude.{
  ℕ, ◌≡◌, refl, ◌↔◌, inl, inr, true, false, Option, none, some, List, arith, all,
}
use honest_agent.Py.Str.{Str, codes, is_empty, strip}
use honest_agent.Py.Unicode.{Unicode, UnicodeLaws}
use honest_agent.Py.Value.{Value, Fields, str, obj, get}
use honest_agent.Py.Exec.{
  Exception, value_error, json_decode_error, Result, ok, raised, Result-cases,
}
use honest_agent.Py.Url.{is_scheme}
use honest_agent.Py.Url.Plain.{is_host_char}
use honest_agent.Py.Url.Laws.{open_bracket_text}
use honest_agent.Core.Handlers.{answered_status}
use honest_agent.Core.Origins.{host_allowed}
use honest_agent.Core.Origins.Laws.{host_allowed-open_bracket}
use honest_agent.Tenants.Gate.Checks.{
  check_origin, check_listed, decode_failure, query_field, query_text, sanitize_query,
}

-- The header that counts: a present Origin, else the Referer.
abbrev pub claimed_origin : Option Str → Option Str → Option Str
claimed_origin (some origin) referer = some origin
claimed_origin none referer = referer

check_listed_iff :
    (unicode : Unicode) (value : Str) (allowed_hosts : List Str)
    → (check_listed unicode value allowed_hosts ≡ ok tt)
      ↔ (host_allowed unicode value allowed_hosts ≡ ok true)
unfolding check_listed
check_listed_iff unicode value allowed_hosts = (λ h. ground arith, λ h. ground arith)

-- The origin passes exactly when the header that counts, which is Origin where it is given and
-- Referer where it is not, is there and its host is listed.
check_origin_iff :
    (unicode : Unicode) (origin referer : Option Str) (allowed_hosts : List Str)
    → (check_origin unicode origin referer allowed_hosts ≡ ok tt) ↔ (
        (value : Str) × (claimed_origin origin referer ≡ some value)
        × (host_allowed unicode value allowed_hosts ≡ ok true))
unfolding check_origin
check_origin_iff unicode (some origin) referer allowed_hosts =
    let both = check_listed_iff unicode origin allowed_hosts in
    (λ h. (origin, refl, both.0 h), λ (value, e, h). both.1 (ground arith))
check_origin_iff unicode none (some referer) allowed_hosts =
    let both = check_listed_iff unicode referer allowed_hosts in
    (λ h. (referer, refl, both.0 h), λ (value, e, h). both.1 (ground arith))
check_origin_iff unicode none none allowed_hosts =
    (λ h. absurd (ground arith), λ (value, e, h). absurd (ground arith))

-- With Unicode tables that keep ASCII as it is: an Origin `scheme://[host`, with a well-formed
-- scheme, a host of plain letters and no closing bracket, raises an exception that is answered with
-- 500 and not with 403.
pub check_origin-open_bracket :
    (unicode : Unicode) (scheme host : Str) (referer : Option Str) (allowed_hosts : List Str)
    → UnicodeLaws unicode
    → is_scheme scheme ≡ true
    → all is_host_char host ≡ true
    → (e : Exception) × (check_origin unicode
          (some (open_bracket_text scheme host))
          referer
          allowed_hosts
        ≡ raised e)
      × (answered_status e ≡ 500)
unfolding check_origin check_listed answered_status
check_origin-open_bracket unicode scheme host referer allowed_hosts laws s h = (
  value_error,
  rw (host_allowed-open_bracket unicode laws scheme host allowed_hosts s h) refl,
  refl,
)

query_sound :
    (payload : Value) (query : Str)
    → query_field payload ≡ ok query
    → (fields : Fields) × (payload ≡ obj fields)
      × (get (codes "query") fields ≡ str query)
      × (is_empty (strip query) ≡ false)
unfolding query_field
query_sound (obj fields) query h = found (get (codes "query") fields) refl
  where
    found :
        (v : Value)
        → get (codes "query") fields ≡ v
        → (fs : Fields) × (obj fields ≡ obj fs)
          × (get (codes "query") fs ≡ str query)
          × (is_empty (strip query) ≡ false)
    found (str q) e = let step = rw e at h in (fields, refl, ground arith, ground arith)
    found _ e = absurd (ground arith)
query_sound _ query h = absurd (ground arith)

-- The query of a body is `query` exactly when the body is a JSON object whose `query` is this
-- text, and the text is not blank. The other fields have no say.
sanitize_query_iff :
    (loads : List ℕ → Result Value) (body : List ℕ) (query : Str)
    → (sanitize_query loads body ≡ ok query) ↔ (
        (fields : Fields) × (loads body ≡ ok (obj fields))
        × (get (codes "query") fields ≡ str query)
        × (is_empty (strip query) ≡ false))
unfolding sanitize_query
sanitize_query_iff loads body query =
    (sound, λ (fields, l, q, b). unfold query_field query_text decode_failure in ground arith)
  where
    sound :
        sanitize_query loads body ≡ ok query
        → (fields : Fields) × (loads body ≡ ok (obj fields))
          × (get (codes "query") fields ≡ str query)
          × (is_empty (strip query) ≡ false)
    sound h = elim (Result-cases (loads body)) [
      | inl (payload, l) ↦
          let (fields, e, q, b) =
            query_sound payload query (unfold decode_failure in ground arith) in
          (fields, ground arith, q, b)
      | inr (json_decode_error, l) ↦ absurd (unfold decode_failure in ground arith)
      | inr (_, l) ↦ absurd (unfold decode_failure in ground arith)
    ]
