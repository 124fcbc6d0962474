-- ===== src/Tenants/WidgetRouter/Tests.antt =====
-- A visitor of tenant A at the endpoint.
use honest_agent.Prelude.{
  ℕ, ◌≡◌, refl, inl, inr, some, none, arith, Bool, Option, List, ltb, ◌+◌, [], ◌∷◌, Bool-cases, map,
  false, if◌then◌else◌,
}
use honest_agent.Py.Str.{Str, codes, str_eq, has, member}
use honest_agent.Py.Str.Laws.{str_eq_refl, eq_of_str_eq}
use honest_agent.Py.Dict.{Dict, lookup}
use honest_agent.Core.Origins.{host_allowed}
use honest_agent.Tenants.WidgetKeys.{WidgetKeyRecord, Row, postgres_store, in_memory_store}
use honest_agent.Tenants.Gate.Inputs.{claimed_origin}
use honest_agent.Tenants.WidgetRouter.Stores.{Represents, widget_door-Represents}
use honest_agent.Tenants.WidgetRouter.Total.{Calm, Answers, widget_door_total}
use honest_agent.Py.Unicode.{ascii_unicode}
use honest_agent.Py.Exec.{Exception, json_decode_error, Action, raised, ok}
use honest_agent.Core.Errors.{Response}
use honest_agent.Agent.Service.{answer}
use honest_agent.Agent.Schemas.{AnswerResult, model_dump}
use honest_agent.Tenants.Gate.{Bytes}
use honest_agent.Tenants.Gate.Tests.{visiting, records, gate, loads}
use honest_agent.Tenants.Gate.Middleware.Tests.{good_request, undeclared}
use honest_agent.Tenants.WidgetRouter.{widget_door}

abbrev render : AnswerResult → Response
render r = record {
  status_code = 200;
  media_type = codes "application/json";
  content = model_dump r;
}

-- A table with one key, its host in letters of either case, and the same key in memory.
abbrev one_record : Dict WidgetKeyRecord
one_record =
    (codes "wk_a", record { tenant_id = codes "tenant-a"; allowed_hosts = codes "a.example" ∷ [] })
    ∷ []

abbrev row_at : Str → Option Row
row_at key =
    if str_eq key (codes "wk_a")
    then some (record { tenant_id = codes "tenant-a"; allowed_hosts = codes "A.Example" ∷ [] })
    else none

abbrev fetch_one : Str → Action ℕ (Option Row)
fetch_one key n = (ok (row_at key), n)

no_other_row : (key : Str) → row_at key ≡ none → lookup key one_record ≡ none
unfolding visiting
no_other_row key h = elim (Bool-cases (str_eq key (codes "wk_a"))) [
  | inl same ↦ absurd (ground arith)
  | inr other ↦ ground (arith, eq_of_str_eq (codes "wk_a") key, str_eq_refl key)
]

one_row :
    (key : Str) (r : Row)
    → row_at key ≡ some r
    → lookup key one_record
      ≡ some (record {
        tenant_id = r.tenant_id;
        allowed_hosts = map ascii_unicode.lower r.allowed_hosts;
      })
unfolding visiting
one_row key r h = elim (Bool-cases (str_eq key (codes "wk_a"))) [
  | inl same ↦ let e = eq_of_str_eq key (codes "wk_a") same in ground (arith, str_eq_refl key)
  | inr other ↦ absurd (ground arith)
]

one_table : Represents ascii_unicode fetch_one one_record
one_table = record {
  row = row_at;
  fetches = λ key s. refl;
  missing = no_other_row;
  found = one_row;
}

widget_door-Represents_example :
    widget_door answer render ascii_unicode loads
      (record gate { store = postgres_store ascii_unicode fetch_one })
      good_request
      0
    ≡ widget_door answer render ascii_unicode loads
        (record gate { store = in_memory_store one_record })
        good_request
        0
widget_door-Represents_example =
    widget_door-Represents ascii_unicode fetch_one one_record one_table answer render loads gate
      good_request 0

loads_raises : (body : Bytes) (e : Exception) → loads body ≡ raised e → e ≡ json_decode_error
loads_raises body e h = elim (Bool-cases (has b'{' body)) [
  | inl same ↦ absurd (ground arith)
  | inr other ↦ ground arith
]

good_origin :
    (value : Str) (hosts : List Str)
    → claimed_origin (good_request.header (codes "origin")) (good_request.header (codes "referer"))
      ≡ some value
    → (listed : Bool) × (host_allowed ascii_unicode value hosts ≡ ok listed)
unfolding visiting
good_origin value hosts h =
    let same : value ≡ codes "https://a.example" = ground arith in
    (member (codes "a.example") hosts, rw same refl)

good-Calm : Calm ascii_unicode loads gate good_request
unfolding visiting
good-Calm = record {
  stored = λ key s. (lookup key records, (s, refl));
  limited = λ key ip s. (ltb s 2, (s + 1, refl));
  received = λ s. (codes "{}", (s, refl));
  json = λ body s t e read. loads_raises body e;
  declared = (false, undeclared);
  origin = good_origin;
}

widget_door_total_example :
    Answers (widget_door answer render ascii_unicode loads gate good_request) 0
widget_door_total_example =
    widget_door_total ascii_unicode loads answer render gate good_request 0 good-Calm
