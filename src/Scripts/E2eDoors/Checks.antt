-- ===== src/Scripts/E2eDoors/Checks.antt =====
-- The checks of backend/scripts/e2e_doors.py, their results and the exit code. What is printed is
-- left out.
use honest_agent.Prelude.{ℕ, Bool, false, none, some, List, [], ◌∷◌, ◌++◌, ◌==◌, if◌then◌else◌}
use honest_agent.Py.Str.{Str, codes}
use honest_agent.Py.Str.Decimal.{decimal}
use honest_agent.Py.Value.{Value, obj, str, end, field, get, find}
use honest_agent.Py.Exec.{
  Result, ok, raised, attribute_error, key_error, type_error, Action, lift, ◌>>=◌,
}
use honest_agent.Py.Http.{HttpResponse}
use honest_agent.Scripts.SeedLocal.{is_text}

-- `_results`: whether a check has passed, and its label.
abbrev pub Results : Type 0
Results = List (Bool × Str)

module _ {S : Type 0} where
  -- A call of a collaborator, which does not see `_results`.
  abbrev pub outside : {A : Type 0} → Action S A → Action (S × Results) A
  outside m (s, results) = let (r, t) = m s in (r, (t, results))

  unfoldable pub check : Bool → Str → Action (S × Results) (Unit {0})
  check passed label (s, results) = (ok tt, (s, results ++ ((passed, label) ∷ [])))

-- `f"{text} ({status})"`.
unfoldable pub labelled : Str → HttpResponse → Str
unfolding decimal
labelled text response = text ++ codes " (" ++ decimal response.status_code ++ codes ")"

-- `response.json()["access_token"]`.
unfoldable pub token_of : Value → Result Value
token_of (obj payload) = elim (find (codes "access_token") payload) [
  | none ↦ raised key_error
  | some token ↦ ok token
]
token_of _ = raised type_error

-- `v.get(key) == text` for what `json()` has returned.
unfoldable pub has_text : Str → Str → Value → Result Bool
unfolding is_text
has_text key text (obj fields) = ok (is_text text (get key fields))
has_text key text _ = raised attribute_error

-- `status_code == 200 and json().get("tenant_id") == "tenant-a"`.
unfoldable pub is_tenant_a : HttpResponse → Result Bool
unfolding has_text
is_tenant_a response =
    if response.status_code == 200
    then elim response.json [
      | ok payload ↦ has_text (codes "tenant_id") (codes "tenant-a") payload
      | raised e ↦ raised e
    ]
    else ok false

-- `body.get("verdict", {}).get("kind") == "grounded"`.
unfoldable pub is_grounded : Value → Result Bool
unfolding has_text
is_grounded (obj body) = elim (find (codes "verdict") body) [
  | none ↦ ok false
  | some verdict ↦ has_text (codes "kind") (codes "grounded") verdict
]
is_grounded _ = raised attribute_error

-- The verdict is read only of an answer with status 200.
unfoldable pub reaches_core : HttpResponse → Result Bool
unfolding is_grounded
reaches_core response =
    if response.status_code == 200
    then elim response.json [ ok body ↦ is_grounded body | raised e ↦ raised e ]
    else ok false

unfoldable pub has_status : ℕ → HttpResponse → Result Bool
has_status status response = ok (response.status_code == status)

-- A request, the test of its answer, and the text of the label.
pub record HttpCheck (S : Type 0) : Type 0 where
  pub request : Action S HttpResponse
  pub test : HttpResponse → Result Bool
  pub text : Str

unfoldable pub expect : {S : Type 0} → HttpCheck S → Action (S × Results) (Unit {0})
unfolding check labelled
expect http_check = do
  response ← outside http_check.request
  passed ← lift (http_check.test response)
  check passed (labelled http_check.text response)

abbrev pub query_of : Str → Value
query_of query = obj (field (codes "query") (str query) end)

-- `1 if failures else 0`, for the labels of the checks that have failed.
unfoldable pub failures : Results → List Str
failures [] = []
failures ((passed, label) ∷ results) =
    let rest = failures results in if passed then rest else label ∷ rest

unfoldable pub exit_code : Results → ℕ
unfolding failures
exit_code results = elim (failures results) [ [] ↦ 0 | label ∷ labels ↦ 1 ]
