-- ===== src/Scripts/E2eDoors/Passes.antt =====
-- What the visitor's checks find where the door as it is modelled serves them.
use honest_agent.Prelude.{◌≤◌, ◌≡◌, refl, ◌∙◌, ap, true, [], arith, length}
use honest_agent.Py.Str.{Str, codes, drop_while_end, strip, drop_while, is_empty, is_space}
use honest_agent.Py.Unicode.{Unicode, UnicodeLaws}
use honest_agent.Py.Value.{Value}
use honest_agent.Py.Exec.{Result, ok}
use honest_agent.Py.Http.{HttpResponse}
use honest_agent.Core.Errors.{
  Response, AppError, app_error_response, authentication_error, tenant_access_error,
}
use honest_agent.Agent.Schemas.{AnswerResult, model_dump}
use honest_agent.Agent.Service.{answer}
use honest_agent.Tenants.Gate.{Bytes, VisitorGate, Request}
use honest_agent.Tenants.WidgetRouter.{widget_door}
use honest_agent.Scripts.E2eDoors.Checks.{Results}
use honest_agent.Scripts.E2eDoors.Web.{HttpClient, ask, visitor_checks, visitor_door}
use honest_agent.Scripts.E2eDoors.Counts.{passed_all}
use honest_agent.Scripts.E2eDoors.Served.{
  seeded_key, Seeded, Asks, authorize-unknown, authorize-unlisted,
}
use honest_agent.Scripts.E2eDoors.Outcomes.{
  tenant_origin, evil_origin, answers_200, refuses, three_checks, status_checked, core_reached,
}

-- The running app: a short question is sent as a request to the modelled door, and the answer that
-- comes back has the status and the content of the door's response.
pub record Serves {S : Type 0} (unicode : Unicode) (loads : Bytes → Result Value)
    (render : AnswerResult → Response) (gate : VisitorGate S) (client : HttpClient S)
    (format : Value → Str) (base_url : Str) : Type 0 where
  pub request : (widget_key origin query : Str) → Request S
  pub asks :
      (widget_key origin query : Str)
      → length query ≤ 100
      → Asks unicode loads gate (request widget_key origin query) widget_key origin query
  pub received : Response → HttpResponse
  pub same_status : (response : Response) → (received response).status_code ≡ response.status_code
  pub same_content : (response : Response) → (received response).json ≡ ok response.content
  pub served :
      (widget_key origin query : Str) (response : Response) (s t : S)
      → widget_door answer render unicode loads gate (request widget_key origin query) s
        ≡ (ok response, t)
      → ask client format base_url widget_key origin query s ≡ (ok (received response), t)

-- An answer of the core is sent as JSON with status 200.
pub record Renders (render : AnswerResult → Response) : Type 0 where
  pub fine : (r : AnswerResult) → (render r).status_code ≡ 200
  pub dumped : (r : AnswerResult) → (render r).content ≡ model_dump r

abbrev home : Str
home = codes "https://tenant-a.example.com"

abbrev evil : Str
evil = codes "https://evil.com"

abbrev first_query : Str
first_query = codes "how do I rotate a key?"

abbrev hi : Str
hi = codes "hi"

abbrev origin_error : AppError
origin_error = record { kind = tenant_access_error; detail = codes "origin not allowed" }

abbrev key_error : AppError
key_error = record { kind = authentication_error; detail = codes "unknown widget key" }

short_hi : length hi ≤ 100
short_hi = unfold codes in omega arith

short_first : length first_query ≤ 100
short_first = unfold codes in omega arith

module _ {S : Type 0} (unicode : Unicode) (loads : Bytes → Result Value)
    (render : AnswerResult → Response) (gate : VisitorGate S) (client : HttpClient S)
    (format : Value → Str) (base_url : Str) (seeded : Seeded gate)
    (serves : Serves unicode loads render gate client format base_url) where
  -- The answer to a request that the gate refuses.
  refusal_to : (widget_key origin : Str) → AppError → HttpResponse
  refusal_to widget_key origin error =
      serves.received (app_error_response error (serves.request widget_key origin hi).path)

  ask-home :
      (s : S)
      → UnicodeLaws unicode
      → ask client format base_url seeded_key home first_query s
        ≡ (ok (serves.received (render (answer (codes "tenant-a") first_query))), s)
  ask-home s laws = serves.served seeded_key home first_query _ s s (
      answers_200 unicode loads render gate (serves.request seeded_key home first_query) home
        first_query s seeded (serves.asks seeded_key home first_query short_first)
        (tenant_origin unicode laws)
        (unfold codes strip drop_while drop_while_end is_space is_empty in refl))

  ask-evil :
      (s : S)
      → UnicodeLaws unicode
      → ask client format base_url seeded_key evil hi s
        ≡ (ok (refusal_to seeded_key evil origin_error), s)
  unfolding refusal_to
  ask-evil s laws =
      let asks = serves.asks seeded_key evil hi short_hi in
      let request = serves.request seeded_key evil hi in
      serves.served seeded_key evil hi (app_error_response origin_error request.path) s s (
        refuses unicode loads render gate request seeded_key evil hi origin_error s asks (
          authorize-unlisted unicode loads gate seeded request evil hi s asks
            (evil_origin unicode laws)))

  ask-unknown :
      (s : S)
      → ask client format base_url (codes "wk_unknown") home hi s
        ≡ (ok (refusal_to (codes "wk_unknown") home key_error), s)
  unfolding refusal_to
  ask-unknown s =
      let asks = serves.asks (codes "wk_unknown") home hi short_hi in
      let request = serves.request (codes "wk_unknown") home hi in
      serves.served (codes "wk_unknown") home hi (app_error_response key_error request.path) s s (
        refuses unicode loads render gate request (codes "wk_unknown") home hi key_error s asks
          (authorize-unknown unicode loads gate seeded request home hi s asks))

  refusal_to-status :
      (widget_key origin : Str)
      → ((refusal_to widget_key origin origin_error).status_code ≡ 403)
        × ((refusal_to widget_key origin key_error).status_code ≡ 401)
  unfolding refusal_to app_error_response
  refusal_to-status widget_key origin = (serves.same_status _, serves.same_status _)

module _ {S : Type 0} (unicode : Unicode) (loads : Bytes → Result Value)
    (render : AnswerResult → Response) (gate : VisitorGate S) (client : HttpClient S)
    (format : Value → Str) (base_url : Str) where
  -- With `UnicodeLaws`, where the running app serves the modelled door, over a store that holds the
  -- seeded key of tenant A and not `wk_unknown` and with a limiter that allows all: the visitor's
  -- checks return, and all three have passed.
  pub visitor_door-passes :
      (s : S)
      → UnicodeLaws unicode
      → Seeded gate
      → Renders render
      → Serves unicode loads render gate client format base_url
      → (results : Results) × (visitor_door client format base_url (s, []) ≡ (ok tt, (s, results)))
        × (length results ≡ 3)
        × (passed_all results ≡ true)
  unfolding visitor_door visitor_checks
  visitor_door-passes s laws seeded renders serves =
      let given = answer (codes "tenant-a") first_query in
      let fine = serves.received (render given) in
      let refusal = refusal_to unicode loads render gate client format base_url seeded serves in
      let status =
        refusal_to-status unicode loads render gate client format base_url seeded serves in
      let forbidden = refusal seeded_key evil origin_error in
      let unauthorized = refusal (codes "wk_unknown") home key_error in
      (
        _,
        three_checks _ _ _ fine forbidden unauthorized s s s s
            (ask-home unicode loads render gate client format base_url seeded serves s laws)
            (ask-evil unicode loads render gate client format base_url seeded serves s laws)
            (ask-unknown unicode loads render gate client format base_url seeded serves s)
            (core_reached fine first_query (serves.same_status (render given) ∙ renders.fine given)
              (serves.same_content (render given) ∙ ap ok (renders.dumped given)))
            (status_checked 403 forbidden (status seeded_key evil).0)
            (status_checked 401 unauthorized (status (codes "wk_unknown") home).1),
        refl,
        refl,
      )
