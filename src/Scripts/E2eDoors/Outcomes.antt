-- ===== src/Scripts/E2eDoors/Outcomes.antt =====
-- What the modelled door answers to the visitor's questions, and what the checks make of it.
use honest_agent.Prelude.{
  ℕ, ◌≡◌, refl, sym, ◌∙◌, ap, Bool, true, false, List, [], ◌∷◌, ◌++◌, arith, ==_refl,
}
use honest_agent.Py.Str.{Str, codes, strip, is_empty, str_eq, member}
use honest_agent.Py.Unicode.{Unicode, UnicodeLaws}
use honest_agent.Py.Url.Plain.{origin_text, is_host_char, is_port}
use honest_agent.Py.Value.{Value, get, find}
use honest_agent.Py.Exec.{app, Result, ok, raised, for_each}
use honest_agent.Py.Http.{HttpResponse}
use honest_agent.Core.Errors.{Response, AppError, app_error_response}
use honest_agent.Core.Origins.{host_allowed}
use honest_agent.Core.Origins.Laws.{host_allowed-plain}
use honest_agent.Core.Origins.Run.{running}
use honest_agent.Agent.Schemas.{AnswerResult, model_dump}
use honest_agent.Agent.Service.{answer}
use honest_agent.Tenants.Gate.{Bytes, VisitorGate, Request, authorize, visit_of}
use honest_agent.Tenants.Gate.Authorize.{authorize_iff}
use honest_agent.Tenants.Gate.Middleware.{middleware-refuses}
use honest_agent.Tenants.WidgetRouter.{widget_door, widget_endpoint}
use honest_agent.Tenants.WidgetRouter.Laws.{widget_door_answers}
use honest_agent.Scripts.SeedLocal.{is_text}
use honest_agent.Scripts.E2eDoors.Checks.{
  Results, HttpCheck, check, labelled, expect, has_status, has_text, is_grounded, reaches_core,
}
use honest_agent.Scripts.E2eDoors.Served.{seeded_key, seeded_record, Seeded, Asks, authorize-listed}

pub tenant_origin :
    (unicode : Unicode)
    → UnicodeLaws unicode
    → host_allowed unicode (codes "https://tenant-a.example.com") seeded_record.allowed_hosts
      ≡ ok true
unfolding running is_host_char is_port origin_text
tenant_origin unicode laws =
    host_allowed-plain unicode laws (codes "https") (codes "tenant-a.example.com") []
      seeded_record.allowed_hosts
      (record {
        scheme_good = refl;
        host_good = refl;
        host_given = λ h. ground arith;
        port_good = refl;
      })

pub evil_listed :
    (unicode : Unicode) (allowed_hosts : List Str)
    → UnicodeLaws unicode
    → host_allowed unicode (codes "https://evil.com") allowed_hosts
      ≡ ok (member (codes "evil.com") allowed_hosts)
unfolding running is_host_char is_port origin_text
evil_listed unicode allowed_hosts laws =
    host_allowed-plain unicode laws (codes "https") (codes "evil.com") [] allowed_hosts (record {
      scheme_good = refl;
      host_good = refl;
      host_given = λ h. ground arith;
      port_good = refl;
    })

pub evil_origin :
    (unicode : Unicode)
    → UnicodeLaws unicode
    → host_allowed unicode (codes "https://evil.com") seeded_record.allowed_hosts ≡ ok false
unfolding running
evil_origin unicode laws = evil_listed unicode seeded_record.allowed_hosts laws

module _ {S : Type 0} (unicode : Unicode) (loads : Bytes → Result Value)
    (render : AnswerResult → Response) (gate : VisitorGate S) where
  pub answers_200 :
      (request : Request S) (origin query : Str) (s : S)
      → Seeded gate
      → Asks unicode loads gate request seeded_key origin query
      → host_allowed unicode origin seeded_record.allowed_hosts ≡ ok true
      → is_empty (strip query) ≡ false
      → widget_door answer render unicode loads gate request s
        ≡ (ok (render (answer (codes "tenant-a") query)), s)
  answers_200 request origin query s seeded asks listed given =
      let visit = visit_of request asks.body in
      let allowed =
        authorize-listed unicode loads gate seeded request origin query s asks listed given in
      let cleared = (authorize_iff unicode loads gate visit s s _).0 allowed in
      widget_door_answers unicode loads answer render gate request asks.body _ s s s asks.on_path
        asks.declared (asks.reads s) cleared
      ∙ ap (λ tenant. (ok (render (answer tenant query)), s)) (sym cleared.tenant)

  pub refuses :
      (request : Request S) (widget_key origin query : Str) (error : AppError) (s : S)
      → (asks : Asks unicode loads gate request widget_key origin query)
      → authorize unicode loads gate (visit_of request asks.body) s ≡ (raised (app error), s)
      → widget_door answer render unicode loads gate request s
        ≡ (ok (app_error_response error request.path), s)
  unfolding widget_door
  refuses request widget_key origin query error s asks refused =
      middleware-refuses unicode loads gate request (widget_endpoint answer render) asks.body error
        s s s asks.on_path asks.declared (asks.reads s) refused

expect_lem :
    {S : Type 0} (c : HttpCheck S) (s t : S) (results : Results) (got : HttpResponse) (p : Bool)
    → c.request s ≡ (ok got, t)
    → c.test got ≡ ok p
    → expect c (s, results) ≡ (ok tt, (t, results ++ ((p, labelled c.text got) ∷ [])))
unfolding expect check
expect_lem c s t results got p asked tested = ground arith

pub three_checks :
    {S : Type 0} (a b c : HttpCheck S) (x y z : HttpResponse) (s t u v : S)
    → a.request s ≡ (ok x, t)
    → b.request t ≡ (ok y, u)
    → c.request u ≡ (ok z, v)
    → a.test x ≡ ok true
    → b.test y ≡ ok true
    → c.test z ≡ ok true
    → for_each (a ∷ b ∷ c ∷ []) expect (s, []) ≡ (
      ok tt,
      (v, (true, labelled a.text x) ∷ (true, labelled b.text y) ∷ (true, labelled c.text z) ∷ []),
    )
unfolding for_each
three_checks a b c x y z s t u v asked_a asked_b asked_c passed_a passed_b passed_c =
    let one : Results = (true, labelled a.text x) ∷ [] in
    let two : Results = (true, labelled a.text x) ∷ (true, labelled b.text y) ∷ [] in
    let first = expect_lem a s t [] x true asked_a passed_a in
    let second = expect_lem b t u one y true asked_b passed_b in
    let third = expect_lem c u v two z true asked_c passed_c in ground (arith, first, second, third)

pub status_checked : (n : ℕ) (got : HttpResponse) → got.status_code ≡ n → has_status n got ≡ ok true
unfolding has_status
status_checked n got h = ground (arith, ==_refl n)

pub core_reached :
    (got : HttpResponse) (query : Str)
    → got.status_code ≡ 200
    → got.json ≡ ok (model_dump (answer (codes "tenant-a") query))
    → reaches_core got ≡ ok true
unfolding reaches_core
core_reached got query fine body =
    let grounded : is_grounded (model_dump (answer (codes "tenant-a") query)) ≡ ok true =
      unfold is_grounded has_text is_text model_dump answer find get codes str_eq in refl in
    ground arith
