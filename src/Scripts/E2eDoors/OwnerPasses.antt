-- ===== src/Scripts/E2eDoors/OwnerPasses.antt =====
-- What the owner's checks find where the owner's route as it is modelled serves them.
use honest_agent.Prelude.{
  ◌≡◌, refl, ◌∙◌, ap, true, false, Option, none, some, [], ◌++◌, arith, length,
}
use honest_agent.Py.Str.{Str, codes, strip, is_empty, str_eq}
use honest_agent.Py.Dict.{lookup}
use honest_agent.Py.Unicode.{Unicode, UnicodeLaws}
use honest_agent.Py.Value.{Float, Value, obj, str, field, end, get}
use honest_agent.Py.Exec.{py_jwt_error, ok, raised, Action}
use honest_agent.Py.Http.{HttpResponse}
use honest_agent.Py.Jwt.{Jwt, Floats}
use honest_agent.Core.Bearer.{parse_bearer}
use honest_agent.Core.Bearer.Laws.{parse_bearer-Bearer}
use honest_agent.Core.Errors.{Response, AppError, app_error_response, authentication_error}
use honest_agent.Core.Settings.{Settings}
use honest_agent.Tenants.OwnerAuth.{verify, get_owner_context}
use honest_agent.Tenants.OwnerAuth.Keys.{Cache, KeySource}
use honest_agent.Tenants.OwnerAuth.Claims.{OwnerTokenVerifier, key_id}
use honest_agent.Tenants.Router.{OwnerIdentity, read_owner_identity, owner_route, owner_endpoint}
use honest_agent.Scripts.SeedLocal.{is_text}
use honest_agent.Scripts.E2eDoors.Checks.{Results, is_tenant_a, has_text}
use honest_agent.Scripts.E2eDoors.Web.{HttpClient, me_path, owner_checks, owner_door}
use honest_agent.Scripts.E2eDoors.Counts.{passed_all}
use honest_agent.Scripts.E2eDoors.Outcomes.{three_checks, status_checked}
use honest_agent.Scripts.E2eDoors.OwnerServed.{
  LogsIn, ServesOwner, RendersIdentity, bearer_junk, owner_door-LogsIn, authorization,
}

abbrev missing : AppError
missing = record { kind = authentication_error; detail = codes "missing authorization header" }

abbrev malformed : AppError
malformed = record { kind = authentication_error; detail = codes "malformed token" }

abbrev owner_a : Str → OwnerIdentity
owner_a user = record { tenant_id = codes "tenant-a"; user_id = user }

is_tenant_a_lem :
    (got : HttpResponse) (user : Str)
    → got.status_code ≡ 200
    → got.json
      ≡ ok (
          obj (
            field
              (codes "tenant_id")
              (str (codes "tenant-a"))
              (field (codes "user_id") (str user) end)))
    → is_tenant_a got ≡ ok true
unfolding is_tenant_a
is_tenant_a_lem got user fine body =
    let found : has_text (codes "tenant_id") (codes "tenant-a") (
          obj (
            field (codes "tenant_id") (str (codes "tenant-a"))
              (field (codes "user_id") (str user) end)))
        ≡ ok true =
      unfold has_text is_text get codes str_eq in refl in
    ground arith

module _ {W Key : Type 0} (unicode : Unicode) (render : OwnerIdentity → Response)
    (source : KeySource W Key) (jwt : Jwt Key) (floats : Floats) (verifier : OwnerTokenVerifier)
    (decoded_at checked_at : Float) where
  abbrev endpoint : Option Str → Action (Cache W Key) Response
  endpoint = owner_endpoint render source jwt floats unicode verifier decoded_at checked_at me_path

  endpoint-token :
      (token user : Str) (s t : Cache W Key)
      → UnicodeLaws unicode
      → strip token ≡ token
      → is_empty token ≡ false
      → verify source jwt floats verifier decoded_at checked_at token s
        ≡ (ok (record { tenant_id = codes "tenant-a"; user_id = user }), t)
      → endpoint (some (codes "Bearer " ++ token)) s ≡ (ok (render (owner_a user)), t)
  unfolding owner_endpoint owner_route read_owner_identity get_owner_context
  endpoint-token token user s t laws trimmed given verified =
      ground (arith, parse_bearer-Bearer unicode token laws trimmed given, verified)

  endpoint-none : (s : Cache W Key) → endpoint none s ≡ (ok (app_error_response missing me_path), s)
  unfolding owner_endpoint owner_route get_owner_context parse_bearer
  endpoint-none s = refl

  endpoint-junk :
      (s : Cache W Key)
      → UnicodeLaws unicode
      → jwt.get_unverified_header (codes "not-a-jwt") ≡ raised py_jwt_error
      → endpoint (some (codes "Bearer not-a-jwt")) s
        ≡ (ok (app_error_response malformed me_path), s)
  unfolding owner_endpoint owner_route get_owner_context verify key_id
  endpoint-junk s laws refused =
      let carried : parse_bearer unicode (some (codes "Bearer not-a-jwt"))
          ≡ ok (codes "not-a-jwt") =
        bearer_junk unicode laws in
      ground (arith, carried, refused)

module _ {W Key : Type 0} (unicode : Unicode) (render : OwnerIdentity → Response)
    (source : KeySource W Key) (jwt : Jwt Key) (floats : Floats) (verifier : OwnerTokenVerifier)
    (decoded_at checked_at : Float) (client : HttpClient (Cache W Key)) (format : Value → Str)
    (base_url : Str) where
  -- With `UnicodeLaws`, where the login service gives the seeded owner of tenant A a token without
  -- white space around it, where the running app serves the modelled route, where the verifier
  -- accepts that token for tenant A and PyJWT finds no header in `not-a-jwt`: the owner's checks
  -- return, all three have passed, and the cached keys are those that the one good token has left.
  pub owner_door-passes :
      (settings : Settings) (token user : Str) (s t : Cache W Key)
      → UnicodeLaws unicode
      → LogsIn client format settings token
      → strip token ≡ token
      → is_empty token ≡ false
      → RendersIdentity render
      → ServesOwner
          (owner_endpoint render source jwt floats unicode verifier decoded_at checked_at me_path)
          client
          base_url
      → verify source jwt floats verifier decoded_at checked_at token s
        ≡ (ok (record { tenant_id = codes "tenant-a"; user_id = user }), t)
      → jwt.get_unverified_header (codes "not-a-jwt") ≡ raised py_jwt_error
      → (results : Results) × (owner_door client format base_url settings (s, [])
          ≡ (ok tt, (t, results)))
        × (length results ≡ 3)
        × (passed_all results ≡ true)
  unfolding owner_checks app_error_response lookup
  owner_door-passes settings token user s t laws login trimmed given renders serves verified junk =
      let got = serves.received (render (owner_a user)) in
      let none_got = serves.received (app_error_response missing me_path) in
      let junk_got = serves.received (app_error_response malformed me_path) in
      (
        _,
        owner_door-LogsIn client format base_url settings token s login
            ∙ three_checks _ _ _ got none_got junk_got s t t t
                (serves.served _ _ s t (
                  rw (authorization (codes "Bearer " ++ format (str token)), login.written)
                    (endpoint-token unicode render source jwt floats verifier decoded_at checked_at
                      token user s t laws trimmed given verified)))
                (serves.served [] _ t t
                  (endpoint-none unicode render source jwt floats verifier decoded_at checked_at t))
                (serves.served _ _ t t (
                  rw (authorization (codes "Bearer not-a-jwt")) (
                    endpoint-junk unicode render source jwt floats verifier decoded_at checked_at t
                      laws junk)))
                (is_tenant_a_lem got user
                  (serves.same_status (render (owner_a user)) ∙ renders.fine (owner_a user))
                  (serves.same_content (render (owner_a user))
                    ∙ ap ok (renders.dumped (owner_a user))))
                (status_checked 401 none_got (serves.same_status _))
                (status_checked 401 junk_got (serves.same_status _)),
        refl,
        refl,
      )
