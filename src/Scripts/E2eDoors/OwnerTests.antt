-- ===== src/Scripts/E2eDoors/OwnerTests.antt =====
-- The owner's checks against a client that runs the modelled route.
use honest_agent.Prelude.{ℕ, ◌≡◌, refl, true, false, [], arith, length}
use honest_agent.Py.Str.{Str, codes, str_eq, strip, drop_while, drop_while_end, is_space, is_empty}
use honest_agent.Py.Dict.{lookup}
use honest_agent.Py.Unicode.{ascii_unicode, ascii_unicode_laws}
use honest_agent.Py.Value.{Value, Fields, obj, str, field, end, find}
use honest_agent.Py.Exec.{Result, ok, raised}
use honest_agent.Py.Http.{HttpResponse}
use honest_agent.Core.Errors.{Response}
use honest_agent.Core.Settings.Sample.{sample_settings}
use honest_agent.Tenants.OwnerAuth.Keys.{Cache}
use honest_agent.Tenants.OwnerAuth.Tests.{
  source, jwt, floats, verifier, cold, warm, verify_good, junk_header,
}
use honest_agent.Tenants.Router.{OwnerIdentity, owner_endpoint}
use honest_agent.Scripts.E2eDoors.Checks.{Results}
use honest_agent.Scripts.E2eDoors.Web.{HttpClient, me_path, owner_door}
use honest_agent.Scripts.E2eDoors.Counts.{passed_all}
use honest_agent.Scripts.E2eDoors.OwnerServed.{LogsIn, ServesOwner, RendersIdentity}
use honest_agent.Scripts.E2eDoors.OwnerPasses.{owner_door-passes}

abbrev render : OwnerIdentity → Response
render i = record {
  status_code = 200;
  media_type = codes "application/json";
  content =
      obj
        (field (codes "tenant_id") (str i.tenant_id) (field (codes "user_id") (str i.user_id) end));
}

abbrev received : Response → HttpResponse
received response = record {
  status_code = response.status_code;
  raise_for_status = ok tt;
  json = ok response.content;
}

receive : Result Response → Result HttpResponse
receive (ok response) = ok (received response)
receive (raised e) = raised e

abbrev payload : Fields
payload = field (codes "access_token") (str (codes "good")) end

abbrev reply : HttpResponse
reply = record { status_code = 200; raise_for_status = ok tt; json = ok (obj payload) }

abbrev client : HttpClient (Cache ℕ ℕ)
client = record {
  get = λ url headers s.
      let (r, t) =
        owner_endpoint render source jwt floats ascii_unicode verifier 100 100 me_path
          (lookup (codes "Authorization") headers) s in
      (receive r, t);
  post = λ url params headers body s. (ok reply, s);
}

abbrev format : Value → Str
format (str s) = s
format _ = []

logs_in : LogsIn client format sample_settings (codes "good")
unfolding find codes str_eq
logs_in = record {
  reply = reply;
  payload = payload;
  posted = λ s. refl;
  fine = refl;
  json = refl;
  issued = refl;
  written = refl;
}

serves :
    ServesOwner
      (owner_endpoint render source jwt floats ascii_unicode verifier 100 100 me_path)
      client
      []
unfolding receive
serves = record {
  received = received;
  same_status = λ response. refl;
  same_content = λ response. refl;
  served = λ headers response s t h. ground arith;
}

renders : RendersIdentity render
renders = record { fine = λ i. refl; dumped = λ i. refl }

trimmed : (strip (codes "good") ≡ codes "good") × (is_empty (codes "good") ≡ false)
unfolding codes strip drop_while drop_while_end is_space is_empty
trimmed = (refl, refl)

owner_door-passes_example :
    (results : Results) × (owner_door client format [] sample_settings (cold, [])
      ≡ (ok tt, (warm, results)))
    × (length results ≡ 3)
    × (passed_all results ≡ true)
owner_door-passes_example =
    owner_door-passes ascii_unicode render source jwt floats verifier 100 100 client format []
      sample_settings (codes "good") (codes "u1") cold warm ascii_unicode_laws logs_in trimmed.0
      trimmed.1 renders serves verify_good junk_header
