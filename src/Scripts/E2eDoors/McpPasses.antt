-- ===== src/Scripts/E2eDoors/McpPasses.antt =====
-- What the checks of the MCP door find where the door as it is modelled serves them.
use honest_agent.Prelude.{◌+◌, ◌<◌, ◌≤◌, ◌≡◌, ◌≢◌, refl, ◌∙◌, ap, true, false, [], arith, length}
use honest_agent.Py.Str.{
  Str, codes, strip, is_empty, is_ascii, member, drop_while, drop_while_end, is_space,
}
use honest_agent.Py.Str.Laws.{str_eq_refl}
use honest_agent.Py.Unicode.{Unicode, UnicodeLaws}
use honest_agent.Py.Url.Plain.{origin_text, is_host_char, is_port}
use honest_agent.Py.Value.{Float}
use honest_agent.Py.Exec.{Exception, ok, raised, fail, py_jwt_error}
use honest_agent.Py.Jwt.{Jwt, Floats, jwt_failure}
use honest_agent.Core.Errors.{status_code, authentication_error}
use honest_agent.Core.Origins.{host_allowed}
use honest_agent.Core.Origins.Laws.{host_allowed-plain}
use honest_agent.Core.Origins.Run.{running}
use honest_agent.Core.Settings.{Settings}
use honest_agent.Main.{mcp_guard}
use honest_agent.Main.Factory.Laws.{mcp_guard-verifier}
use honest_agent.Mcp.Tokens.{verify, mcp_options, build_mcp_verifier, default_ttl_seconds}
use honest_agent.Mcp.Tokens.Library.{DecodesOwnTokens}
use honest_agent.Mcp.Tokens.Laws.{verify-mint_mcp_token}
use honest_agent.Mcp.Server.Checks.{McpGuard}
use honest_agent.Scripts.E2eDoors.{good_token}
use honest_agent.Scripts.E2eDoors.Checks.{Results}
use honest_agent.Scripts.E2eDoors.Counts.{passed_all}
use honest_agent.Scripts.E2eDoors.Session.{McpClient, mcp_door}
use honest_agent.Scripts.E2eDoors.Refusals.{first_call, second_call, mcp_door_total}
use honest_agent.Scripts.E2eDoors.Outcomes.{evil_listed}
use honest_agent.Scripts.E2eDoors.McpServed.{ServesMcp, check_caller-listed, check_caller-unlisted}
use honest_agent.Scripts.E2eDoors.McpCalls.{mcp_call-refused, mcp_call-passed}

claude_origin :
    (unicode : Unicode) (guard : McpGuard)
    → UnicodeLaws unicode
    → host_allowed unicode (codes "https://claude.ai") guard.allowed_origin_hosts
      ≡ ok (member (codes "claude.ai") guard.allowed_origin_hosts)
unfolding running is_host_char is_port origin_text
claude_origin unicode guard laws =
    host_allowed-plain unicode laws (codes "https") (codes "claude.ai") []
      guard.allowed_origin_hosts
      (record {
        scheme_good = refl;
        host_good = refl;
        host_given = λ h. ground arith;
        port_good = refl;
      })

ascii_origin : is_ascii (codes "https://claude.ai") ≡ true
unfolding codes is_ascii
ascii_origin = refl

module _ {S : Type 0} (unicode : Unicode) (jwt : Jwt Str) (floats : Floats) (guard : McpGuard)
    (minted_at decoded_at : Float) (client : McpClient S) (repr : Exception → Str)
    (base_url : Str) where
  -- A good token shown to a guard that was built from the same settings.
  verify-good_token :
      (settings : Settings)
      → DecodesOwnTokens jwt floats
      → mcp_guard unicode settings ≡ ok guard
      → floats.truncate decoded_at < floats.truncate minted_at + default_ttl_seconds + 10
      → floats.truncate minted_at ≤ floats.truncate decoded_at + 10
      → verify jwt guard.verifier decoded_at (good_token jwt floats settings minted_at)
        ≡ ok (record { tenant_id = codes "tenant-a" })
  unfolding good_token build_mcp_verifier
  verify-good_token settings decodes built alive issued =
      let given : codes "tenant-a" ≢ [] = λ h. unfold codes in ground arith in
      rw (mcp_guard-verifier unicode settings guard built) (
        let verified =
          verify-mint_mcp_token jwt floats (build_mcp_verifier settings) minted_at decoded_at
            settings.mcp_signing_secret settings.mcp_token_issuer settings.mcp_token_audience
            (codes "tenant-a") default_ttl_seconds decodes given in
        ground (
          arith,
          str_eq_refl settings.mcp_signing_secret,
          str_eq_refl settings.mcp_token_issuer,
          str_eq_refl settings.mcp_token_audience,
        ))

  verify-junk :
      jwt.decode decoded_at
          (codes "not-a-real-token")
          guard.verifier.secret
          (mcp_options guard.verifier)
        ≡ raised py_jwt_error
      → verify jwt guard.verifier decoded_at (codes "not-a-real-token")
        ≡ fail authentication_error (codes "mcp token verification failed")
  unfolding verify jwt_failure
  verify-junk junk = ground (arith, junk)

  -- With `UnicodeLaws` and a library that decodes its own tokens as PyJWT documents, where the
  -- running app serves the modelled door with a guard that was built from the settings of the
  -- script, whose allowed origins name claude.ai and not evil.com, where the good token is in ASCII,
  -- not empty and without white space around it, where it is shown before its time to live and ten
  -- seconds are over and not more than ten seconds before it was minted, and where PyJWT refuses
  -- `not-a-real-token`: the checks of the MCP door return, and all three have passed.
  pub mcp_door-passes :
      (settings : Settings) (s : S)
      → UnicodeLaws unicode
      → DecodesOwnTokens jwt floats
      → ServesMcp unicode jwt guard decoded_at client base_url
      → mcp_guard unicode settings ≡ ok guard
      → member (codes "claude.ai") guard.allowed_origin_hosts ≡ true
      → member (codes "evil.com") guard.allowed_origin_hosts ≡ false
      → is_ascii (good_token jwt floats settings minted_at) ≡ true
      → strip (good_token jwt floats settings minted_at) ≡ good_token jwt floats settings minted_at
      → is_empty (good_token jwt floats settings minted_at) ≡ false
      → floats.truncate decoded_at < floats.truncate minted_at + default_ttl_seconds + 10
      → floats.truncate minted_at ≤ floats.truncate decoded_at + 10
      → jwt.decode decoded_at
          (codes "not-a-real-token")
          guard.verifier.secret
          (mcp_options guard.verifier)
        ≡ raised py_jwt_error
      → (t : S) × (results : Results) × (mcp_door client repr base_url
            (good_token jwt floats settings minted_at)
            (s, [])
          ≡ (ok tt, (t, results)))
        × (length results ≡ 3)
        × (passed_all results ≡ true)
  mcp_door-passes settings s laws decodes serves built claude evil ascii unpadded given alive issued
        junk =
      let good = good_token jwt floats settings minted_at in
      let (results, returned, three, all_passed) = mcp_door_total client repr base_url good s [] in
      let shows = serves.shows good (codes "https://claude.ai") ascii ascii_origin in
      let junk_shows =
        serves.shows (codes "not-a-real-token") (codes "https://claude.ai")
          (unfold codes is_ascii in refl) ascii_origin in
      let evil_shows =
        serves.shows good (codes "https://evil.com") ascii (unfold codes is_ascii in refl) in
      let listed = claude_origin unicode guard laws ∙ ap ok claude in
      let one =
        mcp_call-passed unicode jwt guard decoded_at client repr base_url serves good
          (codes "https://claude.ai") _ s shows
          (check_caller-listed unicode jwt guard decoded_at _ good _ laws unpadded given listed
              shows
            ∙ verify-good_token settings decodes built alive issued) in
      let two =
        mcp_call-refused unicode jwt guard decoded_at client repr base_url serves
          (codes "not-a-real-token") (codes "https://claude.ai") _
          (first_call client repr base_url good s).1 junk_shows
          (check_caller-listed unicode jwt guard decoded_at _ (codes "not-a-real-token") _ laws
              (unfold codes strip drop_while drop_while_end is_space in refl)
              (unfold codes is_empty in refl) listed junk_shows
            ∙ verify-junk junk)
          (unfold status_code in omega arith) in
      let three_refused =
        mcp_call-refused unicode jwt guard decoded_at client repr base_url serves good
          (codes "https://evil.com") _ (second_call client repr base_url good s).1 evil_shows
          (check_caller-unlisted unicode jwt guard decoded_at _ good _
            (evil_listed unicode guard.allowed_origin_hosts laws ∙ ap ok evil) evil_shows)
          (unfold status_code in omega arith) in
      (_, results, returned, three, ground (arith, all_passed, one, two, three_refused))
