-- ===== src/Scripts/E2eDoors/McpTests.antt =====
-- The checks of the MCP door against a client that runs the modelled door.
use honest_agent.Prelude.{
  ◌≡◌, refl, true, false, Option, some, none, [], ◌∷◌, ◌++◌, arith, length, leb, all, if◌then◌else◌,
}
use honest_agent.Py.Str.{
  Str, codes, strip, is_empty, is_ascii, str_eq, member, drop_while, drop_while_end, is_space,
}
use honest_agent.Py.Dict.{Dict, lookup, assign}
use honest_agent.Py.Unicode.{ascii_unicode, ascii_unicode_laws}
use honest_agent.Py.Utf8.{decode-ascii}
use honest_agent.Py.Value.{◌+ℤ◌, Value, obj, str, null, field, end}
use honest_agent.Py.Exec.{external, Result, ok, raised, Action, py_jwt_error}
use honest_agent.Core.Errors.{Response}
use honest_agent.Core.Origins.Run.{running}
use honest_agent.Core.Settings.{Settings, default_settings}
use honest_agent.Core.Settings.Sample.{sample_settings}
use honest_agent.Main.{mcp_guard}
use honest_agent.Mcp.Tokens.{mcp_options, build_mcp_verifier}
use honest_agent.Mcp.Tokens.{mint_mcp_token, minted_claims}
use honest_agent.Mcp.Tokens.Plain.{
  whole, frame, encode_claims, size, write_claims, decode_token, finish, cut, split, accept,
}
use honest_agent.Mcp.Tokens.Ascii.{
  ones, to_ascii, from_ascii, to_ascii-is_ascii, ascii_jwt, ascii_decodes,
}
use honest_agent.Mcp.Tokens.Library.{is_current}
use honest_agent.Mcp.Server.{World, Scope, with_caller, mcp_call, answer_tool}
use honest_agent.Mcp.Server.Checks.{
  McpGuard, decode_headers, hosts_of, mcp_allowed_origin_hosts, mcp_request_hosts,
}
use honest_agent.Scripts.E2eDoors.{good_token}
use honest_agent.Scripts.E2eDoors.Checks.{Results}
use honest_agent.Scripts.E2eDoors.Counts.{passed_all}
use honest_agent.Scripts.E2eDoors.Session.{McpClient, mcp_door}
use honest_agent.Scripts.E2eDoors.McpServed.{
  Message, hello, list_tools, call_answer, Sent, send, fresh, mcp_headers, Shows, ServesMcp,
}
use honest_agent.Scripts.E2eDoors.McpPasses.{mcp_door-passes}

abbrev settings : Settings
settings = record sample_settings { mcp_allowed_origins = codes "https://claude.ai" ∷ [] }

abbrev guard : McpGuard
guard = record {
  verifier = build_mcp_verifier settings;
  allowed_origin_hosts = codes "claude.ai" ∷ [];
  allowed_request_hosts = mcp_request_hosts ascii_unicode settings;
}

built : mcp_guard ascii_unicode settings ≡ ok guard
unfolding running mcp_guard mcp_allowed_origin_hosts hosts_of default_settings
built = refl

abbrev header : Str → Dict Str → Str
header key headers = elim (lookup key headers) [ none ↦ [] | some value ↦ value ]

abbrev request : Dict Str → Scope
request headers = record {
  type = codes "http";
  headers =
      (codes "Host", codes "localhost:8000")
      ∷ (codes "Authorization", header (codes "Authorization") headers)
      ∷ (codes "Origin", header (codes "Origin") headers)
      ∷ [];
  path = some (codes "/mcp/");
}

abbrev answer_with : Value → Response
answer_with content = record {
  status_code = 200;
  media_type = codes "application/json";
  content = content;
}

-- The server answers a call with what the tool returns.
server : Message → Scope → Action (World Sent) (Unit {0})
server (call_answer query) scope world = elim (answer_tool query world).0 [
  | raised e ↦ (raised e, world)
  | ok v ↦ (ok tt, record world { outer = some (answer_with v) })
]
server _ scope world = (ok tt, record world { outer = some (answer_with null) })

-- What the door answers to a message of the session that was opened with these headers.
exchange : Message → Option (Dict Str) → Option Response
exchange message none = none
exchange message (some headers) =
    (mcp_call send ascii_unicode ascii_jwt guard 20 (server message) (request headers)
      fresh).1.outer

read : {A : Type 0} → (Value → A) → Option Response → Result A
read f none = raised (external 1)
read f (some response) =
    if leb 400 response.status_code then raised (external 2) else ok (f response.content)

query_in : Value → Str
query_in (obj (field key (str query) end)) = query
query_in _ = []

-- Its state is the headers of the open session.
client : McpClient (Option (Dict Str))
unfolding exchange read query_in
client = record {
  connect = λ url headers s. (ok tt, some headers);
  disconnect = λ fine s. (ok tt, none);
  enter = λ s. (ok tt, s);
  leave = λ fine s. (ok tt, s);
  initialize = λ s. (read (λ v. tt) (exchange hello s), s);
  list_tools = λ s. (read (λ v. codes "answer" ∷ []) (exchange list_tools s), s);
  call_tool =
      λ name arguments s. (read (λ v. some v) (exchange (call_answer (query_in arguments)) s), s);
}

all-is_ascii : (s : Str) → is_ascii s ≡ true → all (λ b. leb b 0x7f) s ≡ true
unfolding is_ascii
all-is_ascii [] h = refl
all-is_ascii (c ∷ s) h = ground (arith, all-is_ascii s)

abbrev sent_headers : (token origin : Str) → Dict Str
sent_headers token origin =
    (codes "host", codes "localhost:8000")
    ∷ (codes "authorization", codes "Bearer " ++ token)
    ∷ (codes "origin", origin)
    ∷ []

sent_headers_lem :
    (token origin : Str)
    → is_ascii token ≡ true
    → is_ascii origin ≡ true
    → decode_headers ascii_unicode (request (mcp_headers token origin)).headers
      ≡ ok (sent_headers token origin)
unfolding decode_headers codes lookup assign str_eq running is_ascii
sent_headers_lem token origin ascii ascii' =
    let bearer = decode-ascii (codes "Bearer " ++ token) (all-is_ascii token ascii) in
    let site = decode-ascii origin (all-is_ascii origin ascii') in
    let a = decode-ascii (codes "Host") refl in
    let b = decode-ascii (codes "localhost:8000") refl in
    let c = decode-ascii (codes "Authorization") refl in
    let d = decode-ascii (codes "Origin") refl in rw (a, b, c, bearer, d, site) refl

shows :
    (token origin : Str)
    → is_ascii token ≡ true
    → is_ascii origin ≡ true
    → Shows ascii_unicode guard (request (mcp_headers token origin)) token origin
unfolding running lookup default_settings mcp_request_hosts
shows token origin ascii ascii' = record {
  http = refl;
  headers = sent_headers token origin;
  decoded = sent_headers_lem token origin ascii ascii';
  host = codes "localhost:8000";
  has_host = refl;
  host_served = refl;
  has_origin = refl;
  authorization = refl;
}

serves : ServesMcp ascii_unicode ascii_jwt guard 20 client (codes "http://127.0.0.1:8000")
unfolding client exchange read server query_in with_caller
serves = record {
  server = server;
  request = request;
  shows = shows;
  Session = λ headers s. s ≡ some headers;
  connected = λ headers s. (some headers, refl, refl);
  entered = λ headers s begun. (s, refl, begun);
  left = λ fine s. (s, refl);
  disconnected = λ fine s. (none, refl);
  refused = λ headers response s begun answered bad.
      (external 2, s, rw (begun, exchange, answered) (ground arith));
  initialized = λ headers context s begun passed. (s, rw (begun, exchange, passed) refl, begun);
  listed = λ headers context s begun passed. (s, rw (begun, exchange, passed) refl, begun);
  called = λ headers context query v s begun passed answered.
      (s, rw (begun, exchange, passed, with_caller, server, answered) refl);
}

abbrev good : Str
good = good_token ascii_jwt whole settings 10

unfoldable minting : Unit {0}
unfolding good_token mint_mcp_token minted_claims codes to_ascii ones encode_claims frame size
    write_claims ◌+ℤ◌ default_settings strip drop_while drop_while_end is_space is_empty
minting = tt

good-is_ascii : is_ascii good ≡ true
unfolding good_token mint_mcp_token
good-is_ascii = to_ascii-is_ascii _

good_unpadded : (strip good ≡ good) × (is_empty good ≡ false)
unfolding minting
good_unpadded = (refl, refl)

junk_refused :
    ascii_jwt.decode 20
      (codes "not-a-real-token")
      guard.verifier.secret
      (mcp_options guard.verifier)
    ≡ raised py_jwt_error
unfolding minting from_ascii decode_token finish cut split accept is_current str_eq
    build_mcp_verifier
junk_refused = refl

origins_listed :
    (member (codes "claude.ai") guard.allowed_origin_hosts ≡ true)
    × (member (codes "evil.com") guard.allowed_origin_hosts ≡ false)
unfolding running
origins_listed = (refl, refl)

mcp_door-passes_example :
    (t : Option (Dict Str)) × (results : Results) × (mcp_door client
        (λ e. [])
        (codes "http://127.0.0.1:8000")
        (good_token ascii_jwt whole settings 10)
        (none, [])
      ≡ (ok tt, (t, results)))
    × (length results ≡ 3)
    × (passed_all results ≡ true)
mcp_door-passes_example =
    mcp_door-passes ascii_unicode ascii_jwt whole guard 10 20 client (λ e. [])
      (codes "http://127.0.0.1:8000") settings none ascii_unicode_laws ascii_decodes serves built
      origins_listed.0 origins_listed.1 good-is_ascii good_unpadded.0 good_unpadded.1 (omega arith)
      (omega arith) junk_refused
