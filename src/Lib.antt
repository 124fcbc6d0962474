-- ===== src/Lib.antt =====
-- The honest-agent backend: a FastAPI service with three doors, each of which resolves a tenant
-- from a credential of its own. A visitor comes with a public widget key, an owner with a login
-- token, an external AI caller with a token that the service has minted. Behind the doors stands
-- one core, `answer`, which today is a stub.
--
-- Which file models what (paths from the repository's root):
--   Core/Errors, Core/Handlers: backend/src/app/core/errors.py, the AppError classes, the problem
--     response and the exception handler.
--   Core/Settings, Core/Bearer, Core/Origins: the modules of those names in backend/src/app/core.
--     Core/Settings/Loading has the sources of the settings and get_settings.
--   Tenants/Contexts, Tenants/WidgetKeys, Tenants/RateLimit, Tenants/Gate, Tenants/OwnerAuth,
--     Tenants/WidgetRouter: the modules of backend/src/app/tenants. Tenants/Gate/Checks has the
--     parts of the gate that await nothing, and Tenants/Gate/Bodies says what they make of a body's
--     bytes; Tenants/OwnerAuth/Keys has JwksKeyResolver and the fetch, Tenants/OwnerAuth/Threads
--     the threads that call the one resolver at once, Tenants/OwnerAuth/Claims the verifier's
--     checks. Tenants/WidgetRouter/Total, Tenants/WidgetRouter/Stores and
--     Tenants/WidgetRouter/Bodies are about the whole door of the visitor.
--   Agent/Schemas, Agent/Service: backend/src/app/agent and backend/src/app/retrieval/service.py.
--   Mcp/Tokens, Mcp/Server: backend/src/app/mcp. Mcp/Tokens/Library has what PyJWT documents of its
--     own tokens, Mcp/Tokens/Plain a library that keeps it and Mcp/Tokens/Ascii one in ASCII.
--   Core/Logging, Core/Observability: the modules of those names in backend/src/app/core.
--   Core/Db: tenant_txn of backend/src/app/core/db.py. Tenants/Router: the owner's route.
--   Main: backend/src/app/main.py, what the doors are built with; Main/Lifespan the time for which
--     the app holds its pool, Main/Factory create_app.
--   Scripts/SeedLocal, Scripts/ApplyMigrations, Scripts/E2eDoors: the modules of those names in
--     backend/scripts. The keys that the first one writes are those that the visitor's door reads,
--     and the checks of the last one ask the doors: OwnerServed, Served and McpServed say how a
--     client's calls come to the modelled doors.
--   Retrieval/Weaviate: backend/src/app/retrieval/weaviate.py, the shard names, the connection, the
--     bootstrap and the handle of one tenant.
--   Py: what the program uses of Python. Py/Str is `str` as a list of code points, Py/Url is
--     `urlsplit` as far as its scheme, host and port are read, Py/Utf8 is `bytes.decode`, Py/Json
--     is `json.loads` on bytes (CPython 3.12) with a printer to read back, Py/Value the values of
--     JSON and of claims, Py/Dict a `dict` with text keys, Py/Exec exceptions and awaited calls.
--     Unicode tables, NFKC and the parser of bracketed addresses are the parameters of Py/Unicode;
--     PyJWT, the clock and float arithmetic those of Py/Jwt; the recursion limit and `float` of a
--     text those of Py/Json.
--
-- A function that may raise returns a `Result`. An awaited call is an `Action` on the state of the
-- world outside: it gives a `Result` and the next state, also where it raises. The widget-key
-- store, the rate limiter, the fetch of the key set, the calls of the vector store and of a
-- database connection, and the sending of a response are such actions, taken as parameters, so the
-- state that a function leaves tells which of them it has called. The MCP door's context variable
-- and the owner door's cached keys are explicit states beside it. Every loop is a recursion on a
-- list, but for two that run on fuel: the printing of a number gets one unit more than the number
-- counts and so more than it has digits, and the loops of `json.loads` over the items of an array
-- and the entries of an object get the length of the text, of which each round takes a character at
-- least, so that more fuel changes nothing (Py/Json/Scans/Fuel). The nesting of values is bounded
-- by the interpreter's recursion limit, as it is there. The threads of the owner door are a state
-- for each and a schedule, the list of the threads in the order of their steps.
--
-- Parameters that stand for code outside the repository: `loads` (what stands for json.loads in the
-- theorems that hold of any decoder), the query on the database pool, `Jwt` (PyJWT), `Client` and
-- `Library` (Weaviate), `Connection`, `OwnerPool`, `Database` and `Resources` (asyncpg), `Pydantic`
-- (how pydantic reads a value), `KeySource` (the HTTP fetch and PyJWK.from_dict), `HttpClient`,
-- `AdminClient` and `HttpResponse` (httpx), `Services` (logfire and sentry), `McpClient` (the MCP
-- client), `render` (how the framework serializes a result), `next` and `inner` (the handlers
-- behind a middleware). Laws of such code are hypotheses by name: `UnicodeLaws`,
-- `DecodesOwnTokens`, `RaisesPyJwtError`, `StoreLaws`, `ChunkLaws`, `SetsTenant`, `TableLaws`,
-- `AdminLaws`, `Represents`, `Calm`, `CountsPools`, `Journal`, `Works`, `Seeded`, `Serves`,
-- `Renders`, `Passed`, `LogsIn`, `ServesOwner`, `RendersIdentity`, `ServesMcp`, `ReadsDigits`. The
-- times at which code reads the clock are arguments.
--
-- Not modelled: the float arithmetic of the interpreter, the framework's routing, what logging
-- prints, the routes' registration, the protocol ModelProvider and the value type Tenant, which
-- nothing uses, what the scripts print, the SQL of the migrations, the concurrency of two requests
-- but for the threads of the key resolver, and what other code does between two awaited calls of
-- one request.
mod Prelude
pub mod Py
pub mod Core
pub mod Tenants
pub mod Agent
pub mod Retrieval
pub mod Mcp
pub mod Main
pub mod Scripts
