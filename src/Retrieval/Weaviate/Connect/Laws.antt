-- ===== src/Retrieval/Weaviate/Connect/Laws.antt =====
-- What a client is connected to.
use honest_agent.Prelude.{
  ℕ, zero, suc, ◌≤◌, ◌≡◌, refl, ◌≢◌, inl, inr, Option, none, some, [], ◌∷◌, arith,
}
use honest_agent.Py.Str.{Str, codes}
use honest_agent.Py.Unicode.{Unicode}
use honest_agent.Py.Exec.{ok, Result-cases}
use honest_agent.Py.Url.{urlsplit, hostname}
use honest_agent.Py.Url.Port.{port, port_bound}
use honest_agent.Core.Settings.{Settings}
use honest_agent.Retrieval.Weaviate.{Client}
use honest_agent.Retrieval.Weaviate.Connect.Target.{
  Endpoint, host_or_localhost, port_or_default, endpoint_of,
}
use honest_agent.Retrieval.Weaviate.Connect.{Library, connect}

host_given : (host : Option Str) → host_or_localhost host ≢ []
unfolding host_or_localhost codes
host_given none h = ground arith
host_given (some []) h = ground arith
host_given (some (c ∷ host)) h = ground arith

port_bounds :
    (given : Option ℕ)
    → ((n : ℕ) → given ≡ some n → n ≤ 65535)
    → (1 ≤ port_or_default given) × (port_or_default given ≤ 65535)
unfolding port_or_default
port_bounds none h = (omega arith, omega arith)
port_bounds (some zero) h = (omega arith, omega arith)
port_bounds (some (suc n)) h = (omega arith, h (suc n) refl)

-- An endpoint that a client can be made for.
pub record Reachable (endpoint : Endpoint) : Type 0 where
  pub host_given : endpoint.host ≢ []
  pub port_least : 1 ≤ endpoint.port
  pub port_most : endpoint.port ≤ 65535
  pub grpc : endpoint.grpc_port ≡ 50051

endpoint_of-Reachable :
    (unicode : Unicode) (url : Str) (endpoint : Endpoint)
    → endpoint_of unicode url ≡ ok endpoint
    → Reachable endpoint
unfolding endpoint_of
endpoint_of-Reachable unicode url endpoint h = elim (Result-cases (urlsplit unicode url)) [
  | inr (e, failed) ↦ absurd (ground arith)
  | inl (parts, split) ↦ elim (Result-cases (port parts)) [
    | inr (e, failed) ↦ absurd (ground arith)
    | inl (given, read) ↦
        let hosts = host_given (hostname unicode parts) in
        let (least, most) = port_bounds given (λ n e. port_bound parts n (ground arith)) in
        record {
          host_given = ground arith;
          port_least = ground arith;
          port_most = ground arith;
          grpc = ground arith;
        }
  ]
]

-- Whatever the URL in the settings is: where `connect` returns a client, the client is the
-- library's for a host that is not empty, a port from 1 to 65535, also where the URL names port 0,
-- and the gRPC port 50051, and it has been connected there.
connect-Reachable :
    {S : Type 0} (unicode : Unicode) (library : Library S) (settings : Settings) (s t : S)
    (client : Client S)
    → connect unicode library settings s ≡ (ok client, t)
    → (endpoint : Endpoint) × Reachable endpoint
      × (library.connect_client endpoint s ≡ (ok tt, t))
      × (client ≡ library.use_async_with_local endpoint)
unfolding connect
connect-Reachable unicode library settings s t client h =
    elim (Result-cases (endpoint_of unicode settings.weaviate_url)) [
      | inr (e, failed) ↦ absurd (ground arith)
      | inl (endpoint, read) ↦ elim (Result-cases (library.connect_client endpoint s).0) [
        | inr (e, failed) ↦ absurd (ground arith)
        | inl (x, connected) ↦ (
          endpoint,
          endpoint_of-Reachable unicode settings.weaviate_url endpoint read,
          ground arith,
          ground arith,
        )
      ]
    ]
