-- ===== src/Retrieval/Weaviate/Connect/Target.antt =====
-- Where `connect` of backend/src/app/retrieval/weaviate.py finds Weaviate, by the URL in the settings.
use honest_agent.Prelude.{ℕ, zero, suc, Option, none, some, [], ◌∷◌}
use honest_agent.Py.Str.{Str, codes}
use honest_agent.Py.Unicode.{Unicode}
use honest_agent.Py.Exec.{Result, ok}
use honest_agent.Py.Exec.Checked.{◌>>=◌}
use honest_agent.Py.Url.{urlsplit, hostname}
use honest_agent.Py.Url.Port.{port}

abbrev pub default_grpc_port : ℕ
default_grpc_port = 50051

-- The arguments of `use_async_with_local`.
pub record Endpoint : Type 0 where
  pub host : Str
  pub port : ℕ
  pub grpc_port : ℕ

-- `parts.hostname or "localhost"`.
unfoldable pub host_or_localhost : Option Str → Str
host_or_localhost none = codes "localhost"
host_or_localhost (some []) = codes "localhost"
host_or_localhost (some (c ∷ host)) = c ∷ host

-- `parts.port or 8080`.
unfoldable pub port_or_default : Option ℕ → ℕ
port_or_default none = 8080
port_or_default (some zero) = 8080
port_or_default (some (suc n)) = suc n

unfoldable pub endpoint_of : Unicode → Str → Result Endpoint
unfolding host_or_localhost port_or_default
endpoint_of unicode url = do
  parts ← urlsplit unicode url
  given ← port parts
  ok (record {
    host = host_or_localhost (hostname unicode parts);
    port = port_or_default given;
    grpc_port = default_grpc_port;
  })
