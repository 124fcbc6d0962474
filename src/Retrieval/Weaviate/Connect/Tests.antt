-- ===== src/Retrieval/Weaviate/Connect/Tests.antt =====
-- Addresses of a local Weaviate.
use honest_agent.Prelude.{ℕ, ◌≡◌, refl, true, none, []}
use honest_agent.Py.Str.{codes}
use honest_agent.Py.Unicode.{ascii_unicode, is_ascii_digit}
use honest_agent.Py.Exec.{value_error, ok, raised}
use honest_agent.Py.Url.Port.{port, port_part, port_number, ascii_number}
use honest_agent.Core.Origins.Run.{running}
use honest_agent.Core.Settings.{default_settings}
use honest_agent.Core.Settings.Sample.{sample_settings}
use honest_agent.Retrieval.Weaviate.{Client}
use honest_agent.Retrieval.Weaviate.Connect.Target.{
  Endpoint, endpoint_of, host_or_localhost, port_or_default,
}
use honest_agent.Retrieval.Weaviate.Connect.{Library, connect}

connecting : Unit {0}
unfolding running is_ascii_digit port port_part port_number ascii_number endpoint_of connect
    host_or_localhost port_or_default default_settings
connecting = tt

abbrev local : Endpoint
local = record { host = codes "localhost"; port = 8080; grpc_port = 50051 }

endpoint_of_tests :
    (endpoint_of ascii_unicode (codes "http://LocalHost") ≡ ok local)
    × (endpoint_of ascii_unicode (codes "http://localhost:0") ≡ ok local)
    × (endpoint_of ascii_unicode (codes "nothing") ≡ ok local)
    × (endpoint_of ascii_unicode (codes "http://localhost:65536") ≡ raised value_error)
    × (endpoint_of ascii_unicode (codes "http://localhost:x") ≡ raised value_error)
unfolding connecting
endpoint_of_tests = (refl, refl, refl, refl, refl)

-- A client of a store that does nothing, and a library whose state counts the connections.
abbrev idle : Client ℕ
idle = record {
  collection_exists = λ name n. (ok true, n);
  create_collection = λ name config n. (ok tt, n);
  get_tenants = λ name n. (ok [], n);
  create_tenants = λ name names n. (ok tt, n);
  insert_object = λ name shard properties vector n. (ok tt, n);
  total_count = λ name shard n. (ok none, n);
}

abbrev library : Library ℕ
library = record {
  use_async_with_local = λ endpoint. idle;
  connect_client = λ endpoint n. (ok tt, 1);
}

connected : connect ascii_unicode library sample_settings 0 ≡ (ok idle, 1)
unfolding connecting
connected = refl
