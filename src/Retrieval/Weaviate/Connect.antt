-- ===== src/Retrieval/Weaviate/Connect.antt =====
-- backend/src/app/retrieval/weaviate.py: `connect`.
pub mod Target
pub mod Laws
pub mod Tests
use Target.{Endpoint, endpoint_of}
use honest_agent.Py.Unicode.{Unicode}
use honest_agent.Py.Exec.{Action, pure, lift, ◌>>=◌, ◌>>◌}
use honest_agent.Core.Settings.{Settings}
use honest_agent.Retrieval.Weaviate.{Client}

-- What the library makes of them, and `client.connect()`.
pub record Library (S : Type 0) : Type 0 where
  pub use_async_with_local : Endpoint → Client S
  pub connect_client : Endpoint → Action S (Unit {0})

unfoldable pub connect : {S : Type 0} → Unicode → Library S → Settings → Action S (Client S)
unfolding endpoint_of
connect unicode library settings = do
  endpoint ← lift (endpoint_of unicode settings.weaviate_url)
  library.connect_client endpoint
  pure (library.use_async_with_local endpoint)
