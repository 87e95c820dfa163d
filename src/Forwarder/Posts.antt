-- ===== src/Forwarder/Posts.antt =====
-- src/forwarder.rs: what the tasks post to the endpoints.
use Prim.Native.String.{String, ◌++◌ as ◌<>◌}
use reth_sentry_node.Prelude.{
  ℕ, zero, suc, ◌+◌, ◌%◌, ◌≡◌, Bool, List, [], ◌∷◌, ◌++◌, map, length, u64_mod,
}
use reth_sentry_node.Lru.{LruCrate}
use reth_sentry_node.Forwarder.{
  ForwardableTx, BackendConfig, Task, Forwarder, JsonRpcRequest, Posted, Report, deliver,
}

-- The ids of so many tasks: 1 and up, as u64.
abbrev pub ids : ℕ → List ℕ
ids zero = []
ids (suc n) = ids n ++ ((n + 1) % u64_mod ∷ [])

-- The endpoint and the request of each post.
abbrev pub posted_of : List (String × JsonRpcRequest × Report) → List (String × JsonRpcRequest)
posted_of = map (λ p. (p.0, p.1))

module _ {B256 : Type 0} (hex : List ℕ → String) (post : String → JsonRpcRequest → Posted)
    (endpoints : List String) where
  -- The posts of all tasks, those of a task after those of the ones before it.
  abbrev pub posts : List (Task B256) → List (String × JsonRpcRequest × Report)
  posts [] = []
  posts (task ∷ tasks) = deliver hex post endpoints task ++ posts tasks

module _ {B256 : Type 0} (hex : List ℕ → String) (endpoints : List String) where
  -- A transaction's request to each endpoint.
  abbrev pub requests_for : ℕ → ForwardableTx B256 → List (String × JsonRpcRequest)
  requests_for id tx =
      map
        (λ endpoint. (
          endpoint,
          record {
            jsonrpc = "2.0";
            method = "eth_sendRawTransaction";
            params = ("0x" <> hex tx.raw_tx) ∷ [];
            id = id;
          },
        ))
        endpoints

  abbrev pub requests_of : List ℕ → List (ForwardableTx B256) → List (String × JsonRpcRequest)
  requests_of [] txs = []
  requests_of (id ∷ more) [] = []
  requests_of (id ∷ more) (tx ∷ txs) = requests_for id tx ++ requests_of more txs

module _ (lru : LruCrate) {B256 : Type 0} (b256_eq : Discrete B256) (config : BackendConfig)
    (ws : Bool) (returns : Task B256 → Type 0) where
  -- The counter is the number of the tasks so far, as u64, and their ids are the numbers up to it.
  record HasIds (f : Forwarder lru B256) : Type 0 where
    counter : f.id_counter ≡ length f.spawned % u64_mod
    ids_of : map (λ task. task.id) f.spawned ≡ ids (length f.spawned)
