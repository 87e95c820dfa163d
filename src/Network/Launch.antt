-- ===== src/Network/Launch.antt =====
-- src/network.rs: `start_sentry_network` up to its tasks, and its end. How reth's runtime, manager, fetch
-- client and shutdown answer is a parameter.
use reth_sentry_node.Prelude.{
  ℕ, ◌≡◌, ap, Bool, not, Option, List, Result, ok, err, ◌>>◌, reject_if, if◌then◌else◌, arith,
}
use reth_sentry_node.Chain.{Chain}
use reth_sentry_node.Lru.{LruCrate}
use reth_sentry_node.BlockCache.{BlockCache, latest}
use reth_sentry_node.BlockCache.File.{Codec, save_to_file}
use reth_sentry_node.Network.{
  SentryNetworkConfig, PeersConfig, Head, validator_config, peers_config, restore_cache,
  choose_head,
}
use reth_sentry_node.Network.Sessions.{Ending, write_file}
use reth_sentry_node.Validator.{StatelessValidatorConfig}

-- Whether the runtime is built, the manager is made, the fetch client is given, and the shutdown works.
pub record Answers : Type 0 where
  pub runtime : Bool
  pub manager : Bool
  pub fetch_client : Bool
  pub disconnects : Bool

pub data NetworkError : Type 0 where
  no_runtime no_manager no_fetch_client no_shutdown : NetworkError

module _ (lru : LruCrate) (chain : Chain) (SecretKey : Type 0) where
  -- What the tasks are started with.
  pub record Launch : Type 0 where
    pub validator : StatelessValidatorConfig
    pub cache : BlockCache lru chain
    pub peers : PeersConfig
    pub head : Head chain.B256
    pub secret_key : SecretKey
    pub listener_port : ℕ
    pub discovery_port : ℕ

module _ (lru : LruCrate) (chain : Chain) (codec : Codec chain) where
  -- The end of `start_sentry_network` after the shutdown signal: a save that fails is logged, and the file is then as it was left.
  unfoldable pub stop_network :
      Answers
      → Ending
      → BlockCache lru chain
      → Option (List ℕ)
      → Result NetworkError (Unit {0}) × Option (List ℕ)
  stop_network answers ending cache file = (
    (if answers.disconnects then ok tt else err no_shutdown),
    write_file ending (save_to_file lru chain codec cache) file,
  )

module _ (lru : LruCrate) (chain : Chain) (codec : Codec chain) {SecretKey : Type 0} where
  unfoldable pub launch :
      SentryNetworkConfig
      → SecretKey
      → Option (List ℕ)
      → (now : ℕ) (genesis : chain.B256) → Launch lru chain SecretKey
  launch config key file now genesis =
      let cache = restore_cache lru chain codec config file in
      record {
        validator = validator_config config;
        cache = cache;
        peers = peers_config config;
        head = choose_head chain (latest lru chain cache) now genesis;
        secret_key = key;
        listener_port = config.p2p_port;
        discovery_port = config.discovery_port;
      }

  -- `start_sentry_network` up to its tasks.
  unfoldable pub start_network :
      Answers
      → SentryNetworkConfig
      → SecretKey
      → Option (List ℕ)
      → (now : ℕ) (genesis : chain.B256) → Result NetworkError (Launch lru chain SecretKey)
  start_network answers config key file now genesis = do
    reject_if (not answers.runtime) no_runtime
    reject_if (not answers.manager) no_manager
    reject_if (not answers.fetch_client) no_fetch_client
    ok (launch config key file now genesis)

  start_network-launch :
      (answers : Answers) (config : SentryNetworkConfig) (key : SecretKey) (file : Option (List ℕ))
      (now : ℕ) (genesis : chain.B256) {l : Launch lru chain SecretKey}
      → start_network answers config key file now genesis ≡ ok l
      → launch config key file now genesis ≡ l
  unfolding start_network
  start_network-launch answers config key file now genesis e = ground (arith, e)

  pub start_network-cache :
      (answers : Answers) (config : SentryNetworkConfig) (key : SecretKey) (file : Option (List ℕ))
      (now : ℕ) (genesis : chain.B256) {l : Launch lru chain SecretKey}
      → start_network answers config key file now genesis ≡ ok l
      → restore_cache lru chain codec config file ≡ l.cache
  unfolding launch
  start_network-cache answers config key file now genesis e =
      ap (λ l. l.cache) (start_network-launch answers config key file now genesis e)
