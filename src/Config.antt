-- ===== src/Config.antt =====
-- src/config.rs and src/main.rs: the configuration and the start of the program. TOML (the toml crate) and
-- the files are parameters; what serde makes of the tables of a file is written out.
pub mod File
pub mod Main
use Prim.Native.String.{String}
use reth_sentry_node.Prelude.{ℕ, Bool, Option, List}
use reth_sentry_node.Forwarder.{BackendConfig}
use reth_sentry_node.WsServer.{WsConfig}
use reth_sentry_node.Network.{SentryNetworkConfig}

pub record NetworkConfigFile : Type 0 where
  pub chain_id : ℕ
  pub max_peers : ℕ
  pub p2p_port : ℕ
  pub discovery_port : ℕ
  pub block_cache_size : ℕ

abbrev pub default_block_cache_size : ℕ
default_block_cache_size = 256

abbrev pub default_chain_id : ℕ
default_chain_id = 1

abbrev pub default_max_peers : ℕ
default_max_peers = 50

abbrev pub default_port : ℕ
default_port = 30_303

abbrev pub default_network : NetworkConfigFile
default_network = record {
  chain_id = default_chain_id;
  max_peers = default_max_peers;
  p2p_port = default_port;
  discovery_port = default_port;
  block_cache_size = default_block_cache_size;
}

pub record SentryConfig : Type 0 where
  pub network : NetworkConfigFile
  pub backend : BackendConfig
  pub websocket : WsConfig

abbrev pub default : SentryConfig
default = record {
  network = default_network;
  backend = reth_sentry_node.Forwarder.default;
  websocket = reth_sentry_node.WsServer.default;
}

-- `From<&NetworkConfigFile>`.
unfoldable pub to_network_config : NetworkConfigFile → SentryNetworkConfig
to_network_config cfg = record {
  chain_id = cfg.chain_id;
  max_peers = cfg.max_peers;
  p2p_port = cfg.p2p_port;
  discovery_port = cfg.discovery_port;
  block_cache_size = cfg.block_cache_size;
}
