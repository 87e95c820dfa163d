-- ===== src/Config/File.antt =====
-- src/config.rs: a configuration from the tables of a file, as serde's defaults fill it in.
use Prim.Native.String.{String}
use reth_sentry_node.Prelude.{ℕ, ◌≡◌, refl, Bool, Option, none, some, List, Result, ok, err, ◌>>=◌}
use reth_sentry_node.Dedup.{DedupConfig}
use reth_sentry_node.Forwarder.{BackendConfig}
use reth_sentry_node.WsServer.{WsConfig}
use reth_sentry_node.Config.{NetworkConfigFile, SentryConfig, default_network}

-- The tables: each field may be left out.
pub record NetworkTable : Type 0 where
  pub chain_id : Option ℕ
  pub max_peers : Option ℕ
  pub p2p_port : Option ℕ
  pub discovery_port : Option ℕ
  pub block_cache_size : Option ℕ

pub record DedupTable : Type 0 where
  pub cache_size : Option ℕ
  pub log_interval : Option ℕ

pub record BackendTable : Type 0 where
  pub endpoints : Option (List String)
  pub max_concurrent : Option ℕ
  pub buffer_size : Option ℕ
  pub dedup : Option DedupTable

pub record WsTable : Type 0 where
  pub enabled : Option Bool
  pub addr : Option String
  pub port : Option ℕ
  pub capacity : Option ℕ

pub record Tables : Type 0 where
  pub network : Option NetworkTable
  pub backend : Option BackendTable
  pub websocket : Option WsTable

pub data ConfigError : Type 0 where
  unreadable bad_toml missing_endpoints : ConfigError

-- `#[serde(default = ...)]`.
abbrev pub or_default : {A : Type 0} → A → Option A → A
or_default d none = d
or_default d (some a) = a

unfoldable pub read_network : Option NetworkTable → NetworkConfigFile
read_network none = default_network
read_network (some t) = record {
  chain_id = or_default default_network.chain_id t.chain_id;
  max_peers = or_default default_network.max_peers t.max_peers;
  p2p_port = or_default default_network.p2p_port t.p2p_port;
  discovery_port = or_default default_network.discovery_port t.discovery_port;
  block_cache_size = or_default default_network.block_cache_size t.block_cache_size;
}

unfoldable pub read_dedup : Option DedupTable → DedupConfig
read_dedup none = reth_sentry_node.Dedup.default
read_dedup (some t) = record {
  cache_size = or_default reth_sentry_node.Dedup.default_cache_size t.cache_size;
  log_interval = or_default reth_sentry_node.Dedup.default_log_interval t.log_interval;
}

-- The endpoints have no default of their own.
unfoldable pub require : Option (List String) → Result ConfigError (List String)
require none = err missing_endpoints
require (some endpoints) = ok endpoints

unfoldable pub read_backend : Option BackendTable → Result ConfigError BackendConfig
unfolding read_dedup require
read_backend none = ok reth_sentry_node.Forwarder.default
read_backend (some t) = do
  endpoints ← require t.endpoints
  ok (record {
    endpoints = endpoints;
    max_concurrent = or_default reth_sentry_node.Forwarder.default_max_concurrent t.max_concurrent;
    buffer_size = or_default reth_sentry_node.Forwarder.default_buffer_size t.buffer_size;
    dedup = read_dedup t.dedup;
  })

unfoldable pub read_websocket : Option WsTable → WsConfig
read_websocket none = reth_sentry_node.WsServer.default
read_websocket (some t) = record {
  enabled = or_default reth_sentry_node.WsServer.default.enabled t.enabled;
  addr = or_default reth_sentry_node.WsServer.default.addr t.addr;
  port = or_default reth_sentry_node.WsServer.default.port t.port;
  capacity = or_default reth_sentry_node.WsServer.default.capacity t.capacity;
}

unfoldable pub read_config : Tables → Result ConfigError SentryConfig
unfolding read_network read_backend read_websocket
read_config t = do
  backend ← read_backend t.backend
  ok (record {
    network = read_network t.network;
    backend = backend;
    websocket = read_websocket t.websocket;
  })

-- The tables that say everything, as serde writes them.
unfoldable pub write_config : SentryConfig → Tables
write_config c = record {
  network = some (record {
    chain_id = some c.network.chain_id;
    max_peers = some c.network.max_peers;
    p2p_port = some c.network.p2p_port;
    discovery_port = some c.network.discovery_port;
    block_cache_size = some c.network.block_cache_size;
  });
  backend = some (record {
    endpoints = some c.backend.endpoints;
    max_concurrent = some c.backend.max_concurrent;
    buffer_size = some c.backend.buffer_size;
    dedup = some (record {
      cache_size = some c.backend.dedup.cache_size;
      log_interval = some c.backend.dedup.log_interval;
    });
  });
  websocket = some (record {
    enabled = some c.websocket.enabled;
    addr = some c.websocket.addr;
    port = some c.websocket.port;
    capacity = some c.websocket.capacity;
  });
}

-- For any configuration: what serde writes of it is read back as it.
pub read_config-write_config : (c : SentryConfig) → read_config (write_config c) ≡ ok c
unfolding read_config write_config read_network read_backend read_websocket read_dedup require
read_config-write_config c = refl
