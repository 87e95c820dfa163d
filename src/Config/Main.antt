-- ===== src/Config/Main.antt =====
-- src/main.rs: the configuration from the command line or a file, and the start of the node up to its
-- network. The files, the TOML parser, the listener and the key's codec are parameters.
pub mod Start
use Prim.Native.String.{String}
use reth_sentry_node.Prelude.{
  ℕ, Bool, true, false, not, Option, none, some, List, [], ◌∷◌, ok, err, Result, ◌>>=◌, ◌>>◌,
  reject_if, ◌==◌, if◌then◌else◌,
}
use reth_sentry_node.Forwarder.{BackendConfig}
use reth_sentry_node.WsServer.{WsConfig}
use reth_sentry_node.WsServer.Start.{WsError, start_ws_server}
use reth_sentry_node.NodeKey.{KeyCodec, Disk, KeyError, load_or_generate}
use reth_sentry_node.Network.{SentryNetworkConfig}
use reth_sentry_node.Config.{SentryConfig, to_network_config}
use reth_sentry_node.Config.File.{Tables, ConfigError, unreadable, bad_toml, read_config}

-- The command line, with clap's defaults filled in.
pub record Cli : Type 0 where
  pub config : Option String
  pub port : ℕ
  pub max_peers : ℕ
  pub chain_id : ℕ
  pub backends : List String
  pub ws_port : ℕ
  pub no_ws : Bool
  pub data_dir : String
  pub block_cache_size : ℕ

abbrev pub default_cli : Cli
default_cli = record {
  config = none;
  port = 30_303;
  max_peers = 50;
  chain_id = 1;
  backends = [];
  ws_port = 8546;
  no_ws = false;
  data_dir = "data";
  block_cache_size = 256;
}

unfoldable pub from_backends : List String → BackendConfig
from_backends [] = record (reth_sentry_node.Forwarder.default) { endpoints = [] }
from_backends (e ∷ es) = record (reth_sentry_node.Forwarder.default) { endpoints = e ∷ es }

-- The configuration of a start without a file.
unfoldable pub from_cli : Cli → SentryConfig
unfolding from_backends
from_cli cli = record {
  network = record {
    chain_id = cli.chain_id;
    max_peers = cli.max_peers;
    p2p_port = cli.port;
    discovery_port = cli.port;
    block_cache_size = cli.block_cache_size;
  };
  backend = from_backends cli.backends;
  websocket = record (reth_sentry_node.WsServer.default) {
    enabled = not cli.no_ws;
    port = cli.ws_port;
  };
}

unfoldable pub parse_toml : Option Tables → Result ConfigError SentryConfig
parse_toml none = err bad_toml
parse_toml (some tables) = read_config tables

unfoldable pub parse_file :
    (String → Option Tables) → Option String → Result ConfigError SentryConfig
unfolding parse_toml
parse_file toml none = err unreadable
parse_file toml (some content) = parse_toml (toml content)

unfoldable pub load_config :
    (read : String → Option String) (toml : String → Option Tables)
    → Cli
    → Result ConfigError SentryConfig
unfolding parse_file from_cli
load_config read toml cli = elim cli.config [
  | none ↦ ok (from_cli cli)
  | some path ↦ parse_file toml (read path)
]

-- Why the program ends before its network starts: an error, or a panic on a channel without room.
pub data MainError : Type 0 where
  bad_config : ConfigError → MainError
  bad_websocket : WsError → MainError
  bad_key : KeyError → MainError
  no_buffer : MainError

-- What the network is started with.
pub record Started (SecretKey : Type 0) : Type 0 where
  pub websocket : Option WsConfig
  pub backend : BackendConfig
  pub network : SentryNetworkConfig
  pub key : SecretKey
  pub data_dir : String

unfoldable pub map_err : {E F A : Type 0} → (E → F) → Result E A → Result F A
map_err f (ok a) = ok a
map_err f (err e) = err (f e)

-- The server, if it is enabled.
unfoldable pub start_websocket :
    (parses binds : String → ℕ → Bool) → WsConfig → Result WsError (Option WsConfig)
start_websocket parses binds config =
    if config.enabled
    then (start_ws_server parses binds config >>= λ _. ok (some config))
    else ok none

-- What comes before the key.
unfoldable pub prepare :
    (read : String → Option String) (toml : String → Option Tables)
    (parses binds : String → ℕ → Bool)
    → Cli
    → Result MainError (SentryConfig × Option WsConfig)
unfolding map_err load_config start_websocket
prepare read toml parses binds cli = do
  config ← map_err bad_config (load_config read toml cli)
  websocket ← map_err bad_websocket (start_websocket parses binds config.websocket)
  ok (config, websocket)

module _ {SecretKey Text : Type 0} (codec : KeyCodec SecretKey Text) where
  -- What comes after the key: the forwarder's channel, and the network's configuration.
  unfoldable pub finish :
      Cli
      → SentryConfig × Option WsConfig
      → Result KeyError SecretKey
      → Result MainError (Started SecretKey)
  unfolding to_network_config
  finish cli (config, websocket) (err e) = err (bad_key e)
  finish cli (config, websocket) (ok key) = do
    reject_if (config.backend.buffer_size == 0) no_buffer
    ok (record {
      websocket = websocket;
      backend = config.backend;
      network = to_network_config config.network;
      key = key;
      data_dir = cli.data_dir;
    })

  -- `main`, over the state of the key's file; `key` is what a generation would give.
  unfoldable pub main :
      (read : String → Option String) (toml : String → Option Tables)
      (parses binds : String → ℕ → Bool)
      → Cli
      → Disk Text
      → SecretKey
      → Result MainError (Started SecretKey) × Disk Text
  main read toml parses binds cli disk key = elim (prepare read toml parses binds cli) [
    | err e ↦ (err e, disk)
    | ok prepared ↦
        let (loaded, disk') = load_or_generate codec disk key in (finish cli prepared loaded, disk')
  ]
