-- ===== src/Network.antt =====
-- src/network.rs: the node's tasks around the block cache and the forwarder. The time, the genesis hash,
-- reth's network handle and its pool are parameters.
pub mod Startup
pub mod Sessions
pub mod Node
pub mod Pending
pub mod Launch
pub mod Life
use reth_sentry_node.Prelude.{
  ℕ, ◌+◌, ◌-◌, ◌/◌, ◌%◌, ◌^◌, Bool, true, false, Option, none, some, List, [], ◌∷◌, ◌++◌, map,
  u64_mod,
}
use reth_sentry_node.Chain.{Chain}
use reth_sentry_node.Lru.{LruCrate}
use reth_sentry_node.BlockCache.{BlockCache, new, latest}
use reth_sentry_node.BlockCache.File.{Codec, load_from_file, save_to_file}
use reth_sentry_node.BlockImport.{NewBlockData, CachingBlockImport}
use reth_sentry_node.Forwarder.{ForwardableTx}
use reth_sentry_node.Validator.{StatelessValidatorConfig}

pub record SentryNetworkConfig : Type 0 where
  pub chain_id : ℕ
  pub max_peers : ℕ
  pub p2p_port : ℕ
  pub discovery_port : ℕ
  pub block_cache_size : ℕ

abbrev pub default : SentryNetworkConfig
default = record {
  chain_id = 1;
  max_peers = 50;
  p2p_port = 30_303;
  discovery_port = 30_303;
  block_cache_size = 256;
}

-- `..Default::default()` but for the chain id.
unfoldable pub validator_config : SentryNetworkConfig → StatelessValidatorConfig
validator_config config = record reth_sentry_node.Validator.default { chain_id = config.chain_id }

-- `PeersConfig`: the most connections out and in.
pub record PeersConfig : Type 0 where
  pub max_outbound : ℕ
  pub max_inbound : ℕ

unfoldable pub peers_config : SentryNetworkConfig → PeersConfig
peers_config config = record {
  max_outbound = config.max_peers / 2;
  max_inbound = config.max_peers / 2;
}

-- The status that is announced to peers.
pub record Head (B256 : Type 0) : Type 0 where
  pub number : ℕ
  pub hash : B256
  pub difficulty : ℕ
  pub total_difficulty : ℕ
  pub timestamp : ℕ

abbrev pub merge_difficulty : ℕ
merge_difficulty = 58_750_000_000_000_000_000_000

-- The number of the anchor block and its time.
abbrev pub anchor_number : ℕ
anchor_number = 17_034_870

abbrev pub anchor_time : ℕ
anchor_time = 1_681_338_455

-- The estimate from a time in seconds; a u64 subtraction wraps in release mode.
unfoldable pub estimated_number : ℕ → ℕ
estimated_number now = (now + u64_mod - anchor_time) % u64_mod / 12 + anchor_number

module _ (chain : Chain) where
  open chain use {B256, Header, number, timestamp}

  unfoldable pub block_head : B256 → Header → Head B256
  block_head hash header = record {
    number = number header;
    hash = hash;
    difficulty = 0;
    total_difficulty = merge_difficulty;
    timestamp = timestamp header;
  }

  unfoldable pub choose_head : Option (B256 × Header) → ℕ → B256 → Head B256
  choose_head (some (hash, header)) now genesis = block_head hash header
  choose_head none now genesis = record {
    number = estimated_number now;
    hash = genesis;
    difficulty = 0;
    total_difficulty = merge_difficulty;
    timestamp = now;
  }

module _ (lru : LruCrate) (chain : Chain) (codec : Codec chain) where
  -- The cache at the start: an error of the load is logged, and the start goes on with what was loaded.
  unfoldable pub restore_cache : SentryNetworkConfig → Option (List ℕ) → BlockCache lru chain
  restore_cache config file =
      (load_from_file lru chain codec (new lru chain config.block_cache_size) file).1

  -- The head at the start.
  unfoldable pub start_head :
      SentryNetworkConfig → Option (List ℕ) → ℕ → chain.B256 → Head chain.B256
  start_head config file now genesis =
      choose_head chain (latest lru chain (restore_cache config file)) now genesis

module _ (lru : LruCrate) (chain : Chain) (PeerId : Type 0) where
  -- The block import with its channel, the status that peers are told, the messages sent to peers in
  -- order, and whether the rebroadcast task was shut down.
  pub record Network : Type 0 where
    pub imports : CachingBlockImport lru chain
    pub status : Option (Head chain.B256)
    pub sent : List (PeerId × NewBlockData chain)
    pub stopped : Bool

module _ (lru : LruCrate) (chain : Chain) {PeerId : Type 0} where
  unfoldable pub send_to_all : List PeerId → NewBlockData chain → List (PeerId × NewBlockData chain)
  send_to_all peers block = map (λ peer. (peer, block)) peers

  -- One round of `rebroadcast_new_blocks`; `peers` is none if the peers cannot be listed.
  unfoldable pub rebroadcast :
      Network lru chain PeerId
      → NewBlockData chain
      → Option (List PeerId)
      → Network lru chain PeerId
  rebroadcast net block peers =
      let net = record net { status = some (block_head chain block.hash block.block.header) } in
      elim peers [
        | none ↦ net
        | some peers ↦ record net { sent = net.sent ++ send_to_all peers block }
      ]

-- One round of the task that listens to the pool: `found` is the encoding of the transaction, if the
-- pool still has it.
unfoldable pub forward_pending :
    {B256 : Type 0} → B256 → Option (List ℕ) → Option (ForwardableTx B256)
forward_pending hash none = none
forward_pending hash (some raw_tx) = some (record { hash = hash; raw_tx = raw_tx })
