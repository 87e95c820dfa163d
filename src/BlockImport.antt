-- ===== src/BlockImport.antt =====
-- src/block_import.rs: announced blocks go into the cache and to the rebroadcast task.
pub mod Served
use reth_sentry_node.Prelude.{List, [], ◌∷◌, ◌++◌}
use reth_sentry_node.Chain.{Chain}
use reth_sentry_node.Lru.{LruCrate}
use reth_sentry_node.BlockCache.{BlockCache, insert}

module _ (chain : Chain) where
  pub record NewBlock : Type 0 where
    pub header : chain.Header
    pub body : chain.BlockBody

  pub record NewBlockData : Type 0 where
    pub hash : chain.B256
    pub block : NewBlock

  -- An announcement of a whole block, or of hashes.
  pub data NewBlockEvent : Type 0 where
    new_block : NewBlockData → NewBlockEvent
    new_block_hashes : List chain.B256 → NewBlockEvent

module _ (lru : LruCrate) (chain : Chain) where
  -- The cache, and what the unbounded channel to the rebroadcast task holds.
  pub record CachingBlockImport : Type 0 where
    pub cache : BlockCache lru chain
    pub rebroadcast : List (NewBlockData chain)

  unfoldable pub on_new_block : CachingBlockImport → NewBlockEvent chain → CachingBlockImport
  on_new_block i (new_block_hashes hashes) = i
  on_new_block i (new_block msg) = record {
    cache = insert lru chain i.cache msg.hash msg.block.header msg.block.body;
    rebroadcast = i.rebroadcast ++ (msg ∷ []);
  }
