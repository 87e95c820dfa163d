-- ===== src/BlockImport/Served.antt =====
-- src/block_import.rs with src/eth_proxy.rs: an announced block is served from the cache at once.
use reth_sentry_node.Prelude.{ℕ, ◌≡◌, refl, ◌∙◌, some, [], ◌∷◌, ◌++◌}
use reth_sentry_node.Chain.{Chain}
use reth_sentry_node.Lru.{LruCrate, IsLawful}
use reth_sentry_node.Lru.Laws
use reth_sentry_node.BlockCache.{BlockCache, insert}
use reth_sentry_node.EthProxy.{bodies, block_bodies, FetchClient, handle}
use reth_sentry_node.EthProxy.Bodies.{body_of}
use reth_sentry_node.EthProxy.Single.{get_body_by_hash-body_of, resolve_one, handle_found}
use reth_sentry_node.BlockImport.{NewBlockData, new_block, CachingBlockImport, on_new_block}

module _ (lru : LruCrate) (laws : IsLawful lru) (chain : Chain) where
  open chain use {B256, b256_eq, Header, BlockBody}

  body_of-insert :
      {n : ℕ} (c : BlockCache lru chain) (h : B256) (x : Header) (b : BlockBody)
      → Laws.IsSized lru b256_eq n c.bodies_by_hash
      → body_of lru chain (insert lru chain c h x b) h ≡ some b
  unfolding insert
  body_of-insert c h x b v = Laws.entry-push_self lru laws b256_eq c.bodies_by_hash h b v.valid

  -- For a cache whose body cache is valid: after the announcement of a block, a request of the body of
  -- its hash is answered with the block's body, whatever the peers would answer, and the last block for
  -- the rebroadcast task is the announced one.
  pub on_new_block-served :
      (n : ℕ) (i : CachingBlockImport lru chain) (msg : NewBlockData chain)
      (client : FetchClient chain)
      → Laws.IsSized lru b256_eq n i.cache.bodies_by_hash
      → ((handle lru chain client
            (on_new_block lru chain i (new_block msg)).cache
            (block_bodies (msg.hash ∷ []))).0
          ≡ some (bodies (msg.block.body ∷ [])))
        × ((on_new_block lru chain i (new_block msg)).rebroadcast ≡ i.rebroadcast ++ (msg ∷ []))
  unfolding on_new_block
  on_new_block-served n i msg client v =
      let c = insert lru chain i.cache msg.hash msg.block.header msg.block.body in
      (
        handle_found lru laws chain client c msg.hash (
            resolve_one lru laws chain c msg.hash (
              get_body_by_hash-body_of lru laws chain c msg.hash
              ∙ body_of-insert i.cache msg.hash msg.block.header msg.block.body v)),
        refl,
      )
