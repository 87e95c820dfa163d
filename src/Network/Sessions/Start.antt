-- ===== src/Network/Sessions/Start.antt =====
-- src/network.rs: the head at a start after sessions.
use reth_sentry_node.Prelude.{ℕ, ◌≤◌, ◌≡◌, refl, Option, none, some, List, All, OfSome}
use reth_sentry_node.Chain.{Chain}
use reth_sentry_node.Lru.{LruCrate, IsLawful}
use reth_sentry_node.BlockCache.{latest}
use reth_sentry_node.BlockCache.File.{Codec, IsCodec}
use reth_sentry_node.BlockCache.Latest.{latest-max}
use reth_sentry_node.Network.{
  SentryNetworkConfig, restore_cache, Head, block_head, choose_head, start_head, estimated_number,
}
use reth_sentry_node.Network.Sessions.{
  Session, file_after, HasShortEncodings, IsSoundSession, unsaved, file_after-IsSaved,
  restore_cache-run,
}

module _ (lru : LruCrate) (laws : IsLawful lru) (chain : Chain) (codec : Codec chain)
    (codec_laws : IsCodec codec) (short : HasShortEncodings lru chain codec)
    (P : chain.B256 → chain.Header → Type 0) (Q : chain.B256 → chain.BlockBody → Type 0) where
  -- The head is that of the block, which has the highest number of the cache's hashes; with no block it
  -- is the estimate.
  abbrev pub IsHead :
      ℕ
      → chain.B256
      → List (ℕ × chain.B256)
      → Option (chain.B256 × chain.Header)
      → Head chain.B256
      → Type 0
  IsHead now genesis hashes none head =
      (head.number ≡ estimated_number now) × (head.hash ≡ genesis) × (head.timestamp ≡ now)
  IsHead now genesis hashes (some (hash, header)) head =
      P hash header
      × (head.hash ≡ hash)
      × (head.number ≡ chain.number header)
      × (head.timestamp ≡ chain.timestamp header)
      × All (λ e. e.0 ≤ head.number) hashes

  choose_head-IsHead :
      (now : ℕ) (genesis : chain.B256) (hashes : List (ℕ × chain.B256))
      (found : Option (chain.B256 × chain.Header))
      → OfSome (λ e. P e.0 e.1 × All (λ m. m.0 ≤ chain.number e.1) hashes) found
      → IsHead now genesis hashes found (choose_head chain found now genesis)
  unfolding choose_head block_head
  choose_head-IsHead now genesis hashes none h = (refl, refl, refl)
  choose_head-IsHead now genesis hashes (some (hash, header)) h = (h.0, refl, refl, refl, h.1)

  -- As for `session_cache-reads`, for the start of the node after any sound sessions: if the restored
  -- cache has a latest block, the head that is announced is that block's, `P` holds of it, and no block
  -- number that the cache has a hash for is above it; else the head is the estimate from the time, with
  -- the genesis hash.
  pub start_head-IsHead :
      (before : List (Session chain)) (config : SentryNetworkConfig) (now : ℕ)
      (genesis : chain.B256)
      → All (IsSoundSession lru laws chain codec codec_laws short P Q) before
      → IsHead now genesis
          (lru.iter
            (restore_cache lru chain codec config
              (file_after lru chain codec before none)).hash_by_number)
          (latest lru chain
            (restore_cache lru chain codec config (file_after lru chain codec before none)))
          (start_head lru chain codec config (file_after lru chain codec before none) now genesis)
  unfolding start_head
  start_head-IsHead before config now genesis all =
      let file = file_after lru chain codec before none in
      let (ops, s, e) =
        restore_cache-run lru laws chain codec codec_laws short P Q config file
          (file_after-IsSaved lru laws chain codec codec_laws short P Q before none all unsaved) in
      let c = restore_cache lru chain codec config file in
      choose_head-IsHead now genesis (lru.iter c.hash_by_number) (latest lru chain c)
        (rw e (latest-max lru laws chain P Q config.block_cache_size ops s))
