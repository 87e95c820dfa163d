-- ===== src/Network/Sessions/Reads.antt =====
-- src/network.rs with src/block_cache.rs: what the block cache returns after restarts.
use reth_sentry_node.Prelude.{ℕ, ◌≡◌, none, List, All, OfSome}
use reth_sentry_node.Chain.{Chain}
use reth_sentry_node.Lru.{LruCrate, IsLawful}
use reth_sentry_node.BlockCache
use reth_sentry_node.BlockCache.Coherence.{run-reads}
use reth_sentry_node.BlockCache.File.{Codec, IsCodec}
use reth_sentry_node.Network.Sessions.{
  Session, session_cache, file_after, HasShortEncodings, IsSoundSession, unsaved,
  file_after-IsSaved, session_cache-run,
}

module _ (lru : LruCrate) (laws : IsLawful lru) (chain : Chain) (codec : Codec chain)
    (codec_laws : IsCodec codec) (short : HasShortEncodings lru chain codec)
    (P : chain.B256 → chain.Header → Type 0) (Q : chain.B256 → chain.BlockBody → Type 0) where
  -- For a codec with its laws and short encodings, over an LRU cache with its laws: after any sessions,
  -- each with a cache size below 2^32 and with operations that insert under each hash only headers with
  -- `P` and bodies with `Q`, and in the course of one more such session, however many restarts lie in
  -- between, and whether the file of a session was written, cut off at any byte, or not written: a
  -- header read by its hash has `P` with it, a header read by a number has that number, and a body read
  -- by its hash has `Q` with it.
  pub session_cache-reads :
      (before : List (Session chain)) (session : Session chain) (hash : chain.B256) (n : ℕ)
      → All (IsSoundSession lru laws chain codec codec_laws short P Q) before
      → IsSoundSession lru laws chain codec codec_laws short P Q session
      → OfSome
          (P hash)
          (BlockCache.get_header_by_hash lru chain
            (session_cache lru chain codec session (file_after lru chain codec before none))
            hash).0
        × OfSome
            (λ x. chain.number x ≡ n)
            (BlockCache.get_header_by_number lru chain
              (session_cache lru chain codec session (file_after lru chain codec before none))
              n).0
        × OfSome
            (Q hash)
            (BlockCache.get_body_by_hash lru chain
              (session_cache lru chain codec session (file_after lru chain codec before none))
              hash).0
  session_cache-reads before session hash n all sound =
      let (ops, s, e) =
        session_cache-run lru laws chain codec codec_laws short P Q session _ sound
          (file_after-IsSaved lru laws chain codec codec_laws short P Q before none all unsaved) in
      rw e (run-reads lru laws chain P Q session.config.block_cache_size ops hash n s)
