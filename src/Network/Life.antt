-- ===== src/Network/Life.antt =====
-- src/network.rs: the node over its restarts, from start to end of `start_sentry_network`.
use mathlib.Core.Path.{subst}
use reth_sentry_node.Prelude.{
  ℕ, ◌^◌, ◌<◌, ◌≡◌, sym, ap, ◌∙◌, Option, none, List, [], ◌∷◌, ◌++◌, All, All-append, All-last,
  OfSome, ok, err, if◌then◌else◌, ◌==◌,
}
use reth_sentry_node.Chain.{Chain}
use reth_sentry_node.Lru.{LruCrate, IsLawful}
use reth_sentry_node.BlockCache
use reth_sentry_node.BlockCache.{BlockCache, new, latest}
use reth_sentry_node.BlockCache.Ops.{Op, run, run-append, IsBounded, run-IsBounded}
use reth_sentry_node.BlockCache.Coherence.{IsSound, run-reads}
use reth_sentry_node.BlockCache.File.{Codec, IsCodec, save_to_file}
use reth_sentry_node.Network.{SentryNetworkConfig}
use reth_sentry_node.Network.Node.{Node, Input, Reach, begun, cache_of}
use reth_sentry_node.Network.Node.Cache.{IsSoundInput, Reach-IsRun}
use reth_sentry_node.Network.Sessions.{
  Ending, write_file, HasShortEncodings, IsSaved, unsaved, restore_cache-run, write_file-IsSaved,
}
use reth_sentry_node.Network.Launch.{
  Answers, NetworkError, Launch, start_network, stop_network, start_network-cache,
}

module _ (lru : LruCrate) (chain : Chain) (codec : Codec chain) (PeerId SecretKey : Type 0) where
  -- A run of the node that came up: its configuration, and what its tasks took in.
  abbrev pub Run : Type 0
  Run = SentryNetworkConfig × List (Input lru chain PeerId)

  -- The file after runs of the node one after the other, each from its start to its end.
  pub data Life : List Run → Option (List ℕ) → Type 0 where
    unborn : Life [] none
    not_started :
        {runs : List Run} {file : Option (List ℕ)}
        → Life runs file
        → (answers : Answers) (config : SentryNetworkConfig) (key : SecretKey) (now : ℕ)
          (genesis : chain.B256) (e : NetworkError)
        → start_network lru chain codec answers config key file now genesis ≡ err e
        → Life runs file
    lived :
        {runs : List Run} {file : Option (List ℕ)} {inputs : List (Input lru chain PeerId)}
        {node : Node lru chain PeerId}
        → Life runs file
        → (answers : Answers) (config : SentryNetworkConfig) (key : SecretKey) (now : ℕ)
          (genesis : chain.B256) (l : Launch lru chain SecretKey)
        → start_network lru chain codec answers config key file now genesis ≡ ok l
        → Reach lru chain PeerId (begun lru chain PeerId l.cache) inputs node
        → (ending : Ending)
        → Life
            (runs ++ ((config, inputs) ∷ []))
            (stop_network lru chain codec answers ending (cache_of lru chain PeerId node) file).1

  module _ (P : chain.B256 → chain.Header → Type 0) where
    -- A cache size in u32, and blocks announced under hashes with `P` only.
    abbrev pub IsSoundRun : Run → Type 0
    IsSoundRun (config, inputs) =
        (config.block_cache_size < 2 ^ 32) × All (IsSoundInput lru chain PeerId P) inputs

    abbrev AnyBody : chain.B256 → chain.BlockBody → Type 0
    AnyBody hash body = Unit

    module _ (own : (x : chain.Header) → P (chain.hash_slow x) x) (laws : IsLawful lru)
        (codec_laws : IsCodec codec) (short : HasShortEncodings lru chain codec) where
      -- The cache of a node that came up over a saved file is a new one after sound operations.
      node-run :
          (answers : Answers) (config : SentryNetworkConfig) (key : SecretKey)
          (file : Option (List ℕ)) (now : ℕ) (genesis : chain.B256) (l : Launch lru chain SecretKey)
          {inputs : List (Input lru chain PeerId)} {node : Node lru chain PeerId}
          → IsSaved lru laws chain codec codec_laws short P AnyBody file
          → start_network lru chain codec answers config key file now genesis ≡ ok l
          → Reach lru chain PeerId (begun lru chain PeerId l.cache) inputs node
          → All (IsSoundInput lru chain PeerId P) inputs
          → (ops : List (Op chain)) × All (IsSound lru chain P AnyBody) ops
            × (cache_of lru chain PeerId node
                ≡ run lru chain (new lru chain config.block_cache_size) ops)
      node-run answers config key file now genesis l kept e reach sound =
          let (ops, s, restored) =
            restore_cache-run lru laws chain codec codec_laws short P AnyBody config file kept in
          let r = Reach-IsRun lru chain PeerId P own l.cache reach sound in
          (
            ops ++ r.ops,
            All-append (IsSound lru chain P AnyBody) ops r.ops s r.sound,
            r.same
                ∙ ap (λ c. run lru chain c r.ops)
                    (sym (start_network-cache lru chain codec answers config key file now genesis e)
                      ∙ restored)
                ∙ sym (run-append lru chain (new lru chain config.block_cache_size) ops r.ops),
          )

      Life-IsSaved :
          {runs : List Run} {file : Option (List ℕ)}
          → Life runs file
          → All IsSoundRun runs
          → IsSaved lru laws chain codec codec_laws short P AnyBody file
      unfolding stop_network
      Life-IsSaved unborn a = unsaved
      Life-IsSaved (not_started before answers config key now genesis e refused) a =
          Life-IsSaved before a
      Life-IsSaved
            (lived {runs} {file} {inputs} {node} before answers config key now genesis l up reach
              ending)
            a =
          let (all, last) = All-last IsSoundRun runs (config, inputs) a in
          let kept = Life-IsSaved before all in
          let (ops, s, e) = node-run answers config key file now genesis l kept up reach last.1 in
          subst
            (λ c.
              IsSaved lru laws chain codec codec_laws short P AnyBody
                (write_file ending (save_to_file lru chain codec c) file))
            (sym e)
            (write_file-IsSaved lru laws chain codec codec_laws short P AnyBody ending
              config.block_cache_size ops file last.0 s kept)

      -- For a predicate `P` that holds of each header with its own hash, an LRU cache and a codec with their
      -- laws, and short encodings: over any number of runs of the node from a first one without a file, that
      -- come up or not, with any steps of other tasks between two cache calls of the request handler, any
      -- answers of peers, and files that are written, cut off or not written at the end, and in the course
      -- of one more run that came up, each with a cache size below 2^32 and with blocks announced under hashes with `P` only: a header read by
      -- its hash has `P` with it, a header read by a number has that number, and none of the four caches
      -- exceeds the cache size, 256 for a size of 0.
      pub Life-reads :
          {runs : List Run} {file : Option (List ℕ)} (answers : Answers)
          (config : SentryNetworkConfig) (key : SecretKey) (now : ℕ) (genesis : chain.B256)
          (l : Launch lru chain SecretKey) {inputs : List (Input lru chain PeerId)}
          {node : Node lru chain PeerId} (hash : chain.B256) (n : ℕ)
          → Life runs file
          → All IsSoundRun runs
          → start_network lru chain codec answers config key file now genesis ≡ ok l
          → Reach lru chain PeerId (begun lru chain PeerId l.cache) inputs node
          → IsSoundRun (config, inputs)
          → OfSome
              (P hash)
              (BlockCache.get_header_by_hash lru chain (cache_of lru chain PeerId node) hash).0
            × OfSome
                (λ x. chain.number x ≡ n)
                (BlockCache.get_header_by_number lru chain (cache_of lru chain PeerId node) n).0
            × IsBounded lru chain
                (if config.block_cache_size == 0 then 256 else config.block_cache_size)
                (cache_of lru chain PeerId node)
      Life-reads {runs} {file} answers config key now genesis l hash n life all up reach sound =
          let kept = Life-IsSaved life all in
          let (ops, s, e) = node-run answers config key file now genesis l kept up reach sound.1 in
          let reads = run-reads lru laws chain P AnyBody config.block_cache_size ops hash n s in
          rw e (reads.0, reads.1, run-IsBounded lru laws chain config.block_cache_size ops)
