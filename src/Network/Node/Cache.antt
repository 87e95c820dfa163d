-- ===== src/Network/Node/Cache.antt =====
-- src/block_cache.rs under src/block_import.rs and src/eth_proxy.rs: what the shared cache holds, whatever
-- the tasks do and the peers answer.
use reth_sentry_node.Prelude.{
  ℕ, ◌≡◌, refl, sym, ◌∙◌, Option, none, some, List, ◌++◌, All, OfSome, if◌then◌else◌, ◌==◌,
  All-append, All-last,
}
use reth_sentry_node.Chain.{Chain}
use reth_sentry_node.Lru.{LruCrate, IsLawful}
use reth_sentry_node.BlockCache
use reth_sentry_node.BlockCache.{BlockCache, new}
use reth_sentry_node.BlockCache.Ops.{Op, insert, apply, run, run-append, IsBounded, run-IsBounded}
use reth_sentry_node.BlockCache.Coherence.{run-reads}
use reth_sentry_node.BlockImport.{
  NewBlockData, NewBlockEvent, new_block, new_block_hashes, on_new_block,
}
use reth_sentry_node.EthProxy.Effects.{
  IsSoundOp, IsRun, IsRun-refl, IsRun-apply, IsRun-trans, cache_step-IsRun,
}
use reth_sentry_node.Network.{rebroadcast}
use reth_sentry_node.Network.Node.{
  Node, cache_of, announce, relay, call_cache, Input, announced, relayed, requested, headers_sent,
  bodies_sent, nothing, Step, announcement, rebroadcasting, shutdown, request, cache_call, reply,
  headers_answer, bodies_answer, Reach, here, next, begun,
}

module _ (lru : LruCrate) (chain : Chain) (PeerId : Type 0)
    (P : chain.B256 → chain.Header → Type 0) where
  -- A block is announced under a hash that belongs to its header.
  abbrev pub IsSoundInput : Input lru chain PeerId → Type 0
  IsSoundInput (announced (new_block msg)) = P msg.hash msg.block.header
  IsSoundInput (announced (new_block_hashes hashes)) = Unit
  IsSoundInput (relayed block peers) = Unit
  IsSoundInput (requested asked) = Unit
  IsSoundInput (headers_sent fetched) = Unit
  IsSoundInput (bodies_sent fetched) = Unit
  IsSoundInput nothing = Unit

  rebroadcast-cache :
      (node : Node lru chain PeerId) (block : NewBlockData chain) (rest : List (NewBlockData chain))
      (peers : Option (List PeerId))
      → cache_of lru chain PeerId (relay lru chain PeerId node block rest peers)
        ≡ cache_of lru chain PeerId node
  unfolding relay rebroadcast
  rebroadcast-cache node block rest none = refl
  rebroadcast-cache node block rest (some peers) = refl

  announce-IsRun :
      (node : Node lru chain PeerId) (event : NewBlockEvent chain)
      → IsSoundInput (announced event)
      → IsRun lru chain P
          (cache_of lru chain PeerId node)
          (cache_of lru chain PeerId (announce lru chain PeerId node event))
  unfolding announce on_new_block apply
  announce-IsRun node (new_block_hashes hashes) s =
      IsRun-refl lru chain P (cache_of lru chain PeerId node)
  announce-IsRun node (new_block msg) s =
      IsRun-apply lru chain P (cache_of lru chain PeerId node)
        (insert msg.hash msg.block.header msg.block.body) (s, tt)

  module _ (own : (x : chain.Header) → P (chain.hash_slow x) x) where
    Step-IsRun :
        {input : Input lru chain PeerId} {node node' : Node lru chain PeerId}
        → Step lru chain PeerId node input node'
        → IsSoundInput input
        → IsRun lru chain P (cache_of lru chain PeerId node) (cache_of lru chain PeerId node')
    unfolding call_cache
    Step-IsRun (announcement node event) s = announce-IsRun node event s
    Step-IsRun (rebroadcasting node block rest peers on e) s =
        rw (rebroadcast-cache node block rest peers)
          (IsRun-refl lru chain P (cache_of lru chain PeerId node))
    Step-IsRun (shutdown node) s = IsRun-refl lru chain P (cache_of lru chain PeerId node)
    Step-IsRun (request node asked idle) s = IsRun-refl lru chain P (cache_of lru chain PeerId node)
    Step-IsRun (cache_call node work e) s =
        cache_step-IsRun lru chain P own work (cache_of lru chain PeerId node)
    Step-IsRun (reply node sent e) s = IsRun-refl lru chain P (cache_of lru chain PeerId node)
    Step-IsRun (headers_answer node asked fetched e) s =
        IsRun-refl lru chain P (cache_of lru chain PeerId node)
    Step-IsRun (bodies_answer node hashes found missing fetched e) s =
        IsRun-refl lru chain P (cache_of lru chain PeerId node)

    pub Reach-IsRun :
        (c : BlockCache lru chain) {inputs : List (Input lru chain PeerId)}
        {node : Node lru chain PeerId}
        → Reach lru chain PeerId (begun lru chain PeerId c) inputs node
        → All IsSoundInput inputs
        → IsRun lru chain P c (cache_of lru chain PeerId node)
    Reach-IsRun c here s = IsRun-refl lru chain P c
    Reach-IsRun c (next {inputs} {input} before step) s =
        let (all, last) = All-last IsSoundInput inputs input s in
        IsRun-trans lru chain P (Reach-IsRun c before all) (Step-IsRun step last)

    module _ (laws : IsLawful lru) where
      -- For a predicate `P` that holds of each header with its own hash, over an LRU cache with its laws:
      -- in any interleaving of announcements, rebroadcast rounds, a shutdown, requests, the single cache
      -- calls of the request handler, what peers send and replies, from the start of the node over a new cache after operations that insert headers with
      -- `P` only, with blocks announced under hashes with `P` only, and whatever the peers answer: a
      -- header read by its hash has `P` with it, a header read by a number has that number, and none of
      -- the four caches exceeds the capacity, 256 for a capacity of 0.
      pub Reach-reads :
          (capacity : ℕ) (ops : List (Op chain)) {inputs : List (Input lru chain PeerId)}
          {node : Node lru chain PeerId} (hash : chain.B256) (n : ℕ)
          → All (IsSoundOp lru chain P) ops
          → Reach lru chain PeerId
              (begun lru chain PeerId (run lru chain (new lru chain capacity) ops))
              inputs
              node
          → All IsSoundInput inputs
          → OfSome
              (P hash)
              (BlockCache.get_header_by_hash lru chain (cache_of lru chain PeerId node) hash).0
            × OfSome
                (λ x. chain.number x ≡ n)
                (BlockCache.get_header_by_number lru chain (cache_of lru chain PeerId node) n).0
            × IsBounded lru chain
                (if capacity == 0 then 256 else capacity)
                (cache_of lru chain PeerId node)
      Reach-reads capacity ops hash n sound reach inputs =
          let c = new lru chain capacity in
          let r = Reach-IsRun (run lru chain c ops) reach inputs in
          let all = All-append (IsSoundOp lru chain P) ops r.ops sound r.sound in
          let reads =
            run-reads lru laws chain P (λ h b. Unit {0}) capacity (ops ++ r.ops) hash n all in
          rw (r.same ∙ sym (run-append lru chain c ops r.ops))
            (reads.0, reads.1, run-IsBounded lru laws chain capacity (ops ++ r.ops))
