-- ===== src/Network/Node.antt =====
-- src/network.rs with src/block_import.rs and src/eth_proxy.rs: the tasks that share the block cache, in
-- any interleaving: the import of announced blocks, their rebroadcast, and the request handler, which
-- serves one request at a time. The tasks run on several threads, and the cache's lock is held for one
-- call only, so the others run between any two cache calls of the handler and while it awaits a peer.
pub mod Relay
pub mod Cache
pub mod Replies
use reth_sentry_node.Prelude.{◌≡◌, Bool, true, false, Option, none, some, List, [], ◌∷◌, ◌++◌}
use reth_sentry_node.Chain.{Chain}
use reth_sentry_node.Lru.{LruCrate}
use reth_sentry_node.BlockCache.{BlockCache}
use reth_sentry_node.BlockImport.{NewBlockData, NewBlockEvent, CachingBlockImport, on_new_block}
use reth_sentry_node.EthProxy.{HeadersRequest, Request, Reply, done, fetch_headers, fetch_bodies}
use reth_sentry_node.EthProxy.Work.{Work, at, begin_work, take_headers, take_bodies, cache_step}
use reth_sentry_node.Network.{Network, rebroadcast}

module _ (lru : LruCrate) (chain : Chain) (PeerId : Type 0) where
  -- The import and the rebroadcast task, where the request handler is in the request that it serves, and
  -- its replies in order; a request that is ignored has none.
  pub record Node : Type 0 where
    pub network : Network lru chain PeerId
    pub handler : Option (Work lru chain)
    pub replies : List (Option (Reply chain))

module _ (lru : LruCrate) (chain : Chain) (PeerId : Type 0) where
  open chain use {B256, Header, BlockBody}

  abbrev State : Type 0
  State = Node lru chain PeerId

  abbrev pub cache_of : State → BlockCache lru chain
  cache_of node = node.network.imports.cache

  abbrev pub with_cache : State → BlockCache lru chain → State
  with_cache node c = record node {
    network = record (node.network) { imports = record (node.network.imports) { cache = c } };
  }

  unfoldable pub announce : State → NewBlockEvent chain → State
  announce node event = record node {
    network = record (node.network) { imports = on_new_block lru chain node.network.imports event };
  }

  -- A round of the rebroadcast task, with the rest of its channel. It is one step, since no other task reads
  -- the status or the messages.
  unfoldable pub relay :
      State → NewBlockData chain → List (NewBlockData chain) → Option (List PeerId) → State
  relay node block rest peers =
      let net = record (node.network) {
        imports = record (node.network.imports) { rebroadcast = rest };
      } in
      record node { network = rebroadcast lru chain net block peers }

  -- The handler's next cache call.
  unfoldable pub call_cache : State → Work lru chain → State
  call_cache node work =
      let (work', c) = cache_step lru chain work (cache_of node) in
      record (with_cache node c) { handler = some work' }

  -- What a step takes in: an announcement, a block to rebroadcast with the peers at that time, a request,
  -- or what a peer sends for a fetch, none for a failed one.
  pub data Input : Type 0 where
    announced : NewBlockEvent chain → Input
    relayed : NewBlockData chain → Option (List PeerId) → Input
    requested : Request chain → Input
    headers_sent : Option (List Header) → Input
    bodies_sent : Option (List BlockBody) → Input
    nothing : Input

  -- One step of one of the tasks. A step of the handler makes one cache call at most, since another task
  -- can take the lock between two of them. The import's insertion and its send to the channel are one step:
  -- no task that uses the cache uses the channel. A peer's answer is whatever it sends.
  pub data Step : State → Input → State → Type 0 where
    announcement :
        (node : State) (event : NewBlockEvent chain)
        → Step node (announced event) (announce node event)
    rebroadcasting :
        (node : State) (block : NewBlockData chain) (rest : List (NewBlockData chain))
        (peers : Option (List PeerId))
        → node.network.stopped ≡ false
        → node.network.imports.rebroadcast ≡ block ∷ rest
        → Step node (relayed block peers) (relay node block rest peers)
    shutdown :
        (node : State)
        → Step node nothing (record node { network = record (node.network) { stopped = true } })
    request :
        (node : State) (asked : Request chain)
        → node.handler ≡ none
        → Step node (requested asked) (record node { handler = some (begin_work lru chain asked) })
    cache_call :
        (node : State) (work : Work lru chain)
        → node.handler ≡ some work
        → Step node nothing (call_cache node work)
    reply :
        (node : State) (sent : Option (Reply chain))
        → node.handler ≡ some (at (done sent))
        → Step node nothing (record node { handler = none; replies = node.replies ++ (sent ∷ []) })
    headers_answer :
        (node : State) (asked : HeadersRequest chain) (fetched : Option (List Header))
        → node.handler ≡ some (at (fetch_headers asked))
        → Step node
            (headers_sent fetched)
            (record node { handler = some (take_headers lru chain fetched) })
    bodies_answer :
        (node : State) (hashes : List B256) (found : List BlockBody) (missing : List B256)
        (fetched : Option (List BlockBody))
        → node.handler ≡ some (at (fetch_bodies hashes found missing))
        → Step node
            (bodies_sent fetched)
            (record node { handler = some (take_bodies lru chain hashes found fetched) })

  -- Any steps, with their inputs in order.
  pub data Reach (from : State) : List Input → State → Type 0 where
    here : Reach from [] from
    next :
        {inputs : List Input} {input : Input} {node node' : State}
        → Reach from inputs node
        → Step node input node'
        → Reach from (inputs ++ (input ∷ [])) node'

  -- The node at its start, over a restored cache.
  abbrev pub begun : BlockCache lru chain → State
  begun c = record {
    network = record {
      imports = record { cache = c; rebroadcast = [] };
      status = none;
      sent = [];
      stopped = false;
    };
    handler = none;
    replies = [];
  }
