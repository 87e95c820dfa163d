-- ===== src/Network/Node/Replies.antt =====
-- src/eth_proxy.rs among the other tasks: the replies, against the requests and what the peers sent.
use mathlib.Core.Path.{subst}
use reth_sentry_node.Prelude.{
  ◌≡◌, refl, sym, Option, none, some, List, [], ◌∷◌, ◌++◌, All, All-last, ℕ, OfSome-intro,
  OfSome-elim,
}
use reth_sentry_node.Chain.{Chain}
use reth_sentry_node.Lru.{LruCrate, IsLawful}
use reth_sentry_node.BlockCache.{new}
use reth_sentry_node.BlockCache.Ops.{Op, run}
use reth_sentry_node.EthProxy.{Request, Reply}
use reth_sentry_node.EthProxy.Effects.{IsSoundOp}
use reth_sentry_node.EthProxy.Work.{Work}
use reth_sentry_node.EthProxy.Kinds.{Answer, unasked, headers_got, bodies_got, IsReplyTo, IsWorkOf}
use reth_sentry_node.EthProxy.Calls.{
  ReadsOwn, begin_work-IsWorkOf, take_headers-IsWorkOf, take_bodies-IsWorkOf, cache_step-IsWorkOf,
}
use reth_sentry_node.Network.Node.Cache.{IsSoundInput, Reach-reads}
use reth_sentry_node.Network.Node.{
  Node, cache_of, announce, relay, call_cache, Input, announced, relayed, requested, headers_sent,
  bodies_sent, nothing, Step, announcement, rebroadcasting, shutdown, request, cache_call, reply,
  headers_answer, bodies_answer, Reach, here, next, begun,
}

module _ (lru : LruCrate) (chain : Chain) (PeerId : Type 0)
    (P : chain.B256 → chain.Header → Type 0) where
  -- A request with what a peer sent for it.
  abbrev Exchange : Type 0
  Exchange = Request chain × Answer chain P

  -- A request opens an exchange; what a peer sends belongs to the latest one.
  abbrev exchange : List Exchange → Input lru chain PeerId → List Exchange
  exchange es (requested asked) = (asked, unasked) ∷ es
  exchange [] (headers_sent sent) = []
  exchange ((asked, answer) ∷ es) (headers_sent sent) = (asked, headers_got sent) ∷ es
  exchange [] (bodies_sent sent) = []
  exchange ((asked, answer) ∷ es) (bodies_sent sent) = (asked, bodies_got sent) ∷ es
  exchange es (announced event) = es
  exchange es (relayed block peers) = es
  exchange es nothing = es

  -- The exchanges in some inputs after those of before, the latest first.
  abbrev pub exchanges : List Exchange → List (Input lru chain PeerId) → List Exchange
  exchanges es [] = es
  exchanges es (input ∷ inputs) = exchanges (exchange es input) inputs

  exchanges-snoc :
      (es : List Exchange) (inputs : List (Input lru chain PeerId)) (input : Input lru chain PeerId)
      → exchanges es (inputs ++ (input ∷ [])) ≡ exchange (exchanges es inputs) input
  exchanges-snoc es [] input = refl
  exchanges-snoc es (i ∷ inputs) input = exchanges-snoc (exchange es i) inputs input

  -- The replies are those to the exchanges, the last reply to the latest one; only the handler's own
  -- exchange has none yet.
  pub data IsServed
      : List Exchange → List (Option (Reply chain)) → Option (Work lru chain) → Type 0 where
    unserved : IsServed [] [] none
    served :
        {es : List Exchange} {replies : List (Option (Reply chain))} {asked : Request chain}
        {answer : Answer chain P} (sent : Option (Reply chain))
        → IsServed es replies none
        → IsReplyTo chain P asked answer sent
        → IsServed ((asked, answer) ∷ es) (replies ++ (sent ∷ [])) none
    serving :
        {es : List Exchange} {replies : List (Option (Reply chain))} {asked : Request chain}
        {answer : Answer chain P} {work : Work lru chain}
        → IsServed es replies none
        → IsWorkOf lru chain P work asked answer
        → IsServed ((asked, answer) ∷ es) replies (some work)

  -- The exchange that the handler is in.
  record Current (es : List Exchange) (replies : List (Option (Reply chain)))
      (work : Work lru chain) : Type 0 where
    asked : Request chain
    answer : Answer chain P
    before : List Exchange
    latest : es ≡ (asked, answer) ∷ before
    rest : IsServed before replies none
    within : IsWorkOf lru chain P work asked answer

  current :
      {es : List Exchange} {replies : List (Option (Reply chain))} {work : Work lru chain}
      → IsServed es replies (some work)
      → Current es replies work
  current (serving {es} {replies} {asked} {answer} before p) = record {
    asked = asked;
    answer = answer;
    before = es;
    latest = refl;
    rest = before;
    within = p;
  }

  Step-IsServed :
      (es : List Exchange) {input : Input lru chain PeerId} {node node' : Node lru chain PeerId}
      → Step lru chain PeerId node input node'
      → ReadsOwn lru chain P (cache_of lru chain PeerId node)
      → IsServed es node.replies node.handler
      → IsServed (exchange es input) node'.replies node'.handler
  unfolding announce relay call_cache
  Step-IsServed es (announcement node event) own i = i
  Step-IsServed es (rebroadcasting node block rest peers on e) own i = i
  Step-IsServed es (shutdown node) own i = i
  Step-IsServed es (request node asked idle) own i =
      serving (subst (IsServed es node.replies) idle i) (begin_work-IsWorkOf lru chain P asked)
  Step-IsServed es (cache_call node work e) own i =
      let now = current (subst (IsServed es node.replies) e i) in
      rw (now.latest) (
        serving now.rest (
          cache_step-IsWorkOf lru chain P work (cache_of lru chain PeerId node) now.asked now.answer
            own now.within))
  Step-IsServed es (reply node sent e) own i =
      let now = current (subst (IsServed es node.replies) e i) in
      rw (now.latest) (served sent now.rest now.within)
  Step-IsServed es (headers_answer node fetch fetched e) own i =
      let now = current (subst (IsServed es node.replies) e i) in
      let (r, asked, answer, start, limit, direction) = now.within in
      rw (now.latest, asked) (serving now.rest (take_headers-IsWorkOf lru chain P r fetched))
  Step-IsServed es (bodies_answer node hashes found missing fetched e) own i =
      let now = current (subst (IsServed es node.replies) e i) in
      let (asked, answer, few) = now.within in
      rw (now.latest, asked)
        (serving now.rest (take_bodies-IsWorkOf lru chain P hashes found fetched few))

  module _ (own : (x : chain.Header) → P (chain.hash_slow x) x) (laws : IsLawful lru) (capacity : ℕ)
      (ops : List (Op chain)) (sound : All (IsSoundOp lru chain P) ops) where
    Reach-ReadsOwn :
        {inputs : List (Input lru chain PeerId)} {node : Node lru chain PeerId}
        → Reach lru chain PeerId
            (begun lru chain PeerId (run lru chain (new lru chain capacity) ops))
            inputs
            node
        → All (IsSoundInput lru chain PeerId P) inputs
        → ReadsOwn lru chain P (cache_of lru chain PeerId node)
    Reach-ReadsOwn reach s = (
      (λ hash. (Reach-reads lru chain PeerId P own laws capacity ops hash 0 sound reach s).0),
      (λ n.
          OfSome-intro (λ x. chain.number x ≡ n) _
            (λ x e.
              OfSome-elim (λ y. chain.number y ≡ n) _
                (Reach-reads lru chain PeerId P own laws capacity ops (chain.hash_slow x) n sound
                  reach s).1
                e)),
    )

    -- For a predicate `P` that holds of each header with its own hash, over an LRU cache with its laws: in
    -- any interleaving of announcements, rebroadcast rounds, a shutdown, requests, the cache calls of the
    -- request handler, what peers send and replies, from the start of the node over a new cache after
    -- operations that insert headers with `P` only, with blocks announced under hashes with `P` only: the
    -- replies are those to the requests in their order, where only the last request may be without one
    -- yet. A request of headers that no peer was asked for is replied to with at least one header and at
    -- most its limit, which have the numbers of its walk: the first is the number that it starts at, or
    -- that of a header with `P` for the hash that it starts at, and each lies `skip + 1` from the one
    -- before in its direction. One for which a peer was asked is replied to with the headers that the peer
    -- sent, none if it failed. A request of bodies is replied to with one body for each hash at most, and up to
    -- that with as many at least as a peer sent for it; a
    -- request that the node does not serve with an empty reply, and one of node data with none.
    pub Reach-IsServed :
        {inputs : List (Input lru chain PeerId)} {node : Node lru chain PeerId}
        → Reach lru chain PeerId
            (begun lru chain PeerId (run lru chain (new lru chain capacity) ops))
            inputs
            node
        → All (IsSoundInput lru chain PeerId P) inputs
        → IsServed (exchanges [] inputs) node.replies node.handler
    Reach-IsServed here s = unserved
    Reach-IsServed (next {inputs} {input} {node} {node'} before step) s =
        let (all, last) = All-last (IsSoundInput lru chain PeerId P) inputs input s in
        subst (λ es. IsServed es node'.replies node'.handler) (sym (exchanges-snoc [] inputs input))
          (Step-IsServed (exchanges [] inputs) step (Reach-ReadsOwn before all)
            (Reach-IsServed before all))
