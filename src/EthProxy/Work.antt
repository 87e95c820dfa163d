-- ===== src/EthProxy/Work.antt =====
-- src/eth_proxy.rs: the handler of ETH requests one cache call at a time. Each call takes the cache's lock
-- by itself, so other tasks come between any two of them.
use reth_sentry_node.Prelude.{
  ℕ, zero, suc, ◌+◌, false, Option, none, some, is_none, List, [], ◌∷◌, ◌++◌, length, ltb, ◌==◌,
  ◌&&◌, if◌then◌else◌,
}
use reth_sentry_node.Chain.{Chain}
use reth_sentry_node.Lru.{LruCrate}
use reth_sentry_node.BlockCache.{
  BlockCache, insert_header, insert_body, get_header_by_number, get_body_by_hash,
}
use reth_sentry_node.EthProxy.{
  GetBlockHeaders, Request, block_headers, block_bodies, node_data, receipts, receipts69,
  receipts70, block_access_lists, headers, bodies, no_receipts, no_receipts69, no_receipts70,
  no_access_lists, Phase, done, advance, start_number, await_headers, await_missing,
}

module _ (lru : LruCrate) (chain : Chain) where
  open chain use {B256, Header, hash_slow, BlockBody}

  abbrev Cache : Type 0
  Cache = BlockCache lru chain

  -- Where the handler is between two cache calls, with its local variables: at its end or at an await, in
  -- the walk for headers, in the loop that caches fetched headers, in the loops that look up bodies and
  -- filter the missing ones, and in the loop that combines bodies, where the insertion is a call by itself.
  pub data Work : Type 0 where
    at : Phase chain → Work
    starting : GetBlockHeaders chain → Work
    walking : GetBlockHeaders chain → (rounds : ℕ) (current : Option ℕ) (found : List Header) → Work
    caching : (reply left : List Header) → Work
    resolving : (requested left : List B256) (found : List BlockBody) → Work
    filtering : (requested : List B256) (found : List BlockBody) (left missing : List B256) → Work
    combining : (left : List B256) (fetched all_bodies : List BlockBody) → Work
    inserting :
        (hash : B256) (body : BlockBody) (left : List B256) (fetched all_bodies : List BlockBody)
        → Work

  -- A request as it is taken.
  unfoldable pub begin_work : Request chain → Work
  begin_work (block_headers request) = starting request
  begin_work (block_bodies hashes) = resolving hashes hashes []
  begin_work node_data = at (done none)
  begin_work receipts = at (done (some no_receipts))
  begin_work receipts69 = at (done (some no_receipts69))
  begin_work receipts70 = at (done (some (no_receipts70 false)))
  begin_work block_access_lists = at (done (some no_access_lists))

  -- The handler with a peer's answer; `none` is a failed fetch.
  unfoldable pub take_headers : Option (List Header) → Work
  take_headers none = at (done (some (headers [])))
  take_headers (some fetched) = caching fetched fetched

  unfoldable pub take_bodies : List B256 → List BlockBody → Option (List BlockBody) → Work
  take_bodies requested found none = at (done (some (bodies found)))
  take_bodies requested found (some fetched) = combining requested fetched []

  -- A round of the walk, with the header that was read at `num`.
  unfoldable pub walk_on : GetBlockHeaders chain → ℕ → ℕ → List Header → Option Header → Work
  walk_on request rounds num found none = at (await_headers lru chain request found)
  walk_on request rounds num found (some header) =
      walking request rounds (advance request.direction num (request.skip + 1))
        (found ++ (header ∷ []))

  unfoldable pub found_body : Option BlockBody → List BlockBody
  found_body none = []
  found_body (some body) = body ∷ []

  -- A round of the loop that combines bodies, with the body that was read.
  unfoldable pub combine_on :
      B256 → List B256 → List BlockBody → List BlockBody → Option BlockBody → Work
  combine_on hash left fetched all_bodies (some body) =
      combining left fetched (all_bodies ++ (body ∷ []))
  combine_on hash left [] all_bodies none = combining left [] all_bodies
  combine_on hash left (body ∷ later) all_bodies none = inserting hash body left later all_bodies

  -- The handler up to the end of its next cache call; where a loop has ended, what follows it.
  unfoldable pub cache_step : Work → Cache → Work × Cache
  cache_step (at phase) c = (at phase, c)
  cache_step (starting request) c =
      let (current, c') = start_number lru chain c request.start_block in
      (walking request request.limit current [], c')
  cache_step (walking request zero current found) c =
      (at (await_headers lru chain request found), c)
  cache_step (walking request (suc rounds) none found) c =
      (at (await_headers lru chain request found), c)
  cache_step (walking request (suc rounds) (some num) found) c =
      let (read, c') = get_header_by_number lru chain c num in
      (walk_on request rounds num found read, c')
  cache_step (caching reply []) c = (at (done (some (headers reply))), c)
  cache_step (caching reply (x ∷ xs)) c =
      (caching reply xs, insert_header lru chain c (hash_slow x) x)
  cache_step (resolving requested [] found) c =
      if length found == length requested && ltb 0 (length requested)
      then (at (done (some (bodies found))), c)
      else (filtering requested found requested [], c)
  cache_step (resolving requested (h ∷ hs) found) c =
      let (read, c') = get_body_by_hash lru chain c h in
      (resolving requested hs (found ++ found_body read), c')
  cache_step (filtering requested found [] missing) c =
      (at (await_missing lru chain requested found missing), c)
  cache_step (filtering requested found (h ∷ hs) missing) c =
      let (read, c') = get_body_by_hash lru chain c h in
      (filtering requested found hs (missing ++ (if is_none read then h ∷ [] else [])), c')
  cache_step (combining [] fetched all_bodies) c = (at (done (some (bodies all_bodies))), c)
  cache_step (combining (h ∷ hs) fetched all_bodies) c =
      let (read, c') = get_body_by_hash lru chain c h in
      (combine_on h hs fetched all_bodies read, c')
  cache_step (inserting hash body left fetched all_bodies) c =
      (combining left fetched (all_bodies ++ (body ∷ [])), insert_body lru chain c hash body)
