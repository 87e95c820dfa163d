-- ===== src/EthProxy.antt =====
-- src/eth_proxy.rs: the handler of ETH requests. A request is answered from the cache, or the handler
-- awaits a fetch from a peer and goes on with what came, on a cache that other tasks may have changed.
pub mod Headers
pub mod Bound
pub mod Bodies
pub mod Front
pub mod Combine
pub mod Replies
pub mod Misplaced
pub mod Single
pub mod Kinds
pub mod Calls
pub mod Alone
pub mod Skip
pub mod Effects
pub mod Work
use reth_sentry_node.Prelude.{
  ℕ, zero, suc, ◌+◌, ◌-◌, Bool, true, false, ◌&&◌, Option, none, some, is_none, List, [], ◌∷◌,
  length, ltb, leb, ◌==◌, if◌then◌else◌, u64_mod,
}
use reth_sentry_node.Chain.{Chain}
use reth_sentry_node.Lru.{LruCrate}
use reth_sentry_node.BlockCache.{
  BlockCache, insert_header, insert_body, get_header_by_hash, get_header_by_number,
  get_body_by_hash,
}

pub data Direction : Type 0 where
  rising falling : Direction

-- `checked_add` and `checked_sub` of u64.
unfoldable pub checked_add : ℕ → ℕ → Option ℕ
checked_add a b = if ltb (a + b) u64_mod then some (a + b) else none

unfoldable pub checked_sub : ℕ → ℕ → Option ℕ
checked_sub a b = if leb b a then some (a - b) else none

-- The next block number of a walk, if it is a u64.
unfoldable pub advance : Direction → ℕ → ℕ → Option ℕ
unfolding checked_add checked_sub
advance rising num step = checked_add num step
advance falling num step = checked_sub num step

module _ (chain : Chain) where
  open chain use {B256, Header, BlockBody}

  pub data BlockHashOrNumber : Type 0 where
    by_hash : B256 → BlockHashOrNumber
    by_number : ℕ → BlockHashOrNumber

  pub record GetBlockHeaders : Type 0 where
    pub start_block : BlockHashOrNumber
    pub limit : ℕ
    pub skip : ℕ
    pub direction : Direction

  -- What is asked of a peer.
  pub record HeadersRequest : Type 0 where
    pub start : BlockHashOrNumber
    pub limit : ℕ
    pub direction : Direction

  pub data Request : Type 0 where
    block_headers : GetBlockHeaders → Request
    block_bodies : List B256 → Request
    node_data receipts receipts69 receipts70 block_access_lists : Request

  -- The replies to the last four requests are empty.
  pub data Reply : Type 0 where
    headers : List Header → Reply
    bodies : List BlockBody → Reply
    no_receipts no_receipts69 : Reply
    no_receipts70 : (last_block_incomplete : Bool) → Reply
    no_access_lists : Reply

  -- Where a handler is after its work on the cache: at its end, or at an await.
  pub data Phase : Type 0 where
    done : Option Reply → Phase
    fetch_headers : HeadersRequest → Phase
    fetch_bodies : (requested : List B256) (found : List BlockBody) (missing : List B256) → Phase

  -- The peers: what a fetch of headers or of bodies returns, none if it fails.
  pub record FetchClient : Type 0 where
    pub get_headers : HeadersRequest → Option (List Header)
    pub get_block_bodies : List B256 → Option (List BlockBody)

module _ (lru : LruCrate) (chain : Chain) where
  open chain use {B256, b256_eq, Header, number, hash_slow, BlockBody}

  abbrev Cache : Type 0
  Cache = BlockCache lru chain

  -- The loop of `resolve_headers_from_cache`, with the rounds left.
  unfoldable pub walk_cache : ℕ → Direction → ℕ → Option ℕ → Cache → List Header × Cache
  walk_cache zero dir step current c = ([], c)
  walk_cache (suc rounds) dir step none c = ([], c)
  walk_cache (suc rounds) dir step (some num) c =
      let (found, c') = get_header_by_number lru chain c num in
      elim found [
        | none ↦ ([], c')
        | some header ↦
            let (rest, c'') = walk_cache rounds dir step (advance dir num step) c' in
            (header ∷ rest, c'')
      ]

  unfoldable pub start_number : Cache → BlockHashOrNumber chain → Option ℕ × Cache
  start_number c (by_number n) = (some n, c)
  start_number c (by_hash h) =
      let (found, c') = get_header_by_hash lru chain c h in
      (elim found [ none ↦ none | some header ↦ some (number header) ], c')

  unfoldable pub resolve_headers_from_cache : Cache → GetBlockHeaders chain → List Header × Cache
  resolve_headers_from_cache c request =
      let (current, c') = start_number c request.start_block in
      walk_cache request.limit request.direction (request.skip + 1) current c'

  unfoldable pub resolve_bodies_from_cache : Cache → List B256 → List BlockBody × Cache
  resolve_bodies_from_cache c [] = ([], c)
  resolve_bodies_from_cache c (h ∷ hs) =
      let (found, c') = get_body_by_hash lru chain c h in
      let (rest, c'') = resolve_bodies_from_cache c' hs in
      (elim found [ none ↦ rest | some body ↦ body ∷ rest ], c'')

  -- The filter that collects `missing_hashes`.
  unfoldable pub missing_hashes : Cache → List B256 → List B256 × Cache
  missing_hashes c [] = ([], c)
  missing_hashes c (h ∷ hs) =
      let (found, c') = get_body_by_hash lru chain c h in
      let (rest, c'') = missing_hashes c' hs in (if is_none found then h ∷ rest else rest, c'')

  -- The loop that caches fetched headers under their own hashes.
  unfoldable pub cache_headers : Cache → List Header → Cache
  cache_headers c [] = c
  cache_headers c (x ∷ xs) = cache_headers (insert_header lru chain c (hash_slow x) x) xs

  -- The loop that builds `all_bodies` from the cache and the fetched bodies.
  unfoldable pub combine_bodies : Cache → List B256 → List BlockBody → List BlockBody × Cache
  combine_bodies c [] fetched = ([], c)
  combine_bodies c (h ∷ hs) fetched =
      let (found, c') = get_body_by_hash lru chain c h in
      elim found [
        | some body ↦ let (rest, c'') = combine_bodies c' hs fetched in (body ∷ rest, c'')
        | none ↦ elim fetched [
          | [] ↦ combine_bodies c' hs []
          | body ∷ later ↦
              let (rest, c'') = combine_bodies (insert_body lru chain c' h body) hs later in
              (body ∷ rest, c'')
        ]
      ]

  -- The handler after `resolve_headers_from_cache`: it replies with what was found, or awaits a fetch.
  unfoldable pub await_headers : GetBlockHeaders chain → List Header → Phase chain
  await_headers request [] =
      fetch_headers (record {
        start = request.start_block;
        limit = request.limit;
        direction = request.direction;
      })
  await_headers request (x ∷ xs) = done (some (headers (x ∷ xs)))

  -- The handler after `missing_hashes`: with none missing it replies, else it awaits a fetch.
  unfoldable pub await_missing : List B256 → List BlockBody → List B256 → Phase chain
  await_missing requested found [] = done (some (bodies found))
  await_missing requested found (h ∷ hs) = fetch_bodies requested found (h ∷ hs)

  -- The handler up to its end or its await.
  unfoldable pub start : Cache → Request chain → Phase chain × Cache
  start c (block_headers request) =
      let (found, c') = resolve_headers_from_cache c request in (await_headers request found, c')
  start c (block_bodies hashes) =
      let (found, c') = resolve_bodies_from_cache c hashes in
      if length found == length hashes && ltb 0 (length hashes)
      then (done (some (bodies found)), c')
      else (let (missing, c'') = missing_hashes c' hashes in
          (await_missing hashes found missing, c''))
  start c node_data = (done none, c)
  start c receipts = (done (some no_receipts), c)
  start c receipts69 = (done (some no_receipts69), c)
  start c receipts70 = (done (some (no_receipts70 false)), c)
  start c block_access_lists = (done (some no_access_lists), c)

  -- The handler after the await of headers; `none` is a failed fetch.
  unfoldable pub finish_headers : Cache → Option (List Header) → Reply chain × Cache
  finish_headers c none = (headers [], c)
  finish_headers c (some fetched) = (headers fetched, cache_headers c fetched)

  -- The handler after the await of bodies.
  unfoldable pub finish_bodies :
      Cache → List B256 → List BlockBody → Option (List BlockBody) → Reply chain × Cache
  finish_bodies c requested found none = (bodies found, c)
  finish_bodies c requested found (some fetched) =
      let (all_bodies, c') = combine_bodies c requested fetched in (bodies all_bodies, c')

  -- The handler from its end or await on, where no other task changes the cache during the await.
  unfoldable pub resume : FetchClient chain → Phase chain → Cache → Option (Reply chain) × Cache
  resume client (done reply) c = (reply, c)
  resume client (fetch_headers asked) c =
      let (reply, c') = finish_headers c (client.get_headers asked) in (some reply, c')
  resume client (fetch_bodies requested found missing) c =
      let (reply, c') = finish_bodies c requested found (client.get_block_bodies missing) in
      (some reply, c')

  -- The handler from end to end.
  unfoldable pub handle : FetchClient chain → Cache → Request chain → Option (Reply chain) × Cache
  handle client c request = let (phase, c') = start c request in resume client phase c'
