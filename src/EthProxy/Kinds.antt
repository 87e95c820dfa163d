-- ===== src/EthProxy/Kinds.antt =====
-- src/eth_proxy.rs: what the handler may reply to a request, with what a peer sent for it, and what it
-- may be at on the way there, whatever other tasks do between its cache calls.
use reth_sentry_node.Prelude.{
  min, ℕ, ◌+◌, ◌≤◌, ◌<◌, ◌≡◌, false, Option, none, some, List, [], ◌∷◌, ◌++◌, length,
}
use reth_sentry_node.Chain.{Chain}
use reth_sentry_node.Lru.{LruCrate}
use reth_sentry_node.EthProxy.{
  BlockHashOrNumber, by_hash, by_number, GetBlockHeaders, Request, block_headers, block_bodies,
  node_data, receipts, receipts69, receipts70, block_access_lists, Reply, headers, bodies,
  no_receipts, no_receipts69, no_receipts70, no_access_lists, done, fetch_headers, fetch_bodies,
  advance,
}
use reth_sentry_node.EthProxy.Work.{
  Work, at, starting, walking, caching, resolving, filtering, combining, inserting,
}

module _ (chain : Chain) (P : chain.B256 → chain.Header → Type 0) where
  open chain use {B256, Header, number, BlockBody}

  -- What a peer sent for a request: it was not asked, or sent headers or bodies, none for a failed fetch.
  pub data Answer : Type 0 where
    unasked : Answer
    headers_got : Option (List Header) → Answer
    bodies_got : Option (List BlockBody) → Answer

  -- Where the walk of a request may start: at its number, or at that of a header with `P` for its hash.
  abbrev pub IsFirst : BlockHashOrNumber chain → Option ℕ → Type 0
  IsFirst (by_number n) current = current ≡ some n
  IsFirst (by_hash h) none = Unit
  IsFirst (by_hash h) (some n) = (x : Header) × P h x × (number x ≡ n)

  -- The headers found for a request so far, and the number of the next: each has the number that its round
  -- asks for, the next one lies `skip + 1` further in the request's direction.
  pub data Walked (request : GetBlockHeaders chain) : List Header → Option ℕ → Type 0 where
    first : (current : Option ℕ) → IsFirst request.start_block current → Walked request [] current
    further :
        {found : List Header} {n : ℕ} (x : Header)
        → Walked request found (some n)
        → number x ≡ n
        → Walked request (found ++ (x ∷ [])) (advance request.direction n (request.skip + 1))

  -- What may come of a request: from the cache, at least one header of its walk and within its limit; else
  -- the headers as the peer sent them, no header if it failed; at most one body for each hash, and, up to
  -- that, at least as many as the peer sent; an empty
  -- reply to the requests that the node does not serve, and none to one of node data.
  pub data IsReplyTo : Request chain → Answer → Option (Reply chain) → Type 0 where
    headers_from_cache :
        (request : GetBlockHeaders chain) (found : List Header) {current : Option ℕ}
        → 0 < length found
        → length found ≤ request.limit
        → Walked request found current
        → IsReplyTo (block_headers request) unasked (some (headers found))
    headers_from_peer :
        (request : GetBlockHeaders chain) (sent : List Header)
        → IsReplyTo (block_headers request) (headers_got (some sent)) (some (headers sent))
    headers_failed :
        (request : GetBlockHeaders chain)
        → IsReplyTo (block_headers request) (headers_got none) (some (headers []))
    bodies_from_cache :
        (hashes : List B256) (found : List BlockBody)
        → length found ≤ length hashes
        → IsReplyTo (block_bodies hashes) unasked (some (bodies found))
    bodies_with_peer :
        (hashes : List B256) (sent found : List BlockBody)
        → length found ≤ length hashes
        → min (length hashes) (length sent) ≤ length found
        → IsReplyTo (block_bodies hashes) (bodies_got (some sent)) (some (bodies found))
    bodies_failed :
        (hashes : List B256) (found : List BlockBody)
        → length found ≤ length hashes
        → IsReplyTo (block_bodies hashes) (bodies_got none) (some (bodies found))
    of_node_data : IsReplyTo node_data unasked none
    of_receipts : IsReplyTo receipts unasked (some no_receipts)
    of_receipts69 : IsReplyTo receipts69 unasked (some no_receipts69)
    of_receipts70 : IsReplyTo receipts70 unasked (some (no_receipts70 false))
    of_access_lists : IsReplyTo block_access_lists unasked (some no_access_lists)

module _ (lru : LruCrate) (chain : Chain) (P : chain.B256 → chain.Header → Type 0) where
  open chain use {B256, Header, number, BlockBody}

  -- Where the handler may be in a request, with what a peer sent for it. What it awaits was asked for with
  -- the request's start, limit and direction, or is about its hashes.
  abbrev pub IsWorkOf : Work lru chain → Request chain → Answer chain P → Type 0
  IsWorkOf (at (done reply)) asked answer = IsReplyTo chain P asked answer reply
  IsWorkOf (at (fetch_headers fetch)) asked answer =
      (r : GetBlockHeaders chain) × (asked ≡ block_headers r)
      × (answer ≡ unasked)
      × (fetch.start ≡ r.start_block)
      × (fetch.limit ≡ r.limit)
      × (fetch.direction ≡ r.direction)
  IsWorkOf (at (fetch_bodies requested found missing)) asked answer =
      (asked ≡ block_bodies requested) × (answer ≡ unasked) × (length found ≤ length requested)
  IsWorkOf (starting r) asked answer = (asked ≡ block_headers r) × (answer ≡ unasked)
  IsWorkOf (walking r rounds current found) asked answer =
      (asked ≡ block_headers r)
      × (answer ≡ unasked)
      × (length found + rounds ≤ r.limit)
      × Walked chain P r found current
  IsWorkOf (caching reply left) asked answer =
      (r : GetBlockHeaders chain) × (asked ≡ block_headers r) × (answer ≡ headers_got (some reply))
  IsWorkOf (resolving requested left found) asked answer =
      (asked ≡ block_bodies requested)
      × (answer ≡ unasked)
      × (length found + length left ≤ length requested)
  IsWorkOf (filtering requested found left missing) asked answer =
      (asked ≡ block_bodies requested) × (answer ≡ unasked) × (length found ≤ length requested)
  IsWorkOf (combining left fetched all_bodies) asked answer =
      (requested : List B256) × (sent : List BlockBody) × (asked ≡ block_bodies requested)
      × (answer ≡ bodies_got (some sent))
      × (length all_bodies + length left ≤ length requested)
      × (min (length requested) (length sent)
          ≤ length all_bodies + min (length left) (length fetched))
  IsWorkOf (inserting hash body left fetched all_bodies) asked answer =
      (requested : List B256) × (sent : List BlockBody) × (asked ≡ block_bodies requested)
      × (answer ≡ bodies_got (some sent))
      × (length all_bodies + 1 + length left ≤ length requested)
      × (min (length requested) (length sent)
          ≤ length all_bodies + 1 + min (length left) (length fetched))
