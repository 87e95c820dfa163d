-- ===== src/EthProxy/Skip.antt =====
-- src/eth_proxy.rs: the replies to requests of headers, and what a fetch leaves out of the request.
use reth_sentry_node.Prelude.{
  ℕ, zero, suc, ◌+◌, ◌≡◌, refl, ap, ◌∙◌, Option, none, some, List, [], ◌∷◌, Option-cases, inl, inr,
}
use reth_sentry_node.Chain.{Chain}
use reth_sentry_node.Lru.{LruCrate, IsLawful}
use reth_sentry_node.BlockCache.{BlockCache, get_header_by_number}
use reth_sentry_node.EthProxy.{
  Direction, GetBlockHeaders, Phase, headers, block_headers, walk_cache, start_number,
  resolve_headers_from_cache, await_headers, start, resume, finish_headers, FetchClient, handle,
  advance,
}
use reth_sentry_node.EthProxy.Headers.{
  walk, header_of, first_number, resolve_headers_from_cache-walk,
}

-- What was fetched, where the cache had nothing; a failed fetch is no headers.
abbrev pub or_fetched : {H : Type 0} → List H → Option (List H) → List H
or_fetched [] none = []
or_fetched [] (some fetched) = fetched
or_fetched (x ∷ xs) fetched = x ∷ xs

module _ (lru : LruCrate) (chain : Chain) where
  open chain use {Header}

  module _ (dir : Direction) (a b : ℕ) where
    walk_cache_hit :
        (step rounds n : ℕ) (c : BlockCache lru chain) {x : Header}
        → (get_header_by_number lru chain c n).0 ≡ some x
        → (rest : List Header) × ((walk_cache lru chain (suc rounds) dir step (some n) c).0
            ≡ x ∷ rest)
    unfolding walk_cache
    walk_cache_hit step rounds n c {x} m =
        let next = (get_header_by_number lru chain c n).1 in
        (
          (walk_cache lru chain rounds dir step (advance dir n step) next).0,
          rw (m, walk_cache) refl,
        )

    walk_cache_missed :
        (rounds : ℕ) (current : Option ℕ) (c : BlockCache lru chain)
        → (walk_cache lru chain rounds dir a current c).0 ≡ []
        → walk_cache lru chain rounds dir b current c ≡ walk_cache lru chain rounds dir a current c
    unfolding walk_cache
    walk_cache_missed zero current c e = refl
    walk_cache_missed (suc rounds) none c e = refl
    walk_cache_missed (suc rounds) (some n) c e =
        elim (Option-cases (get_header_by_number lru chain c n).0) [
          | inl m ↦ rw (m, walk_cache) refl
          | inr (x, m) ↦ let (rest, hit) = walk_cache_hit a rounds n c m in cc
        ]

  -- A request that differs in `skip` alone.
  abbrev pub with_skip : GetBlockHeaders chain → ℕ → GetBlockHeaders chain
  with_skip request skip = record request { skip = skip }

  resolve_missed :
      (c : BlockCache lru chain) (request : GetBlockHeaders chain) (skip : ℕ)
      → (resolve_headers_from_cache lru chain c request).0 ≡ []
      → resolve_headers_from_cache lru chain c (with_skip request skip)
        ≡ resolve_headers_from_cache lru chain c request
  unfolding resolve_headers_from_cache
  resolve_missed c request skip e =
      let (current, c') = start_number lru chain c request.start_block in
      walk_cache_missed request.direction (request.skip + 1) (skip + 1) request.limit current c' e

  await_headers-skip :
      (request : GetBlockHeaders chain) (skip : ℕ) (l : List Header)
      → await_headers lru chain (with_skip request skip) l ≡ await_headers lru chain request l
  unfolding await_headers
  await_headers-skip request skip [] = refl
  await_headers-skip request skip (x ∷ xs) = refl

  start-with_skip :
      (c : BlockCache lru chain) (request : GetBlockHeaders chain) (skip : ℕ)
      → (resolve_headers_from_cache lru chain c request).0 ≡ []
      → start lru chain c (block_headers (with_skip request skip))
        ≡ start lru chain c (block_headers request)
  unfolding start
  start-with_skip c request skip e =
      let (l, c') = resolve_headers_from_cache lru chain c request in
      ap (λ p. (await_headers lru chain (with_skip request skip) p.0, p.1))
        (resolve_missed c request skip e)
      ∙ ap (λ (a : Phase chain). (a, c')) (await_headers-skip request skip l)

  -- For any request of headers of which the cache resolves none: what is fetched and the reply are the
  -- same for every `skip`, so a peer that asks for each n-th header gets consecutive ones.
  pub handle-with_skip :
      (client : FetchClient chain) (c : BlockCache lru chain) (request : GetBlockHeaders chain)
      (skip : ℕ)
      → (resolve_headers_from_cache lru chain c request).0 ≡ []
      → (start lru chain c (block_headers (with_skip request skip))
          ≡ start lru chain c (block_headers request))
        × (handle lru chain client c (block_headers (with_skip request skip))
            ≡ handle lru chain client c (block_headers request))
  unfolding handle
  handle-with_skip client c request skip e =
      let same = start-with_skip c request skip e in
      (same, ap (λ p. resume lru chain client p.0 p.1) same)

module _ (lru : LruCrate) (laws : IsLawful lru) (chain : Chain) where
  open chain use {Header}

  finish-or_fetched :
      (c : BlockCache lru chain) (fetched : Option (List Header))
      → (finish_headers lru chain c fetched).0 ≡ headers (or_fetched [] fetched)
  unfolding finish_headers
  finish-or_fetched c none = refl
  finish-or_fetched c (some fetched) = refl

  resume-await_headers :
      (client : FetchClient chain) (request : GetBlockHeaders chain) (l : List Header)
      (c : BlockCache lru chain)
      → (resume lru chain client (await_headers lru chain request l) c).0
        ≡ some (
            headers (
              or_fetched l (
                client.get_headers (record {
                  start = request.start_block;
                  limit = request.limit;
                  direction = request.direction;
                }))))
  unfolding resume await_headers
  resume-await_headers client request [] c = ap some (finish-or_fetched c _)
  resume-await_headers client request (x ∷ xs) c = refl

  -- The reply to any request of headers: the walk over the cached headers from the start block by
  -- `skip + 1` numbers, and where that is empty what the peers return for the start block, the limit
  -- and the direction, nothing if the fetch fails.
  pub handle-headers :
      (client : FetchClient chain) (c : BlockCache lru chain) (request : GetBlockHeaders chain)
      → (handle lru chain client c (block_headers request)).0
        ≡ some (
            headers (
              or_fetched
                (walk request.limit request.direction
                  (request.skip + 1)
                  (first_number lru chain c request.start_block)
                  (header_of lru chain c))
                (client.get_headers (record {
                  start = request.start_block;
                  limit = request.limit;
                  direction = request.direction;
                }))))
  unfolding handle start
  handle-headers client c request =
      let (l, c') = resolve_headers_from_cache lru chain c request in
      resume-await_headers client request l c'
      ∙ ap
          (λ l. some (
            headers (
              or_fetched l (
                client.get_headers (record {
                  start = request.start_block;
                  limit = request.limit;
                  direction = request.direction;
                })))))
          (resolve_headers_from_cache-walk lru laws chain c request)
