-- ===== src/EthProxy/Calls.antt =====
-- src/eth_proxy.rs: each cache call of the handler, and each answer of a peer, keeps it within its request,
-- whatever other tasks did to the cache before.
use mathlib.Core.Path.{subst}
use reth_sentry_node.Prelude.{
  min, ℕ, zero, suc, ◌+◌, ◌≤◌, ◌≡◌, refl, Option, none, some, List, [], ◌∷◌, length, length-append,
  arith, ltb, ◌==◌, ◌&&◌, Bool-cases, inl, inr, Option-cases, OfSome,
}
use reth_sentry_node.Chain.{Chain}
use reth_sentry_node.Lru.{LruCrate}
use reth_sentry_node.BlockCache
use reth_sentry_node.BlockCache.{BlockCache}
use reth_sentry_node.EthProxy.{
  BlockHashOrNumber, by_hash, by_number, GetBlockHeaders, Request, block_headers, block_bodies,
  node_data, receipts, receipts69, receipts70, block_access_lists, start_number, await_headers,
  await_missing,
}
use reth_sentry_node.EthProxy.Work.{
  Work, at, starting, walking, caching, resolving, filtering, combining, inserting, begin_work,
  take_headers, take_bodies, walk_on, found_body, combine_on, cache_step,
}
use reth_sentry_node.EthProxy.Kinds.{
  Answer, unasked, headers_got, bodies_got, IsFirst, Walked, first, further, headers_from_cache,
  headers_from_peer, headers_failed, bodies_from_cache, bodies_with_peer, bodies_failed,
  of_node_data, of_receipts, of_receipts69, of_receipts70, of_access_lists, IsWorkOf,
}

module _ (lru : LruCrate) (chain : Chain) (P : chain.B256 → chain.Header → Type 0) where
  open chain use {B256, Header, number, BlockBody}

  pub begin_work-IsWorkOf :
      (asked : Request chain) → IsWorkOf lru chain P (begin_work lru chain asked) asked unasked
  unfolding begin_work
  begin_work-IsWorkOf (block_headers request) = (refl, refl)
  begin_work-IsWorkOf (block_bodies hashes) = (refl, refl, omega arith)
  begin_work-IsWorkOf node_data = of_node_data
  begin_work-IsWorkOf receipts = of_receipts
  begin_work-IsWorkOf receipts69 = of_receipts69
  begin_work-IsWorkOf receipts70 = of_receipts70
  begin_work-IsWorkOf block_access_lists = of_access_lists

  pub take_headers-IsWorkOf :
      (r : GetBlockHeaders chain) (sent : Option (List Header))
      → IsWorkOf lru chain P (take_headers lru chain sent) (block_headers r) (headers_got sent)
  unfolding take_headers
  take_headers-IsWorkOf r none = headers_failed r
  take_headers-IsWorkOf r (some sent) = (r, refl, refl)

  pub take_bodies-IsWorkOf :
      (requested : List B256) (found : List BlockBody) (sent : Option (List BlockBody))
      → length found ≤ length requested
      → IsWorkOf lru chain P
          (take_bodies lru chain requested found sent)
          (block_bodies requested)
          (bodies_got sent)
  unfolding take_bodies
  take_bodies-IsWorkOf requested found none few = bodies_failed requested found few
  take_bodies-IsWorkOf requested found (some sent) few =
      (requested, sent, refl, refl, omega arith, omega arith)

  await_headers-IsWorkOf :
      (r : GetBlockHeaders chain) (found : List Header) {current : Option ℕ}
      → length found ≤ r.limit
      → Walked chain P r found current
      → IsWorkOf lru chain P (at (await_headers lru chain r found)) (block_headers r) unasked
  unfolding await_headers
  await_headers-IsWorkOf r [] few walked = (r, refl, refl, refl, refl, refl)
  await_headers-IsWorkOf r (x ∷ xs) few walked =
      headers_from_cache r (x ∷ xs) (omega arith) few walked

  await_missing-IsWorkOf :
      (requested : List B256) (found : List BlockBody) (missing : List B256)
      → length found ≤ length requested
      → IsWorkOf lru chain P
          (at (await_missing lru chain requested found missing))
          (block_bodies requested)
          unasked
  unfolding await_missing
  await_missing-IsWorkOf requested found [] few = bodies_from_cache requested found few
  await_missing-IsWorkOf requested found (h ∷ hs) few = (refl, refl, few)

  walk_on-IsWorkOf :
      (r : GetBlockHeaders chain) (rounds n : ℕ) (found : List Header) (read : Option Header)
      → length found + suc rounds ≤ r.limit
      → Walked chain P r found (some n)
      → OfSome (λ x. number x ≡ n) read
      → IsWorkOf lru chain P (walk_on lru chain r rounds n found read) (block_headers r) unasked
  unfolding walk_on
  walk_on-IsWorkOf r rounds n found none few walked own =
      await_headers-IsWorkOf r found (omega (arith, few)) walked
  walk_on-IsWorkOf r rounds n found (some x) few walked own =
      (refl, refl, omega (arith, few, length-append found (x ∷ [])), further x walked own)

  found_body-le : (read : Option BlockBody) → length (found_body lru chain read) ≤ 1
  unfolding found_body
  found_body-le none = omega arith
  found_body-le (some body) = omega arith

  combine_on-IsWorkOf :
      (requested : List B256) (sent : List BlockBody) (h : B256) (left : List B256)
      (fetched all_bodies : List BlockBody) (read : Option BlockBody)
      → length all_bodies + suc (length left) ≤ length requested
      → min (length requested) (length sent)
        ≤ length all_bodies + min (suc (length left)) (length fetched)
      → IsWorkOf lru chain P
          (combine_on lru chain h left fetched all_bodies read)
          (block_bodies requested)
          (bodies_got (some sent))
  unfolding combine_on
  combine_on-IsWorkOf requested sent h left fetched all_bodies (some body) few many =
      let grown = length-append all_bodies (body ∷ []) in
      (requested, sent, refl, refl, omega (arith, few, grown), omega (arith, many, grown))
  combine_on-IsWorkOf requested sent h left [] all_bodies none few many =
      (requested, sent, refl, refl, omega (arith, few), omega (arith, many))
  combine_on-IsWorkOf requested sent h left (body ∷ later) all_bodies none few many =
      (requested, sent, refl, refl, omega (arith, few), omega (arith, many))

  -- A cache where a header read by its hash has `P` with it, and one read by a number has that number.
  abbrev pub ReadsOwn : BlockCache lru chain → Type 0
  ReadsOwn c =
      ((hash : B256) → OfSome (P hash) (BlockCache.get_header_by_hash lru chain c hash).0)
      × ((n : ℕ) → OfSome (λ x. number x ≡ n) (BlockCache.get_header_by_number lru chain c n).0)

  start_number-IsFirst :
      (c : BlockCache lru chain) (s : BlockHashOrNumber chain)
      → ReadsOwn c
      → IsFirst chain P s (start_number lru chain c s).0
  unfolding start_number
  start_number-IsFirst c (by_number n) own = refl
  start_number-IsFirst c (by_hash h) own =
      let (found, c') = BlockCache.get_header_by_hash lru chain c h in
      elim (Option-cases found) [
        | inl e ↦ rw (e, start_number) tt
        | inr (x, e) ↦ rw (e, start_number) (x, subst (OfSome (P h)) e (own.0 h), refl)
      ]

  -- A cache call of the handler keeps it in the request.
  pub cache_step-IsWorkOf :
      (work : Work lru chain) (c : BlockCache lru chain) (asked : Request chain)
      (answer : Answer chain P)
      → ReadsOwn c
      → IsWorkOf lru chain P work asked answer
      → IsWorkOf lru chain P (cache_step lru chain work c).0 asked answer
  unfolding cache_step
  cache_step-IsWorkOf (at phase) c asked answer own p = p
  cache_step-IsWorkOf (starting r) c asked answer own p = (
    p.0,
    p.1,
    omega arith,
    first (start_number lru chain c r.start_block).0 (start_number-IsFirst c r.start_block own),
  )
  cache_step-IsWorkOf (walking r zero current found) c asked answer own (e, f, few, walked) =
      rw (e, f) (await_headers-IsWorkOf r found (omega (arith, few)) walked)
  cache_step-IsWorkOf (walking r (suc rounds) none found) c asked answer own (e, f, few, walked) =
      rw (e, f) (await_headers-IsWorkOf r found (omega (arith, few)) walked)
  cache_step-IsWorkOf (walking r (suc rounds) (some n) found) c asked answer own
        (e, f, few, walked) =
      rw (e, f)
        (walk_on-IsWorkOf r rounds n found (BlockCache.get_header_by_number lru chain c n).0 few
          walked (own.1 n))
  cache_step-IsWorkOf (caching reply []) c asked answer own (r, e, f) =
      rw (e, f) (headers_from_peer r reply)
  cache_step-IsWorkOf (caching reply (x ∷ xs)) c asked answer own p = p
  cache_step-IsWorkOf (resolving requested [] found) c asked answer own (e, f, few) =
      let some_left : length found ≤ length requested = omega (arith, few) in
      elim (Bool-cases (length found == length requested && ltb 0 (length requested))) [
        | inl all ↦ rw (all, cache_step, e, f) (bodies_from_cache requested found some_left)
        | inr lacks ↦ rw (lacks, cache_step) (e, f, some_left)
      ]
  cache_step-IsWorkOf (resolving requested (h ∷ hs) found) c asked answer own (e, f, few) =
      let read = (BlockCache.get_body_by_hash lru chain c h).0 in
      (
        e,
        f,
        omega (arith, few, found_body-le read, length-append found (found_body lru chain read)),
      )
  cache_step-IsWorkOf (filtering requested found [] missing) c asked answer own (e, f, few) =
      rw (e, f) (await_missing-IsWorkOf requested found missing few)
  cache_step-IsWorkOf (filtering requested found (h ∷ hs) missing) c asked answer own p = p
  cache_step-IsWorkOf (combining [] fetched all_bodies) c asked answer own
        (requested, sent, e, f, few, many) =
      rw (e, f)
        (bodies_with_peer requested sent all_bodies (omega (arith, few)) (omega (arith, many)))
  cache_step-IsWorkOf (combining (h ∷ hs) fetched all_bodies) c asked answer own
        (requested, sent, e, f, few, many) =
      rw (e, f)
        (combine_on-IsWorkOf requested sent h hs fetched all_bodies
          (BlockCache.get_body_by_hash lru chain c h).0 few many)
  cache_step-IsWorkOf (inserting h body left fetched all_bodies) c asked answer own
        (requested, sent, e, f, few, many) =
      let grown = length-append all_bodies (body ∷ []) in
      (requested, sent, e, f, omega (arith, few, grown), omega (arith, many, grown))
