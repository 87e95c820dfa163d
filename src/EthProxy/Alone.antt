-- ===== src/EthProxy/Alone.antt =====
-- src/eth_proxy.rs: the handler's cache calls, one after the other with no other task between them and the
-- peers' answers at its awaits, are the handler as a whole.
use mathlib.Core.List.{append_assoc, append-nil}
use reth_sentry_node.Prelude.{
  ℕ, zero, suc, ◌+◌, sym, Option, none, some, List, [], ◌∷◌, ◌++◌, length, ltb, ◌==◌, ◌&&◌,
  Bool-cases, Option-cases, inl, inr, if◌then◌else◌,
}
use reth_sentry_node.Chain.{Chain}
use reth_sentry_node.Lru.{LruCrate}
use reth_sentry_node.BlockCache.{
  BlockCache, insert_header, insert_body, get_header_by_number, get_body_by_hash,
}
use reth_sentry_node.EthProxy.{
  GetBlockHeaders, HeadersRequest, Request, block_headers, block_bodies, node_data, receipts,
  receipts69, receipts70, block_access_lists, Reply, headers, bodies, done, fetch_headers,
  fetch_bodies, advance, start_number, walk_cache, resolve_headers_from_cache,
  resolve_bodies_from_cache, missing_hashes, cache_headers, combine_bodies, await_headers,
  await_missing, start, finish_headers, finish_bodies, resume, FetchClient, handle, Phase,
}
use reth_sentry_node.EthProxy.Work.{
  Work, at, walking, caching, resolving, filtering, combining, begin_work, take_headers,
  take_bodies, walk_on, found_body, combine_on, cache_step,
}

module _ (lru : LruCrate) (chain : Chain) (client : FetchClient chain) where
  open chain use {B256, Header, hash_slow, BlockBody}

  abbrev Cache : Type 0
  Cache = BlockCache lru chain

  -- The handler from some point to its reply, without another task.
  pub data Alone : Work lru chain → Cache → Option (Reply chain) × Cache → Type 0 where
    replied : (reply : Option (Reply chain)) (c : Cache) → Alone (at (done reply)) c (reply, c)
    called :
        {work : Work lru chain} {c : Cache} {end : Option (Reply chain) × Cache}
        → Alone (cache_step lru chain work c).0 (cache_step lru chain work c).1 end
        → Alone work c end
    got_headers :
        {asked : HeadersRequest chain} {c : Cache} {end : Option (Reply chain) × Cache}
        → Alone (take_headers lru chain (client.get_headers asked)) c end
        → Alone (at (fetch_headers asked)) c end
    got_bodies :
        {requested missing : List B256} {found : List BlockBody} {c : Cache}
        {end : Option (Reply chain) × Cache}
        → Alone (take_bodies lru chain requested found (client.get_block_bodies missing)) c end
        → Alone (at (fetch_bodies requested found missing)) c end

  caching-Alone :
      (reply left : List Header) (c : Cache)
      → Alone (caching reply left) c (some (headers reply), cache_headers lru chain c left)
  unfolding cache_step cache_headers
  caching-Alone reply [] c = called (replied (some (headers reply)) c)
  caching-Alone reply (x ∷ xs) c =
      called (caching-Alone reply xs (insert_header lru chain c (hash_slow x) x))

  combining-Alone :
      (left : List B256) (fetched before : List BlockBody) (c : Cache)
      → Alone (combining left fetched before) c (
        some (bodies (before ++ (combine_bodies lru chain c left fetched).0)),
        (combine_bodies lru chain c left fetched).1,
      )
  unfolding cache_step combine_bodies combine_on
  combining-Alone [] fetched before c = rw (append-nil before) (called (replied _ c))
  combining-Alone (h ∷ hs) [] before c =
      let c' = (get_body_by_hash lru chain c h).1 in
      elim (Option-cases (get_body_by_hash lru chain c h).0) [
        | inl e ↦ called (rw (e, combine_bodies, combine_on) (combining-Alone hs [] before c'))
        | inr (b, e) ↦ called (
            rw (e, combine_bodies, combine_on)
              (rw (sym (append_assoc before (b ∷ []) (combine_bodies lru chain c' hs []).0))
                (combining-Alone hs [] (before ++ (b ∷ [])) c')))
      ]
  combining-Alone (h ∷ hs) (x ∷ later) before c =
      let c' = (get_body_by_hash lru chain c h).1 in
      let c'' = insert_body lru chain c' h x in
      elim (Option-cases (get_body_by_hash lru chain c h).0) [
        | inl e ↦ called (
            rw (e, combine_bodies, combine_on)
              (called (
                rw (sym (append_assoc before (x ∷ []) (combine_bodies lru chain c'' hs later).0))
                  (combining-Alone hs later (before ++ (x ∷ [])) c''))))
        | inr (b, e) ↦ called (
            rw (e, combine_bodies, combine_on)
              (rw
                (sym (append_assoc before (b ∷ []) (combine_bodies lru chain c' hs (x ∷ later)).0))
                (combining-Alone hs (x ∷ later) (before ++ (b ∷ [])) c')))
      ]

  -- What the handler ends with from its first end or await on.
  resume-Alone :
      (phase : Phase chain) (c : Cache) → Alone (at phase) c (resume lru chain client phase c)
  unfolding resume finish_headers finish_bodies take_headers take_bodies
  resume-Alone (done reply) c = replied reply c
  resume-Alone (fetch_headers asked) c = elim (Option-cases (client.get_headers asked)) [
    | inl e ↦ got_headers (rw (e, take_headers, finish_headers) (replied (some (headers [])) c))
    | inr (sent, e) ↦ got_headers (rw (e, take_headers, finish_headers) (caching-Alone sent sent c))
  ]
  resume-Alone (fetch_bodies requested found missing) c =
      elim (Option-cases (client.get_block_bodies missing)) [
        | inl e ↦ got_bodies (rw (e, take_bodies, finish_bodies) (replied (some (bodies found)) c))
        | inr (sent, e) ↦
            got_bodies (rw (e, take_bodies, finish_bodies) (combining-Alone requested sent [] c))
      ]

  walking-Alone :
      (r : GetBlockHeaders chain) (rounds : ℕ) (current : Option ℕ) (before : List Header)
      (c : Cache)
      → let (rest, c') = walk_cache lru chain rounds r.direction (r.skip + 1) current c in
        Alone
          (walking r rounds current before)
          c
          (resume lru chain client (await_headers lru chain r (before ++ rest)) c')
  unfolding cache_step walk_cache walk_on
  walking-Alone r zero current before c =
      rw (append-nil before) (called (resume-Alone (await_headers lru chain r before) c))
  walking-Alone r (suc rounds) none before c =
      rw (append-nil before) (called (resume-Alone (await_headers lru chain r before) c))
  walking-Alone r (suc rounds) (some n) before c =
      let c' = (get_header_by_number lru chain c n).1 in
      let onward = advance r.direction n (r.skip + 1) in
      elim (Option-cases (get_header_by_number lru chain c n).0) [
        | inl e ↦ called (
            rw (e, walk_cache, walk_on)
              (rw (append-nil before) (resume-Alone (await_headers lru chain r before) c')))
        | inr (x, e) ↦ called (
            rw (e, walk_cache, walk_on)
              (rw
                (sym (
                  append_assoc before (x ∷ [])
                    (walk_cache lru chain rounds r.direction (r.skip + 1) onward c').0))
                (walking-Alone r rounds onward (before ++ (x ∷ [])) c')))
      ]

  filtering-Alone :
      (requested : List B256) (found : List BlockBody) (left before : List B256) (c : Cache)
      → let (rest, c') = missing_hashes lru chain c left in
        Alone
          (filtering requested found left before)
          c
          (resume lru chain client (await_missing lru chain requested found (before ++ rest)) c')
  unfolding cache_step missing_hashes
  filtering-Alone requested found [] before c =
      rw (append-nil before)
        (called (resume-Alone (await_missing lru chain requested found before) c))
  filtering-Alone requested found (h ∷ hs) before c =
      let c' = (get_body_by_hash lru chain c h).1 in
      elim (Option-cases (get_body_by_hash lru chain c h).0) [
        | inl e ↦ called (
            rw (e, missing_hashes)
              (rw (sym (append_assoc before (h ∷ []) (missing_hashes lru chain c' hs).0))
                (filtering-Alone requested found hs (before ++ (h ∷ [])) c')))
        | inr (b, e) ↦ called (
            rw (e, missing_hashes)
              (rw (append-nil before) (filtering-Alone requested found hs before c')))
      ]

  -- The handler after `resolve_bodies_from_cache`.
  abbrev resolved : List B256 → List BlockBody → Cache → Phase chain × Cache
  resolved requested found c =
      if length found == length requested && ltb 0 (length requested)
      then (done (some (bodies found)), c)
      else (let (missing, c') = missing_hashes lru chain c requested in
          (await_missing lru chain requested found missing, c'))

  resolving-Alone :
      (requested left : List B256) (before : List BlockBody) (c : Cache)
      → let (rest, c') = resolve_bodies_from_cache lru chain c left in
        let p = resolved requested (before ++ rest) c' in
        Alone (resolving requested left before) c (resume lru chain client p.0 p.1)
  unfolding cache_step resolve_bodies_from_cache found_body
  resolving-Alone requested [] before c =
      rw (append-nil before)
        (elim (Bool-cases (length before == length requested && ltb 0 (length requested))) [
          | inl e ↦ called (rw (e, cache_step) (resume-Alone (done (some (bodies before))) c))
          | inr e ↦ called (rw (e, cache_step) (filtering-Alone requested before requested [] c))
        ])
  resolving-Alone requested (h ∷ hs) before c =
      let c' = (get_body_by_hash lru chain c h).1 in
      elim (Option-cases (get_body_by_hash lru chain c h).0) [
        | inl e ↦ called (
            rw (e, resolve_bodies_from_cache, found_body)
              (rw (append-nil before) (resolving-Alone requested hs before c')))
        | inr (b, e) ↦ called (
            rw (e, resolve_bodies_from_cache, found_body)
              (rw (sym (append_assoc before (b ∷ []) (resolve_bodies_from_cache lru chain c' hs).0))
                (resolving-Alone requested hs (before ++ (b ∷ [])) c')))
      ]

  -- For any request, cache and peers: the handler's cache calls and the peers' answers, one after the other
  -- with no other task between them, end with the reply and the cache of `handle`.
  pub handle-Alone :
      (asked : Request chain) (c : Cache)
      → Alone (begin_work lru chain asked) c (handle lru chain client c asked)
  unfolding handle start begin_work resolve_headers_from_cache cache_step resume
  handle-Alone (block_headers r) c = called (
      walking-Alone r r.limit (start_number lru chain c r.start_block).0 []
        (start_number lru chain c r.start_block).1)
  handle-Alone (block_bodies hashes) c = resolving-Alone hashes hashes [] c
  handle-Alone node_data c = replied _ c
  handle-Alone receipts c = replied _ c
  handle-Alone receipts69 c = replied _ c
  handle-Alone receipts70 c = replied _ c
  handle-Alone block_access_lists c = replied _ c
