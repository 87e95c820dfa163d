-- ===== src/EthProxy/Single.antt =====
-- src/eth_proxy.rs: requests of one body, from the cache or from a peer. A body that a peer sends is taken
-- for the requested one unseen.
use reth_sentry_node.Prelude.{
  ℕ, ◌≡◌, refl, ap, ◌∙◌, false, ◌&&◌, none, some, List, [], ◌∷◌, length, ltb, ◌==◌,
}
use reth_sentry_node.Chain.{Chain}
use reth_sentry_node.Lru.{LruCrate, IsLawful}
use reth_sentry_node.Lru.Laws
use reth_sentry_node.BlockCache.{BlockCache, filter_map, get_body_by_hash}
use reth_sentry_node.EthProxy.{
  bodies, block_bodies, FetchClient, handle, resume, await_missing, finish_bodies, combine_bodies,
  missing_hashes, resolve_bodies_from_cache,
}
use reth_sentry_node.EthProxy.Bodies.{
  body_of, absent, Reordered-get, Reordered-trans, resolve-Reordered, missing-Reordered,
  missing_hashes-absent, combine_bodies-none, absent-none,
}
use reth_sentry_node.EthProxy.Replies.{
  found, missing, start-found, start-missing, resolve_bodies_from_cache-filter_map,
}
use reth_sentry_node.EthProxy.Misplaced.{filter_map-none, body_of-insert_self, combine_nil}

module _ (lru : LruCrate) (laws : IsLawful lru) (chain : Chain) where
  open chain use {B256, b256_eq, Header, BlockBody}

  pub get_body_by_hash-body_of :
      (c : BlockCache lru chain) (h : B256)
      → (get_body_by_hash lru chain c h).0 ≡ body_of lru chain c h
  unfolding get_body_by_hash
  get_body_by_hash-body_of c h = laws.get-iter b256_eq c.bodies_by_hash h

  pub resolve_one :
      (c : BlockCache lru chain) (h : B256) {b : BlockBody}
      → (get_body_by_hash lru chain c h).0 ≡ some b
      → (resolve_bodies_from_cache lru chain c (h ∷ [])).0 ≡ b ∷ []
  unfolding resolve_bodies_from_cache
  resolve_one c h e = rw (e, resolve_bodies_from_cache) refl

  -- A body at hand is the reply, whatever the peers would answer.
  pub handle_found :
      (client : FetchClient chain) (c : BlockCache lru chain) (h : B256) {b : BlockBody}
      → (resolve_bodies_from_cache lru chain c (h ∷ [])).0 ≡ b ∷ []
      → (handle lru chain client c (block_bodies (h ∷ []))).0 ≡ some (bodies (b ∷ []))
  unfolding handle resume
  handle_found client c h e =
      ap (λ p. (resume lru chain client p.0 p.1).0)
        (start-found lru laws chain c (h ∷ [])
          (ap (λ (l : List BlockBody). length l == 1 && ltb 0 1) e))
      ∙ ap (λ (l : List BlockBody). some (bodies l)) e

  module _ (client : FetchClient chain) (c : BlockCache lru chain) (h : B256) (b : BlockBody) where
    missing_one :
        body_of lru chain c h ≡ none
        → (c' : BlockCache lru chain)
        → ((j : B256) → body_of lru chain c' j ≡ body_of lru chain c j)
        → (missing_hashes lru chain c' (h ∷ [])).0 ≡ h ∷ []
    missing_one e c' same =
        let at = body_of lru chain c in
        missing_hashes-absent lru laws chain at c' (h ∷ []) same
        ∙ absent-none at h [] e
        ∙ unfold absent in refl

    found-none : body_of lru chain c h ≡ none → (found lru laws chain c (h ∷ [])).0 ≡ []
    found-none e =
        let at = body_of lru chain c in
        resolve_bodies_from_cache-filter_map lru laws chain at c (h ∷ []) (λ j. refl)
        ∙ filter_map-none at h [] e
        ∙ unfold filter_map in refl

    resume_one :
        (l : List BlockBody) (c' : BlockCache lru chain)
        → client.get_block_bodies (h ∷ []) ≡ some (b ∷ [])
        → (resume lru chain client (await_missing lru chain (h ∷ []) l (h ∷ [])) c').1
          ≡ (combine_bodies lru chain c' (h ∷ []) (b ∷ [])).1
    unfolding resume await_missing finish_bodies
    resume_one l c' answers = rw (answers, finish_bodies) refl

    -- After a request of one body that is not cached, the cache has what the peer sent for it.
    body_of-handle :
        {n : ℕ}
        → Laws.IsSized lru b256_eq n c.bodies_by_hash
        → body_of lru chain c h ≡ none
        → client.get_block_bodies (h ∷ []) ≡ some (b ∷ [])
        → body_of lru chain (handle lru chain client c (block_bodies (h ∷ []))).1 h ≡ some b
    unfolding handle
    body_of-handle v e answers =
        let hs : List B256 = h ∷ [] in
        let first = resolve-Reordered lru laws chain c hs v in
        let c1 = (found lru laws chain c hs).1 in
        let second = missing-Reordered lru laws chain c1 hs first.valid in
        let c' = (missing lru laws chain c hs).1 in
        let r = Reordered-trans lru laws chain first second in
        let last = Reordered-get lru laws chain c' h r.valid in
        let few : (length (found lru laws chain c hs).0 == 1 && ltb 0 1) ≡ false =
          ap (λ (l : List BlockBody). length l == 1 && ltb 0 1) (found-none e) in
        let state =
          ap (λ p. (resume lru chain client p.0 p.1).1) (start-missing lru laws chain c hs few)
          ∙ ap
              (λ m.
                (resume lru chain client
                  (await_missing lru chain hs (found lru laws chain c hs).0 m) c').1)
              (missing_one e c1 first.same)
          ∙ resume_one (found lru laws chain c hs).0 c' answers in
        ap (λ d. body_of lru chain d h) state
        ∙ rw (combine_bodies-none lru laws chain c' h [] b [] (r.same h ∙ e), combine_nil)
            (body_of-insert_self lru laws chain (get_body_by_hash lru chain c' h).1 h b last.valid)

    -- For a cache whose body cache is valid, a hash whose body is not cached, and a peer that answers a
    -- request of it with one body, whichever: the next request of that hash, with nothing done to the cache
    -- in between, is answered with that body from the cache, whatever the peers would answer then.
    pub handle-unchecked :
        (n : ℕ) (later : FetchClient chain)
        → Laws.IsSized lru b256_eq n c.bodies_by_hash
        → body_of lru chain c h ≡ none
        → client.get_block_bodies (h ∷ []) ≡ some (b ∷ [])
        → (handle lru chain later
            (handle lru chain client c (block_bodies (h ∷ []))).1
            (block_bodies (h ∷ []))).0
          ≡ some (bodies (b ∷ []))
    handle-unchecked n later v e answers =
        let c' = (handle lru chain client c (block_bodies (h ∷ []))).1 in
        handle_found later c' h
          (resolve_one c' h (get_body_by_hash-body_of c' h ∙ body_of-handle v e answers))
