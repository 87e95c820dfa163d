-- ===== src/EthProxy/Misplaced.antt =====
-- src/eth_proxy.rs: a class of requests at which a fetched body is cached and sent for another hash.
use reth_sentry_node.Prelude.{
  ℕ, ◌≡◌, ◌≢◌, refl, ap, ◌∙◌, false, Option, none, some, List, [], ◌∷◌, map, length, ltb, ◌==◌,
  ◌&&◌,
}
use reth_sentry_node.Chain.{Chain}
use reth_sentry_node.Lru.{LruCrate, IsLawful}
use reth_sentry_node.Lru.Laws
use reth_sentry_node.BlockCache.{BlockCache, filter_map, get_body_by_hash, insert_body}
use reth_sentry_node.EthProxy.{
  bodies, block_bodies, missing_hashes, combine_bodies, await_missing, resume, finish_bodies,
  FetchClient, handle,
}
use reth_sentry_node.EthProxy.Bodies.{
  body_of, Reordered, absent, Reordered-get, Reordered-trans, resolve-Reordered, missing-Reordered,
  missing_hashes-absent, combine_bodies-some, combine_bodies-none, absent-none,
}
use reth_sentry_node.EthProxy.Combine.{insert_body-IsSized}
use reth_sentry_node.EthProxy.Replies.{
  found, missing, start-missing, resolve_bodies_from_cache-filter_map,
}

pub filter_map-none :
    {A B : Type 0} (f : A → Option B) (a : A) (l : List A)
    → f a ≡ none
    → filter_map f (a ∷ l) ≡ filter_map f l
unfolding filter_map
filter_map-none f a l e = rw (e, filter_map)

module _ (lru : LruCrate) (laws : IsLawful lru) (chain : Chain) where
  open chain use {B256, b256_eq, BlockBody}

  pub body_of-insert_self :
      {n : ℕ} (c : BlockCache lru chain) (h : B256) (b : BlockBody)
      → Laws.IsSized lru b256_eq n c.bodies_by_hash
      → body_of lru chain (insert_body lru chain c h b) h ≡ some b
  unfolding insert_body
  body_of-insert_self c h b v = Laws.entry-push_self lru laws b256_eq c.bodies_by_hash h b v.valid

  body_of-insert_none :
      (c : BlockCache lru chain) (h : B256) (b : BlockBody) (g : B256)
      → h ≢ g
      → body_of lru chain c g ≡ none
      → body_of lru chain (insert_body lru chain c h b) g ≡ none
  unfolding insert_body
  body_of-insert_none c h b g ne e =
      Laws.entry-push_none lru laws b256_eq c.bodies_by_hash h b g ne e

  pub combine_nil :
      (c : BlockCache lru chain) (fetched : List BlockBody)
      → combine_bodies lru chain c [] fetched ≡ ([], c)
  unfolding combine_bodies
  combine_nil c fetched = refl

  -- The second `h` is found in the cache, so the body that was fetched for it goes to `g`.
  combine_repeated :
      {n : ℕ} (c : BlockCache lru chain) (h g : B256) (x y z : BlockBody)
      → Laws.IsSized lru b256_eq n c.bodies_by_hash
      → h ≢ g
      → body_of lru chain c h ≡ none
      → body_of lru chain c g ≡ none
      → ((combine_bodies lru chain c (h ∷ h ∷ g ∷ []) (x ∷ y ∷ z ∷ [])).0 ≡ x ∷ x ∷ y ∷ [])
        × (body_of lru chain (combine_bodies lru chain c (h ∷ h ∷ g ∷ []) (x ∷ y ∷ z ∷ [])).1 g
            ≡ some y)
  combine_repeated c h g x y z v ne eh eg =
      let r0 = Reordered-get lru laws chain c h v in
      let c0 = (get_body_by_hash lru chain c h).1 in
      let c1 = insert_body lru chain c0 h x in
      let v1 = insert_body-IsSized lru laws chain c0 h x r0.valid in
      let r1 = Reordered-get lru laws chain c1 h v1 in
      let c2 = (get_body_by_hash lru chain c1 h).1 in
      let r2 = Reordered-get lru laws chain c2 g r1.valid in
      let c3 = (get_body_by_hash lru chain c2 g).1 in
      let first = combine_bodies-none lru laws chain c h (h ∷ g ∷ []) x (y ∷ z ∷ []) eh in
      let second =
        combine_bodies-some lru laws chain c1 h (g ∷ []) (y ∷ z ∷ [])
          (body_of-insert_self c0 h x r0.valid) in
      let absent_g = r1.same g ∙ body_of-insert_none c0 h x g ne (r0.same g ∙ eg) in
      let third = combine_bodies-none lru laws chain c2 g [] y (z ∷ []) absent_g in
      let last = body_of-insert_self c3 g y r2.valid in
      rw (first, second, third, combine_nil) (refl, last)

  module _ (client : FetchClient chain) (answer : B256 → BlockBody)
      (answers : (asked : List B256) → client.get_block_bodies asked ≡ some (map answer asked))
      (c : BlockCache lru chain) (h g : B256) where
    abbrev hs : List B256
    hs = h ∷ h ∷ g ∷ []

    abbrev combined : BlockCache lru chain → List BlockBody × BlockCache lru chain
    combined c' = combine_bodies lru chain c' hs (answer h ∷ answer h ∷ answer g ∷ [])

    missing-hs :
        body_of lru chain c h ≡ none
        → body_of lru chain c g ≡ none
        → (c' : BlockCache lru chain)
        → ((j : B256) → body_of lru chain c' j ≡ body_of lru chain c j)
        → (missing_hashes lru chain c' hs).0 ≡ hs
    missing-hs eh eg c' same =
        let at = body_of lru chain c in
        missing_hashes-absent lru laws chain at c' hs same
        ∙ absent-none at h (h ∷ g ∷ []) eh
        ∙ ap (◌∷◌ h) (
            absent-none at h (g ∷ []) eh
            ∙ ap (◌∷◌ h) (absent-none at g [] eg ∙ unfold absent in refl))

    found-nil :
        body_of lru chain c h ≡ none
        → body_of lru chain c g ≡ none
        → (found lru laws chain c hs).0 ≡ []
    found-nil eh eg =
        let at = body_of lru chain c in
        resolve_bodies_from_cache-filter_map lru laws chain at c hs (λ j. refl)
        ∙ filter_map-none at h (h ∷ g ∷ []) eh
        ∙ filter_map-none at h (g ∷ []) eh
        ∙ filter_map-none at g [] eg
        ∙ unfold filter_map in refl

    resume-combined :
        (l : List BlockBody) (c' : BlockCache lru chain)
        → resume lru chain client (await_missing lru chain hs l hs) c'
          ≡ (some (bodies (combined c').0), (combined c').1)
    unfolding resume await_missing finish_bodies
    resume-combined l c' = rw (answers hs, finish_bodies) refl

    handle-combined :
        {n : ℕ}
        → Laws.IsSized lru b256_eq n c.bodies_by_hash
        → body_of lru chain c h ≡ none
        → body_of lru chain c g ≡ none
        → (c' : BlockCache lru chain) × Reordered lru chain n c c'
          × (handle lru chain client c (block_bodies hs)
              ≡ (some (bodies (combined c').0), (combined c').1))
    unfolding handle
    handle-combined v eh eg =
        let first = resolve-Reordered lru laws chain c hs v in
        let c1 = (found lru laws chain c hs).1 in
        let second = missing-Reordered lru laws chain c1 hs first.valid in
        let none_found = found-nil eh eg in
        let few : (length (found lru laws chain c hs).0 == 3 && ltb 0 3) ≡ false =
          ap (λ (l : List BlockBody). length l == 3 && ltb 0 3) none_found in
        let c' = (missing lru laws chain c hs).1 in
        (
          c',
          Reordered-trans lru laws chain first second,
          ap (λ p. resume lru chain client p.0 p.1) (start-missing lru laws chain c hs few)
              ∙ ap
                  (λ m.
                    resume lru chain client
                      (await_missing lru chain hs (found lru laws chain c hs).0 m) c')
                  (missing-hs eh eg c1 first.same)
              ∙ resume-combined (found lru laws chain c hs).0 c',
        )

    -- For a request of the hashes `h`, `h`, `g` with `h` and `g` different and neither body cached, and
    -- peers that answer each hash that they are asked for in order: the reply holds the body of `h`
    -- three times, and the handler has cached the body of `h` under `g`.
    pub handle-misplaced :
        (n : ℕ)
        → Laws.IsSized lru b256_eq n c.bodies_by_hash
        → h ≢ g
        → body_of lru chain c h ≡ none
        → body_of lru chain c g ≡ none
        → ((handle lru chain client c (block_bodies (h ∷ h ∷ g ∷ []))).0
            ≡ some (bodies (answer h ∷ answer h ∷ answer h ∷ [])))
          × (body_of lru chain (handle lru chain client c (block_bodies (h ∷ h ∷ g ∷ []))).1 g
              ≡ some (answer h))
    handle-misplaced n v ne eh eg =
        let (c', r, e) = handle-combined v eh eg in
        let both =
          combine_repeated c' h g (answer h) (answer h) (answer g) r.valid ne (r.same h ∙ eh)
            (r.same g ∙ eg) in
        rw e (ap (λ l. some (bodies l)) both.0, both.1)
