-- ===== src/EthProxy/Replies.antt =====
-- src/eth_proxy.rs: the replies to requests of bodies.
use reth_sentry_node.Prelude.{
  ℕ, ◌+◌, ◌≤◌, ◌≡◌, ◌⊎◌, refl, sym, ap, ◌∙◌, true, false, Option, none, some, List, [], ◌∷◌, map,
  arith, length, inl, inr, if-true, if-false, Option-cases, ltb, ◌==◌, ◌&&◌,
}
use reth_sentry_node.Chain.{Chain}
use reth_sentry_node.Lru.{LruCrate, IsLawful}
use reth_sentry_node.Lru.Laws
use reth_sentry_node.Lru.Keys.{IsNodup}
use reth_sentry_node.BlockCache.{BlockCache, filter_map, get_body_by_hash}
use reth_sentry_node.EthProxy.{
  Phase, done, fetch_bodies, bodies, block_bodies, resolve_bodies_from_cache, missing_hashes,
  combine_bodies, await_missing, start, resume, finish_bodies, FetchClient, handle,
}
use reth_sentry_node.EthProxy.Bodies.{
  body_of, absent, absent-some, absent-none, or_answer, found-body_of,
}
use reth_sentry_node.EthProxy.Combine.{combine_bodies-map}
use reth_sentry_node.EthProxy.Front.{IsKept}

List-cases {ℓ} : {A : Type ℓ} (l : List A) → (l ≡ []) ⊎ ((a : A) × (r : List A) × (l ≡ a ∷ r))
List-cases [] = inl refl
List-cases (a ∷ r) = inr (a, r, refl)

module _ {A B : Type 0} (at : A → Option B) (answer : A → B) where
  filter_map_whole :
      (l : List A) → length (absent at l) ≡ 0 → filter_map at l ≡ map (or_answer at answer) l
  unfolding filter_map absent
  filter_map_whole [] h = refl
  filter_map_whole (a ∷ l) h = elim (Option-cases (at a)) [
    | inl e ↦ absurd (omega (arith, h, ap length (absent-none at a l e)))
    | inr (b, e) ↦
        rw (e, filter_map, or_answer)
          (ap (◌∷◌ b) (filter_map_whole l (omega (arith, h, ap length (absent-some at a l e)))))
  ]

module _ (lru : LruCrate) (laws : IsLawful lru) (chain : Chain) where
  open chain use {B256, b256_eq, BlockBody}

  pub resolve_bodies_from_cache-filter_map :
      (at : B256 → Option BlockBody) (c : BlockCache lru chain) (hs : List B256)
      → ((h : B256) → body_of lru chain c h ≡ at h)
      → (resolve_bodies_from_cache lru chain c hs).0 ≡ filter_map at hs
  unfolding resolve_bodies_from_cache filter_map
  resolve_bodies_from_cache-filter_map at c [] e = refl
  resolve_bodies_from_cache-filter_map at c (h ∷ hs) e =
      let c' = (get_body_by_hash lru chain c h).1 in
      let ih = resolve_bodies_from_cache-filter_map at c' hs (λ j.
        unfold get_body_by_hash in Laws.entry-get lru laws b256_eq c.bodies_by_hash h j ∙ e j) in
      let found = found-body_of lru laws chain c h ∙ e h in
      λ i. elim (found i) [ none ↦ ih i | some body ↦ body ∷ ih i ]

  -- The handler by what it finds and misses in the cache.
  module _ (c : BlockCache lru chain) (hs : List B256) where
    abbrev pub found : List BlockBody × BlockCache lru chain
    found = resolve_bodies_from_cache lru chain c hs

    abbrev pub missing : List B256 × BlockCache lru chain
    missing = missing_hashes lru chain found.1 hs

    pub start-found :
        (length found.0 == length hs && ltb 0 (length hs)) ≡ true
        → start lru chain c (block_bodies hs) ≡ (done (some (bodies found.0)), found.1)
    unfolding start
    start-found e = if-true _ _ _ e

    pub start-missing :
        (length found.0 == length hs && ltb 0 (length hs)) ≡ false
        → start lru chain c (block_bodies hs)
          ≡ (await_missing lru chain hs found.0 missing.0, missing.1)
    unfolding start
    start-missing e = if-false _ _ _ e

  module _ (client : FetchClient chain) (answer : B256 → BlockBody)
      (answers : (asked : List B256) → client.get_block_bodies asked ≡ some (map answer asked))
      (c : BlockCache lru chain) (hs : List B256) where
    abbrev pub at : B256 → Option BlockBody
    at = body_of lru chain c

    found-whole : length (absent at hs) ≡ 0 → (found c hs).0 ≡ map (or_answer at answer) hs
    found-whole h =
        resolve_bodies_from_cache-filter_map at c hs (λ j. refl) ∙ filter_map_whole at answer hs h

    pub handle-start :
        {phase : Phase chain} {c' : BlockCache lru chain}
        → start lru chain c (block_bodies hs) ≡ (phase, c')
        → (handle lru chain client c (block_bodies hs)).0 ≡ (resume lru chain client phase c').0
    unfolding handle
    handle-start e = ap (λ p. (resume lru chain client p.0 p.1).0) e

    pub finish-combine :
        (c' : BlockCache lru chain) (asked : List B256)
        → (resume lru chain client (fetch_bodies hs (found c hs).0 asked) c').0
          ≡ some (bodies (combine_bodies lru chain c' hs (map answer asked)).0)
    unfolding resume finish_bodies
    finish-combine c' asked =
        ap (λ r. some (finish_bodies lru chain c' hs (found c hs).0 r).0) (answers asked)

    pub resume-await :
        {n : ℕ} (m : ℕ) (c' : BlockCache lru chain) (asked : List B256)
        → asked ≡ absent at hs
        → Laws.IsSized lru b256_eq n c'.bodies_by_hash
        → IsNodup b256_eq hs
        → IsKept lru laws chain at m c' hs
        → m + length (absent at hs) ≤ n
        → (resume lru chain client (await_missing lru chain hs (found c hs).0 asked) c').0
          ≡ some (bodies (map (or_answer at answer) hs))
    unfolding await_missing resume
    resume-await m c' [] e v d kept room =
        ap (λ l. some (bodies l)) (found-whole (sym (ap length e)))
    resume-await m c' (h ∷ asked) e v d kept room =
        finish-combine c' (h ∷ asked)
        ∙ ap (λ l. some (bodies (combine_bodies lru chain c' hs (map answer l)).0)) e
        ∙ ap (λ l. some (bodies l))
            (combine_bodies-map lru laws chain at answer m c' hs v d kept room)
