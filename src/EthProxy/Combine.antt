-- ===== src/EthProxy/Combine.antt =====
-- src/eth_proxy.rs: cached and fetched bodies together are the reply, while no cached one is evicted meanwhile.
use reth_sentry_node.Prelude.{
  ℕ, suc, ◌+◌, ◌≤◌, ◌≡◌, refl, sym, ap, ◌∙◌, Option, List, [], ◌∷◌, map, arith, length, inl, inr,
  Option-cases,
}
use reth_sentry_node.Chain.{Chain}
use reth_sentry_node.Lru.{LruCrate, IsLawful}
use reth_sentry_node.Lru.Laws
use reth_sentry_node.Lru.Keys.{IsNodup}
use reth_sentry_node.BlockCache.{BlockCache, get_body_by_hash, insert_body}
use reth_sentry_node.EthProxy.{combine_bodies}
use reth_sentry_node.EthProxy.Front.{IsKept, get-IsKept, get_none-IsKept, insert-IsKept}
use reth_sentry_node.EthProxy.Bodies.{
  absent, or_answer, Reordered-get, combine_bodies-some, combine_bodies-none, absent-some,
  absent-none, or_answer-some, or_answer-none,
}

module _ (lru : LruCrate) (laws : IsLawful lru) (chain : Chain) where
  open chain use {B256, b256_eq, BlockBody}

  pub insert_body-IsSized :
      {n : ℕ} (c : BlockCache lru chain) (h : B256) (b : BlockBody)
      → Laws.IsSized lru b256_eq n c.bodies_by_hash
      → Laws.IsSized lru b256_eq n (insert_body lru chain c h b).bodies_by_hash
  unfolding insert_body
  insert_body-IsSized c h b v = Laws.push-IsSized lru laws b256_eq c.bodies_by_hash h b v

  module _ (at : B256 → Option BlockBody) (answer : B256 → BlockBody) where
    -- The bodies that are cached stay in front of those that are evicted.
    pub combine_bodies-map :
        {n : ℕ} (m : ℕ) (c : BlockCache lru chain) (hs : List B256)
        → Laws.IsSized lru b256_eq n c.bodies_by_hash
        → IsNodup b256_eq hs
        → IsKept lru laws chain at m c hs
        → m + length (absent at hs) ≤ n
        → (combine_bodies lru chain c hs (map answer (absent at hs))).0
          ≡ map (or_answer at answer) hs
    combine_bodies-map m c [] v d kept room = unfold combine_bodies in refl
    combine_bodies-map {n} m c (h ∷ hs) v d kept room =
        let c' = (get_body_by_hash lru chain c h).1 in
        let first = Reordered-get lru laws chain c h v in
        elim (Option-cases (at h)) [
          | inr (b, e) ↦
              let shorter = absent-some at h hs e in
              let ih =
                combine_bodies-map m c' hs first.valid d.1
                  (get-IsKept lru laws chain at m c h hs e d.0 kept.0 kept.1)
                  (omega (arith, room, ap length shorter)) in
              ap (λ l. (combine_bodies lru chain c (h ∷ hs) (map answer l)).0) shorter
              ∙ ap (λ r. r.0)
                  (combine_bodies-some lru laws chain c h hs (map answer (absent at hs))
                    (kept.0.0 ∙ e))
              ∙ ap (◌∷◌ b) ih
              ∙ ap (λ x. x ∷ map (or_answer at answer) hs) (sym (or_answer-some at answer h e))
          | inl e ↦
              let c'' = insert_body lru chain c' h (answer h) in
              let longer = absent-none at h hs e in
              let gone = kept.0.0 ∙ e in
              let fits : suc m ≤ lru.cap c'.bodies_by_hash =
                omega (arith, room, first.valid.capacity, ap length longer) in
              let ih =
                combine_bodies-map (suc m) c'' hs (insert_body-IsSized c' h (answer h) first.valid)
                  d.1
                  (insert-IsKept lru laws chain at m c' h (answer h) hs fits d.0
                    (get_none-IsKept lru laws chain at m c h hs gone kept.1))
                  (omega (arith, room, ap length longer)) in
              ap (λ l. (combine_bodies lru chain c (h ∷ hs) (map answer l)).0) longer
              ∙ ap (λ r. r.0)
                  (combine_bodies-none lru laws chain c h hs (answer h) (map answer (absent at hs))
                    gone)
              ∙ ap (◌∷◌ (answer h)) ih
              ∙ ap (λ x. x ∷ map (or_answer at answer) hs) (sym (or_answer-none at answer h e))
        ]
