-- ===== src/Dedup/Snoc.antt =====
-- src/dedup.rs: one more hash after a stream of hashes.
use reth_sentry_node.Prelude.{
  ◌≡◌, refl, ap, List, [], ◌∷◌, ◌++◌, if◌then◌else◌, Bool-cases, inl, inr,
}
use reth_sentry_node.Lru.{LruCrate}
use reth_sentry_node.Dedup.{TxDedup, check_and_insert, after, accepted}

module _ (lru : LruCrate) {B256 : Type 0} (b256_eq : Discrete B256) where
  pub after-snoc :
      (d : TxDedup lru B256) (hs : List B256) (h : B256)
      → after lru b256_eq d (hs ++ (h ∷ []))
        ≡ (check_and_insert lru b256_eq (after lru b256_eq d hs) h).state
  unfolding after
  after-snoc d [] h = refl
  after-snoc d (x ∷ hs) h = after-snoc (check_and_insert lru b256_eq d x).state hs h

  pub accepted-snoc :
      (d : TxDedup lru B256) (hs : List B256) (h : B256)
      → accepted lru b256_eq d (hs ++ (h ∷ []))
        ≡ accepted lru b256_eq d hs
          ++ (if (check_and_insert lru b256_eq (after lru b256_eq d hs) h).is_new
              then h ∷ []
              else [])
  unfolding after accepted
  accepted-snoc d [] h = refl
  accepted-snoc d (x ∷ hs) h = elim (Bool-cases (check_and_insert lru b256_eq d x).is_new) [
    | inl e ↦
        rw (e, accepted) (ap (◌∷◌ x) (accepted-snoc (check_and_insert lru b256_eq d x).state hs h))
    | inr e ↦ rw (e, accepted) (accepted-snoc (check_and_insert lru b256_eq d x).state hs h)
  ]
