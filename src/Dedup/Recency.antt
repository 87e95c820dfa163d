-- ===== src/Dedup/Recency.antt =====
-- The specification of src/dedup.rs: the hashes seen so far, the most recent first, each once.
use reth_sentry_node.Prelude.{◌≤◌, List, [], ◌∷◌, arith, length, if◌then◌else◌}
use reth_sentry_node.Lru.Keys.{seen, remove, IsNodup, cons-remove-IsNodup, length-cons-remove-ge}

module _ {A : Type 0} (dec : Discrete A) where
  -- The hashes of a stream after `acc`, the most recently seen first.
  unfoldable pub recent : List A → List A → List A
  recent acc [] = acc
  recent acc (x ∷ xs) = recent (x ∷ remove dec x acc) xs

  -- The first occurrence of each hash of a stream, `acc` seen before.
  unfoldable pub first_seen : List A → List A → List A
  first_seen acc [] = []
  first_seen acc (x ∷ xs) =
      let rest = first_seen (x ∷ remove dec x acc) xs in if seen dec x acc then rest else x ∷ rest

  pub recent-IsNodup : (acc hs : List A) → IsNodup dec acc → IsNodup dec (recent acc hs)
  unfolding recent
  recent-IsNodup acc [] h = h
  recent-IsNodup acc (x ∷ hs) h =
      recent-IsNodup (x ∷ remove dec x acc) hs (cons-remove-IsNodup dec x acc h)

  pub length-recent-ge : (acc hs : List A) → IsNodup dec acc → length acc ≤ length (recent acc hs)
  unfolding recent
  length-recent-ge acc [] h = omega arith
  length-recent-ge acc (x ∷ hs) h = omega (
    arith,
    length-cons-remove-ge dec x acc h,
    length-recent-ge (x ∷ remove dec x acc) hs (cons-remove-IsNodup dec x acc h),
  )
