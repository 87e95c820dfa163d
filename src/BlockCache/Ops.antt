-- ===== src/BlockCache/Ops.antt =====
-- src/block_cache.rs: every sequence of operations keeps the four LRU caches valid and bounded.
use reth_sentry_node.Prelude.{
  ◌≡◌, refl, ◌++◌, ℕ, ◌≤◌, ◌<◌, List, [], ◌∷◌, arith, length, ℕ_discrete, ◌==◌, if◌then◌else◌,
}
use reth_sentry_node.Chain.{Chain}
use reth_sentry_node.Lru.{LruCrate, IsLawful}
use reth_sentry_node.Lru.Laws
use reth_sentry_node.BlockCache
use reth_sentry_node.BlockCache.{BlockCache, effective_capacity, new}

-- A call of one of the operations that change the cache's state.
pub data Op (chain : Chain) : Type 0 where
  insert : chain.B256 → chain.Header → chain.BlockBody → Op chain
  insert_header : chain.B256 → chain.Header → Op chain
  insert_body : chain.B256 → chain.BlockBody → Op chain
  get_header_by_hash : chain.B256 → Op chain
  get_header_by_number : ℕ → Op chain
  get_body_by_hash : chain.B256 → Op chain
  get_hash_by_number : ℕ → Op chain

module _ (lru : LruCrate) (chain : Chain) where
  unfoldable pub apply : BlockCache lru chain → Op chain → BlockCache lru chain
  apply c (insert hash header body) = BlockCache.insert lru chain c hash header body
  apply c (insert_header hash header) = BlockCache.insert_header lru chain c hash header
  apply c (insert_body hash body) = BlockCache.insert_body lru chain c hash body
  apply c (get_header_by_hash hash) = (BlockCache.get_header_by_hash lru chain c hash).1
  apply c (get_header_by_number n) = (BlockCache.get_header_by_number lru chain c n).1
  apply c (get_body_by_hash hash) = (BlockCache.get_body_by_hash lru chain c hash).1
  apply c (get_hash_by_number n) = (BlockCache.get_hash_by_number lru chain c n).1

  unfoldable pub run : BlockCache lru chain → List (Op chain) → BlockCache lru chain
  run c [] = c
  run c (op ∷ ops) = run (apply c op) ops

  pub run-append :
      (c : BlockCache lru chain) (ops more : List (Op chain))
      → run c (ops ++ more) ≡ run (run c ops) more
  unfolding run
  run-append c [] more = refl
  run-append c (op ∷ ops) more = run-append (apply c op) ops more

  -- Each of the four caches is valid and has the capacity `n`.
  pub record IsValid (n : ℕ) (c : BlockCache lru chain) : Type 0 where
    pub headers_by_hash : Laws.IsSized lru chain.b256_eq n c.headers_by_hash
    pub headers_by_number : Laws.IsSized lru ℕ_discrete n c.headers_by_number
    pub hash_by_number : Laws.IsSized lru ℕ_discrete n c.hash_by_number
    pub bodies_by_hash : Laws.IsSized lru chain.b256_eq n c.bodies_by_hash

  -- No cache holds more than `n` entries.
  pub record IsBounded (n : ℕ) (c : BlockCache lru chain) : Type 0 where
    pub headers_by_hash : length (lru.iter c.headers_by_hash) ≤ n
    pub headers_by_number : length (lru.iter c.headers_by_number) ≤ n
    pub hash_by_number : length (lru.iter c.hash_by_number) ≤ n
    pub bodies_by_hash : length (lru.iter c.bodies_by_hash) ≤ n

module _ (lru : LruCrate) (laws : IsLawful lru) (chain : Chain) where
  open chain use {b256_eq, number}

  effective_capacity-pos : (capacity : ℕ) → 0 < effective_capacity lru chain capacity
  unfolding effective_capacity
  effective_capacity-pos capacity = ground arith

  pub new-IsValid :
      (capacity : ℕ)
      → IsValid lru chain (effective_capacity lru chain capacity) (new lru chain capacity)
  unfolding new
  new-IsValid capacity =
      let n = effective_capacity lru chain capacity in
      let p = effective_capacity-pos capacity in
      record {
        headers_by_hash = Laws.new-IsSized lru laws b256_eq n p;
        headers_by_number = Laws.new-IsSized lru laws ℕ_discrete n p;
        hash_by_number = Laws.new-IsSized lru laws ℕ_discrete n p;
        bodies_by_hash = Laws.new-IsSized lru laws b256_eq n p;
      }

  pub apply-IsValid :
      {n : ℕ} (c : BlockCache lru chain) (op : Op chain)
      → IsValid lru chain n c
      → IsValid lru chain n (apply lru chain c op)
  unfolding apply BlockCache.insert
  apply-IsValid c (insert hash header body) v = record {
    headers_by_hash =
        Laws.push-IsSized lru laws b256_eq c.headers_by_hash hash header v.headers_by_hash;
    headers_by_number =
        Laws.push-IsSized lru laws ℕ_discrete c.headers_by_number (number header) header
          v.headers_by_number;
    hash_by_number =
        Laws.push-IsSized lru laws ℕ_discrete c.hash_by_number (number header) hash
          v.hash_by_number;
    bodies_by_hash = Laws.push-IsSized lru laws b256_eq c.bodies_by_hash hash body v.bodies_by_hash;
  }
  apply-IsValid c (insert_header hash header) v =
      unfold BlockCache.insert_header in
      record {
        headers_by_hash =
            Laws.push-IsSized lru laws b256_eq c.headers_by_hash hash header v.headers_by_hash;
        headers_by_number =
            Laws.push-IsSized lru laws ℕ_discrete c.headers_by_number (number header) header
              v.headers_by_number;
        hash_by_number =
            Laws.push-IsSized lru laws ℕ_discrete c.hash_by_number (number header) hash
              v.hash_by_number;
        bodies_by_hash = v.bodies_by_hash;
      }
  apply-IsValid c (insert_body hash body) v =
      unfold BlockCache.insert_body in
      record {
        headers_by_hash = v.headers_by_hash;
        headers_by_number = v.headers_by_number;
        hash_by_number = v.hash_by_number;
        bodies_by_hash =
            Laws.push-IsSized lru laws b256_eq c.bodies_by_hash hash body v.bodies_by_hash;
      }
  apply-IsValid c (get_header_by_hash hash) v =
      unfold BlockCache.get_header_by_hash in
      record {
        headers_by_hash =
            Laws.get-IsSized lru laws b256_eq c.headers_by_hash hash v.headers_by_hash;
        headers_by_number = v.headers_by_number;
        hash_by_number = v.hash_by_number;
        bodies_by_hash = v.bodies_by_hash;
      }
  apply-IsValid c (get_header_by_number n) v =
      unfold BlockCache.get_header_by_number in
      record {
        headers_by_hash = v.headers_by_hash;
        headers_by_number =
            Laws.get-IsSized lru laws ℕ_discrete c.headers_by_number n v.headers_by_number;
        hash_by_number = v.hash_by_number;
        bodies_by_hash = v.bodies_by_hash;
      }
  apply-IsValid c (get_body_by_hash hash) v =
      unfold BlockCache.get_body_by_hash in
      record {
        headers_by_hash = v.headers_by_hash;
        headers_by_number = v.headers_by_number;
        hash_by_number = v.hash_by_number;
        bodies_by_hash = Laws.get-IsSized lru laws b256_eq c.bodies_by_hash hash v.bodies_by_hash;
      }
  apply-IsValid c (get_hash_by_number n) v =
      unfold BlockCache.get_hash_by_number in
      record {
        headers_by_hash = v.headers_by_hash;
        headers_by_number = v.headers_by_number;
        hash_by_number = Laws.get-IsSized lru laws ℕ_discrete c.hash_by_number n v.hash_by_number;
        bodies_by_hash = v.bodies_by_hash;
      }

  pub run-IsValid :
      {n : ℕ} (c : BlockCache lru chain) (ops : List (Op chain))
      → IsValid lru chain n c
      → IsValid lru chain n (run lru chain c ops)
  unfolding run
  run-IsValid c [] v = v
  run-IsValid c (op ∷ ops) v = run-IsValid (apply lru chain c op) ops (apply-IsValid c op v)

  bounded : {n : ℕ} {c : BlockCache lru chain} → IsValid lru chain n c → IsBounded lru chain n c
  bounded v = record {
    headers_by_hash = Laws.length-iter-le lru b256_eq v.headers_by_hash;
    headers_by_number = Laws.length-iter-le lru ℕ_discrete v.headers_by_number;
    hash_by_number = Laws.length-iter-le lru ℕ_discrete v.hash_by_number;
    bodies_by_hash = Laws.length-iter-le lru b256_eq v.bodies_by_hash;
  }

  -- From `BlockCache::new`, after any operations: each of the four LRU caches holds at most the given
  -- capacity of entries, 256 for a capacity of 0.
  pub run-IsBounded :
      (capacity : ℕ) (ops : List (Op chain))
      → IsBounded lru chain
          (if capacity == 0 then 256 else capacity)
          (run lru chain (new lru chain capacity) ops)
  unfolding effective_capacity
  run-IsBounded capacity ops = bounded (run-IsValid _ ops (new-IsValid capacity))
