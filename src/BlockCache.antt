-- ===== src/BlockCache.antt =====
-- src/block_cache.rs: the block cache, four LRU caches under one lock, and its operations in memory.
-- A read returns the state too, since `LruCache::get` moves the entry to the front.
pub mod Ops
pub mod Coherence
pub mod Latest
pub mod Drain
pub mod InStep
pub mod Lost
pub mod File
use reth_sentry_node.Prelude.{
  ℕ, zero, suc, Bool, true, false, Option, none, some, List, [], ◌∷◌, leb, ◌==◌, if◌then◌else◌,
  ℕ_discrete,
}
use reth_sentry_node.Chain.{Chain}
use reth_sentry_node.Lru.{LruCrate}

abbrev pub default_cache_size : ℕ
default_cache_size = 256

module _ (lru : LruCrate) (chain : Chain) where
  open lru use {LruCache}
  open chain use {B256, Header, BlockBody}

  pub record CachedBlock : Type 0 where
    pub hash : B256
    pub header : Header
    pub body : BlockBody

  -- `BlockCache` with its `BlockCacheInner`.
  pub record BlockCache : Type 0 where
    pub headers_by_hash : LruCache B256 Header
    pub headers_by_number : LruCache ℕ Header
    pub hash_by_number : LruCache ℕ B256
    pub bodies_by_hash : LruCache B256 BlockBody
    pub capacity : ℕ

-- The item of the largest key; among equal keys the last one, as `Iterator::max_by_key`.
module _ {A : Type 0} (key : A → ℕ) where
  unfoldable pub larger : A → A → A
  larger best x = if leb (key best) (key x) then x else best

  unfoldable pub max_from : A → List A → A
  max_from best [] = best
  max_from best (x ∷ xs) = max_from (larger best x) xs

  unfoldable pub max_by_key : List A → Option A
  unfolding max_from
  max_by_key [] = none
  max_by_key (x ∷ xs) = some (max_from x xs)

  -- The stable sort of `sort_by_key`.
  unfoldable pub insert_by_key : A → List A → List A
  insert_by_key x [] = x ∷ []
  insert_by_key x (y ∷ ys) =
      let rest = insert_by_key x ys in if leb (key x) (key y) then x ∷ y ∷ ys else y ∷ rest

  unfoldable pub sort_by_key : List A → List A
  unfolding insert_by_key
  sort_by_key [] = []
  sort_by_key (x ∷ xs) = insert_by_key x (sort_by_key xs)

-- `filter_map` with the closure's option.
unfoldable pub filter_map {ℓ κ} : {A : Type ℓ} {B : Type κ} → (A → Option B) → List A → List B
filter_map f [] = []
filter_map f (x ∷ xs) = let rest = filter_map f xs in elim (f x) [ none ↦ rest | some b ↦ b ∷ rest ]

module _ (lru : LruCrate) (chain : Chain) where
  open lru use {LruCache}
  open chain use {B256, b256_eq, Header, number, BlockBody}

  -- `NonZeroUsize::new(capacity).unwrap_or(default_cache_size)`: the size of each LRU cache.
  unfoldable pub effective_capacity : ℕ → ℕ
  effective_capacity capacity = if capacity == 0 then default_cache_size else capacity

  unfoldable pub new : ℕ → BlockCache lru chain
  unfolding effective_capacity
  new capacity =
      let size = effective_capacity capacity in
      record {
        headers_by_hash = lru.new size;
        headers_by_number = lru.new size;
        hash_by_number = lru.new size;
        bodies_by_hash = lru.new size;
        capacity = capacity;
      }

  -- `insert_header`: a header alone, from a proxied response.
  unfoldable pub insert_header : BlockCache lru chain → B256 → Header → BlockCache lru chain
  insert_header c hash header = record c {
    headers_by_hash = lru.push b256_eq c.headers_by_hash hash header;
    headers_by_number = lru.push ℕ_discrete c.headers_by_number (number header) header;
    hash_by_number = lru.push ℕ_discrete c.hash_by_number (number header) hash;
  }

  -- `insert_body`: a body alone, from a proxied response.
  unfoldable pub insert_body : BlockCache lru chain → B256 → BlockBody → BlockCache lru chain
  insert_body c hash body = record c {
    bodies_by_hash = lru.push b256_eq c.bodies_by_hash hash body;
  }

  -- `insert`: header and body.
  unfoldable pub insert : BlockCache lru chain → B256 → Header → BlockBody → BlockCache lru chain
  insert c hash header body = record c {
    headers_by_hash = lru.push b256_eq c.headers_by_hash hash header;
    headers_by_number = lru.push ℕ_discrete c.headers_by_number (number header) header;
    hash_by_number = lru.push ℕ_discrete c.hash_by_number (number header) hash;
    bodies_by_hash = lru.push b256_eq c.bodies_by_hash hash body;
  }

  unfoldable pub get_header_by_hash :
      BlockCache lru chain → B256 → Option Header × BlockCache lru chain
  get_header_by_hash c hash =
      let (found, cache) = lru.get b256_eq c.headers_by_hash hash in
      (found, record c { headers_by_hash = cache })

  unfoldable pub get_header_by_number :
      BlockCache lru chain → ℕ → Option Header × BlockCache lru chain
  get_header_by_number c n =
      let (found, cache) = lru.get ℕ_discrete c.headers_by_number n in
      (found, record c { headers_by_number = cache })

  unfoldable pub get_body_by_hash :
      BlockCache lru chain → B256 → Option BlockBody × BlockCache lru chain
  get_body_by_hash c hash =
      let (found, cache) = lru.get b256_eq c.bodies_by_hash hash in
      (found, record c { bodies_by_hash = cache })

  unfoldable pub get_hash_by_number : BlockCache lru chain → ℕ → Option B256 × BlockCache lru chain
  get_hash_by_number c n =
      let (found, cache) = lru.get ℕ_discrete c.hash_by_number n in
      (found, record c { hash_by_number = cache })

  -- The closure of `latest`: the header that is cached under the number, without a use of it.
  unfoldable pub with_header : BlockCache lru chain → ℕ × B256 → Option (B256 × Header)
  with_header c (num, hash) = elim (lru.peek ℕ_discrete c.headers_by_number num) [
    | none ↦ none
    | some h ↦ some (hash, h)
  ]

  unfoldable pub latest : BlockCache lru chain → Option (B256 × Header)
  latest c = elim (max_by_key (λ (e : ℕ × B256). e.0) (lru.iter c.hash_by_number)) [
    | none ↦ none
    | some e ↦ with_header c e
  ]

  -- The closure of `drain_blocks`.
  unfoldable pub cached_block : BlockCache lru chain → ℕ × B256 → Option (CachedBlock lru chain)
  cached_block c (num, hash) = elim (lru.peek ℕ_discrete c.headers_by_number num) [
    | none ↦ none
    | some header ↦ elim (lru.peek b256_eq c.bodies_by_hash hash) [
      | none ↦ none
      | some body ↦ some (record { hash = hash; header = header; body = body })
    ]
  ]

  unfoldable pub drain_blocks : BlockCache lru chain → List (CachedBlock lru chain)
  drain_blocks c =
      sort_by_key (λ b. number b.header) (filter_map (cached_block c) (lru.iter c.hash_by_number))
