-- ===== src/BlockCache/Drain.antt =====
-- src/block_cache.rs: `drain_blocks` returns the whole blocks of the cache in order of their numbers.
use reth_sentry_node.Prelude.{
  ℕ, suc, ◌≤◌, ◌≡◌, refl, sym, ◌∙◌, inl, inr, Option, some, List, [], ◌∷◌, arith, length,
  ℕ_discrete, if◌then◌else◌, All, lookup, leb, Option-cases, Bool-cases, OfSome, ◌==◌,
}
use reth_sentry_node.Chain.{Chain}
use reth_sentry_node.Lru.{LruCrate, IsLawful}
use reth_sentry_node.Lru.Laws
use reth_sentry_node.Lru.Assoc.{All-lookup}
use reth_sentry_node.BlockCache.{
  BlockCache, CachedBlock, new, insert_by_key, sort_by_key, filter_map, cached_block, drain_blocks,
  effective_capacity,
}
use reth_sentry_node.BlockCache.Ops.{Op, run, new-IsValid, run-IsValid}
use reth_sentry_node.BlockCache.Coherence.{IsSound, IsCoherent, run_new-IsCoherent}

module _ {A : Type 0} (key : A → ℕ) where
  abbrev pub IsSorted : List A → Type 0
  IsSorted [] = Unit
  IsSorted (x ∷ xs) = All (λ y. key x ≤ key y) xs × IsSorted xs

  All-weaken : (m n : ℕ) (xs : List A) → m ≤ n → All (λ y. n ≤ key y) xs → All (λ y. m ≤ key y) xs
  All-weaken m n [] h a = tt
  All-weaken m n (x ∷ xs) h a = (omega (arith, a.0), All-weaken m n xs h a.1)

  insert_by_key-All :
      (R : A → Type 0) (x : A) (xs : List A) → R x → All R xs → All R (insert_by_key key x xs)
  unfolding insert_by_key
  insert_by_key-All R x [] r a = (r, tt)
  insert_by_key-All R x (y ∷ ys) r a = elim (Bool-cases (leb (key x) (key y))) [
    | inl e ↦ rw (e, if◌then◌else◌) (r, a)
    | inr e ↦ rw (e, if◌then◌else◌) (a.0, insert_by_key-All R x ys r a.1)
  ]

  insert_by_key-IsSorted : (x : A) (xs : List A) → IsSorted xs → IsSorted (insert_by_key key x xs)
  unfolding insert_by_key
  insert_by_key-IsSorted x [] s = (tt, tt)
  insert_by_key-IsSorted x (y ∷ ys) s = elim (Bool-cases (leb (key x) (key y))) [
    | inl e ↦
        let le : key x ≤ key y = ground arith in
        rw (e, if◌then◌else◌) ((le, All-weaken (key x) (key y) ys le s.0), s)
    | inr e ↦
        rw (e, if◌then◌else◌)
          (
            insert_by_key-All (λ z. key y ≤ key z) x ys (ground arith) s.0,
            insert_by_key-IsSorted x ys s.1,
          )
  ]

  pub sort_by_key-All : (R : A → Type 0) (xs : List A) → All R xs → All R (sort_by_key key xs)
  unfolding sort_by_key
  sort_by_key-All R [] a = tt
  sort_by_key-All R (x ∷ xs) a =
      insert_by_key-All R x (sort_by_key key xs) a.0 (sort_by_key-All R xs a.1)

  pub sort_by_key-IsSorted : (xs : List A) → IsSorted (sort_by_key key xs)
  unfolding sort_by_key
  sort_by_key-IsSorted [] = tt
  sort_by_key-IsSorted (x ∷ xs) =
      insert_by_key-IsSorted x (sort_by_key key xs) (sort_by_key-IsSorted xs)

  length-insert_by_key : (x : A) (xs : List A) → length (insert_by_key key x xs) ≡ suc (length xs)
  unfolding insert_by_key
  length-insert_by_key x [] = refl
  length-insert_by_key x (y ∷ ys) = elim (Bool-cases (leb (key x) (key y))) [
    | inl e ↦ rw (e, if◌then◌else◌) refl
    | inr e ↦ rw (e, if◌then◌else◌) (omega (arith, length-insert_by_key x ys))
  ]

  pub length-sort_by_key : (xs : List A) → length (sort_by_key key xs) ≡ length xs
  unfolding sort_by_key
  length-sort_by_key [] = refl
  length-sort_by_key (x ∷ xs) =
      omega (arith, length-insert_by_key x (sort_by_key key xs), length-sort_by_key xs)

module _ {A B : Type 0} (f : A → Option B) where
  filter_map-All :
      (R : B → Type 0) (S : A → Type 0) (xs : List A)
      → ((a : A) → S a → OfSome R (f a))
      → All S xs
      → All R (filter_map f xs)
  unfolding filter_map
  filter_map-All R S [] h a = tt
  filter_map-All R S (x ∷ xs) h a = elim (Option-cases (f x)) [
    | inl e ↦ rw (e, filter_map) (filter_map-All R S xs h a.1)
    | inr (b, e) ↦ rw (e, filter_map) (rw e at (h x a.0), filter_map-All R S xs h a.1)
  ]

  length-filter_map-le : (xs : List A) → length (filter_map f xs) ≤ length xs
  unfolding filter_map
  length-filter_map-le [] = omega arith
  length-filter_map-le (x ∷ xs) = elim (Option-cases (f x)) [
    | inl e ↦ rw (e, filter_map) (omega (arith, length-filter_map-le xs))
    | inr (b, e) ↦ rw (e, filter_map) (omega (arith, length-filter_map-le xs))
  ]

module _ (lru : LruCrate) (laws : IsLawful lru) (chain : Chain)
    (P : chain.B256 → chain.Header → Type 0) (Q : chain.B256 → chain.BlockBody → Type 0) where
  open chain use {B256, b256_eq, Header, number, BlockBody}

  cached_block-OfSome :
      (c : BlockCache lru chain) (e : ℕ × B256)
      → IsCoherent lru chain P Q c
      → lookup ℕ_discrete e.0 (lru.iter c.hash_by_number) ≡ some e.1
      → OfSome (λ b. P b.hash b.header × Q b.hash b.body) (cached_block lru chain c e)
  unfolding cached_block
  cached_block-OfSome c e co found =
      elim (Option-cases (lru.peek ℕ_discrete c.headers_by_number e.0)) [
        | inl p ↦ rw (p, cached_block) tt
        | inr (x, p) ↦ elim (Option-cases (lru.peek b256_eq c.bodies_by_hash e.1)) [
          | inl q ↦ rw (p, q, cached_block) tt
          | inr (b, q) ↦
              rw (p, q, cached_block)
                (
                  co.hash_at_number e.0 e.1 x found
                      (sym (laws.peek-iter ℕ_discrete c.headers_by_number e.0) ∙ p),
                  co.body_at_hash e.1 b (sym (laws.peek-iter b256_eq c.bodies_by_hash e.1) ∙ q),
                )
        ]
      ]

  -- After any operations on a new cache, as for `run-reads`: the blocks of `drain_blocks` are in
  -- ascending order of their numbers, `P` holds of each one's hash and header and `Q` of its hash and
  -- body, and they are at most the capacity, 256 for a capacity of 0.
  pub run-drain_blocks :
      (capacity : ℕ) (ops : List (Op chain))
      → All (IsSound lru chain P Q) ops
      → IsSorted
          (λ (b : CachedBlock lru chain). number b.header)
          (drain_blocks lru chain (run lru chain (new lru chain capacity) ops))
        × All
            (λ b. P b.hash b.header × Q b.hash b.body)
            (drain_blocks lru chain (run lru chain (new lru chain capacity) ops))
        × (length (drain_blocks lru chain (run lru chain (new lru chain capacity) ops))
            ≤ (if capacity == 0 then 256 else capacity))
  unfolding drain_blocks effective_capacity
  run-drain_blocks capacity ops s =
      let c = run lru chain (new lru chain capacity) ops in
      let co = run_new-IsCoherent lru laws chain P Q capacity ops s in
      let v =
        run-IsValid lru laws chain (new lru chain capacity) ops
          (new-IsValid lru laws chain capacity) in
      let l = lru.iter c.hash_by_number in
      let found = All-lookup ℕ_discrete l v.hash_by_number.valid.distinct in
      let blocks = filter_map (cached_block lru chain c) l in
      let key = λ (b : CachedBlock lru chain). number b.header in
      (
        sort_by_key-IsSorted key blocks,
        sort_by_key-All key (λ b. P b.hash b.header × Q b.hash b.body) blocks
            (filter_map-All (cached_block lru chain c) _ _ l (λ e f. cached_block-OfSome c e co f)
              found),
        omega (
          arith,
          length-sort_by_key key blocks,
          length-filter_map-le (cached_block lru chain c) l,
          Laws.length-iter-le lru ℕ_discrete v.hash_by_number,
        ),
      )
