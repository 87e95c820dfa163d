-- ===== src/BlockCache/Latest.antt =====
-- src/block_cache.rs: what `latest` and `drain_blocks` return.
use reth_sentry_node.Prelude.{
  ℕ, ◌≤◌, ◌≡◌, sym, ◌∙◌, inl, inr, Option, none, some, List, [], ◌∷◌, arith, ℕ_discrete,
  if◌then◌else◌, All, lookup, OfSome, OfSome-map, leb, Option-cases, Bool-cases,
}
use reth_sentry_node.Chain.{Chain}
use reth_sentry_node.Lru.{LruCrate, IsLawful}
use reth_sentry_node.Lru.Assoc.{All-lookup}
use reth_sentry_node.BlockCache.{BlockCache, new, larger, max_from, max_by_key, with_header, latest}
use reth_sentry_node.BlockCache.Ops.{Op, run, new-IsValid, run-IsValid}
use reth_sentry_node.BlockCache.Coherence.{IsSound, IsCoherent, run_new-IsCoherent}

module _ {A : Type 0} (key : A → ℕ) where
  larger-ge :
      (best x : A) → (key best ≤ key (larger key best x)) × (key x ≤ key (larger key best x))
  unfolding larger
  larger-ge best x = ground arith

  larger-All : (R : A → Type 0) (best x : A) → R best → R x → R (larger key best x)
  unfolding larger
  larger-All R best x rb rx = elim (Bool-cases (leb (key best) (key x))) [
    | inl e ↦ rw (e, if◌then◌else◌) rx
    | inr e ↦ rw (e, if◌then◌else◌) rb
  ]

  pub max_from-ge :
      (best : A) (xs : List A)
      → (key best ≤ key (max_from key best xs)) × All (λ x. key x ≤ key (max_from key best xs)) xs
  unfolding max_from
  max_from-ge best [] = (omega arith, tt)
  max_from-ge best (x ∷ xs) =
      let ih = max_from-ge (larger key best x) xs in
      (omega (arith, larger-ge best x, ih.0), (omega (arith, larger-ge best x, ih.0), ih.1))

  max_from-All :
      (R : A → Type 0) (best : A) (xs : List A) → R best → All R xs → R (max_from key best xs)
  unfolding max_from
  max_from-All R best [] r a = r
  max_from-All R best (x ∷ xs) r a =
      max_from-All R (larger key best x) xs (larger-All R best x r a.0) a.1

  -- The maximum is an item, and no item has a larger key.
  pub max_by_key-OfSome :
      (R : A → Type 0) (xs : List A)
      → All R xs
      → OfSome (λ m. R m × All (λ x. key x ≤ key m) xs) (max_by_key key xs)
  unfolding max_by_key
  max_by_key-OfSome R [] a = tt
  max_by_key-OfSome R (x ∷ xs) a =
      let (first, rest) = max_from-ge x xs in (max_from-All R x xs a.0 a.1, (first, rest))

module _ (lru : LruCrate) (laws : IsLawful lru) (chain : Chain)
    (P : chain.B256 → chain.Header → Type 0) (Q : chain.B256 → chain.BlockBody → Type 0) where
  open chain use {B256, b256_eq, Header, number, BlockBody}

  -- The closure of `latest` at an item of the cache.
  with_header-OfSome :
      (c : BlockCache lru chain) (e : ℕ × B256)
      → IsCoherent lru chain P Q c
      → lookup ℕ_discrete e.0 (lru.iter c.hash_by_number) ≡ some e.1
      → OfSome (λ r. P r.0 r.1 × (number r.1 ≡ e.0)) (with_header lru chain c e)
  unfolding with_header
  with_header-OfSome c e co found =
      elim (Option-cases (lru.peek ℕ_discrete c.headers_by_number e.0)) [
        | inl p ↦ rw (p, with_header) tt
        | inr (x, p) ↦
            let there = sym (laws.peek-iter ℕ_discrete c.headers_by_number e.0) ∙ p in
            rw (p, with_header)
              (co.hash_at_number e.0 e.1 x found there, co.header_at_number e.0 x there)
      ]

  of_max :
      (c : BlockCache lru chain) (m : Option (ℕ × B256))
      → IsCoherent lru chain P Q c
      → OfSome
          (λ e.
            (lookup ℕ_discrete e.0 (lru.iter c.hash_by_number) ≡ some e.1)
            × All (λ (x : ℕ × B256). x.0 ≤ e.0) (lru.iter c.hash_by_number))
          m
      → OfSome
          (λ r. P r.0 r.1 × All (λ (x : ℕ × B256). x.0 ≤ number r.1) (lru.iter c.hash_by_number))
          (elim m [ none ↦ none | some e ↦ with_header lru chain c e ])
  of_max c none co h = tt
  of_max c (some e) co h =
      OfSome-map (λ r p. (p.0, rw p.1 h.1)) (with_header lru chain c e)
        (with_header-OfSome c e co h.0)

  -- After any operations on a new cache, as for `run-reads`: if `latest` returns a hash and a header,
  -- then `P` holds of them, and no block number that the cache has a hash for is above the header's.
  pub latest-max :
      (capacity : ℕ) (ops : List (Op chain))
      → All (IsSound lru chain P Q) ops
      → OfSome
          (λ e.
            P e.0 e.1
            × All
                (λ m. m.0 ≤ number e.1)
                (lru.iter (run lru chain (new lru chain capacity) ops).hash_by_number))
          (latest lru chain (run lru chain (new lru chain capacity) ops))
  unfolding latest
  latest-max capacity ops s =
      let c = run lru chain (new lru chain capacity) ops in
      let co = run_new-IsCoherent lru laws chain P Q capacity ops s in
      let v =
        run-IsValid lru laws chain (new lru chain capacity) ops
          (new-IsValid lru laws chain capacity) in
      let found =
        All-lookup ℕ_discrete (lru.iter c.hash_by_number) v.hash_by_number.valid.distinct in
      of_max c _ co (max_by_key-OfSome (λ (e : ℕ × B256). e.0) _ (lru.iter c.hash_by_number) found)
