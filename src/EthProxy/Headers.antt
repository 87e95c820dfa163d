-- ===== src/EthProxy/Headers.antt =====
-- src/eth_proxy.rs: headers from the cache are a walk over block numbers by equal steps.
use reth_sentry_node.Prelude.{
  ℕ, zero, suc, ◌+◌, ◌≤◌, ◌≡◌, refl, sym, ap, ◌∙◌, Option, none, some, List, [], ◌∷◌, arith, length,
  inl, inr, ℕ_discrete, Option-cases, All, OfSome, OfSome-elim,
}
use reth_sentry_node.Chain.{Chain}
use reth_sentry_node.Lru.{LruCrate, IsLawful}
use reth_sentry_node.Lru.Laws
use reth_sentry_node.BlockCache.{BlockCache, get_header_by_hash, get_header_by_number}
use reth_sentry_node.EthProxy.{
  Direction, advance, BlockHashOrNumber, by_hash, by_number, GetBlockHeaders, walk_cache,
  start_number, resolve_headers_from_cache,
}

-- The walk over a fixed assignment of headers to numbers: up to `rounds` headers, until a number has
-- none or leaves the range of u64.
pub walk : {H : Type 0} → ℕ → Direction → ℕ → Option ℕ → (ℕ → Option H) → List H
walk zero dir step current at = []
walk (suc rounds) dir step none at = []
walk (suc rounds) dir step (some n) at = elim (at n) [
  | none ↦ []
  | some x ↦ x ∷ walk rounds dir step (advance dir n step) at
]

module _ (lru : LruCrate) (chain : Chain) where
  open chain use {B256, b256_eq, Header, number}

  -- The header that the cache holds for a number, and the number where a request starts.
  abbrev pub header_of : BlockCache lru chain → ℕ → Option Header
  header_of c n = Laws.entry lru ℕ_discrete c.headers_by_number n

  abbrev pub first_number : BlockCache lru chain → BlockHashOrNumber chain → Option ℕ
  first_number c (by_number n) = some n
  first_number c (by_hash h) = elim (Laws.entry lru b256_eq c.headers_by_hash h) [
    | none ↦ none
    | some x ↦ some (number x)
  ]

module _ (lru : LruCrate) (laws : IsLawful lru) (chain : Chain) where
  open chain use {B256, b256_eq, Header, number}

  found-header_of :
      (c : BlockCache lru chain) (n : ℕ)
      → (get_header_by_number lru chain c n).0 ≡ header_of lru chain c n
  unfolding get_header_by_number
  found-header_of c n = laws.get-iter ℕ_discrete c.headers_by_number n

  header_of-get :
      (c : BlockCache lru chain) (n m : ℕ)
      → header_of lru chain (get_header_by_number lru chain c n).1 m ≡ header_of lru chain c m
  unfolding get_header_by_number
  header_of-get c n m = Laws.entry-get lru laws ℕ_discrete c.headers_by_number n m

  module _ (dir : Direction) (step : ℕ) (at : ℕ → Option Header) where
    walk_cache-walk :
        (rounds : ℕ) (current : Option ℕ) (c : BlockCache lru chain)
        → ((n : ℕ) → header_of lru chain c n ≡ at n)
        → (walk_cache lru chain rounds dir step current c).0 ≡ walk rounds dir step current at
    unfolding walk_cache walk
    walk_cache-walk zero current c h = refl
    walk_cache-walk (suc rounds) none c h = refl
    walk_cache-walk (suc rounds) (some n) c h =
        let c' = (get_header_by_number lru chain c n).1 in
        elim (Option-cases (at n)) [
          | inl e ↦ rw (found-header_of c n ∙ h n ∙ e, e, walk_cache, walk) refl
          | inr (x, e) ↦
              rw (found-header_of c n ∙ h n ∙ e, e, walk_cache, walk)
                (ap (◌∷◌ x)
                  (walk_cache-walk rounds (advance dir n step) c' (λ m. header_of-get c n m ∙ h m)))
        ]

  start_number-first_number :
      (c : BlockCache lru chain) (s : BlockHashOrNumber chain)
      → (start_number lru chain c s).0 ≡ first_number lru chain c s
  unfolding start_number get_header_by_hash
  start_number-first_number c (by_number n) = refl
  start_number-first_number c (by_hash h) =
      ap (λ (o : Option Header). elim o [ none ↦ none | some x ↦ some (number x) ])
        (laws.get-iter b256_eq c.headers_by_hash h)

  header_of-start_number :
      (c : BlockCache lru chain) (s : BlockHashOrNumber chain) (n : ℕ)
      → header_of lru chain (start_number lru chain c s).1 n ≡ header_of lru chain c n
  unfolding start_number get_header_by_hash
  header_of-start_number c (by_number n) m = refl
  header_of-start_number c (by_hash h) m = refl

  -- For any cache, also when its reads reorder it: the headers that are resolved are a walk from the
  -- start block, by `skip + 1` numbers up or down, over the headers that the cache held before.
  pub resolve_headers_from_cache-walk :
      (c : BlockCache lru chain) (request : GetBlockHeaders chain)
      → (resolve_headers_from_cache lru chain c request).0
        ≡ walk request.limit request.direction
            (request.skip + 1)
            (first_number lru chain c request.start_block)
            (header_of lru chain c)
  unfolding resolve_headers_from_cache
  resolve_headers_from_cache-walk c request =
      let s = request.start_block in
      walk_cache-walk request.direction (request.skip + 1) (header_of lru chain c) request.limit
        (start_number lru chain c s).0 (start_number lru chain c s).1 (header_of-start_number c s)
      ∙ ap (λ t. walk request.limit request.direction (request.skip + 1) t (header_of lru chain c))
          (start_number-first_number c s)

-- Each header has the number that the walk is at.
module _ {H : Type 0} (number : H → ℕ) (dir : Direction) (step : ℕ) where
  abbrev pub IsWalk : Option ℕ → List H → Type 0
  IsWalk current [] = Unit
  IsWalk current (x ∷ xs) = (current ≡ some (number x)) × IsWalk (advance dir (number x) step) xs

  module _ (at : ℕ → Option H) (own : (n : ℕ) → OfSome (λ x. number x ≡ n) (at n)) where
    pub walk-IsWalk :
        (rounds : ℕ) (current : Option ℕ) → IsWalk current (walk rounds dir step current at)
    unfolding walk
    walk-IsWalk zero current = tt
    walk-IsWalk (suc rounds) none = tt
    walk-IsWalk (suc rounds) (some n) = elim (Option-cases (at n)) [
      | inl e ↦ rw (e, walk) tt
      | inr (x, e) ↦
          let same : number x ≡ n = OfSome-elim (λ x. number x ≡ n) (at n) (own n) e in
          rw (e, walk) (ap some (sym same), rw same (walk-IsWalk rounds (advance dir n step)))
    ]

    pub walk-All-at :
        (rounds : ℕ) (current : Option ℕ)
        → All (λ x. at (number x) ≡ some x) (walk rounds dir step current at)
    unfolding walk
    walk-All-at zero current = tt
    walk-All-at (suc rounds) none = tt
    walk-All-at (suc rounds) (some n) = elim (Option-cases (at n)) [
      | inl e ↦ rw (e, walk) tt
      | inr (x, e) ↦
          let same : number x ≡ n = OfSome-elim (λ x. number x ≡ n) (at n) (own n) e in
          rw (e, walk) (ap at same ∙ e, walk-All-at rounds (advance dir n step))
    ]

  pub length-walk-le :
      (at : ℕ → Option H) (rounds : ℕ) (current : Option ℕ)
      → length (walk rounds dir step current at) ≤ rounds
  unfolding walk
  length-walk-le at zero current = omega arith
  length-walk-le at (suc rounds) none = omega arith
  length-walk-le at (suc rounds) (some n) = elim (Option-cases (at n)) [
    | inl e ↦ rw (e, walk) (omega arith)
    | inr (x, e) ↦ rw (e, walk) (omega (arith, length-walk-le at rounds (advance dir n step)))
  ]
