-- ===== src/EthProxy/Bound.antt =====
-- src/eth_proxy.rs: a walk visits no number twice, so what the cache answers is bounded by its size
-- whatever the request's limit.
use reth_sentry_node.Prelude.{
  ℕ, suc, ◌+◌, ◌≤◌, ◌<◌, ◌≡◌, ◌≢◌, refl, sym, ap, ◌∙◌, true, false, Option, some, List, [], ◌∷◌,
  map, arith, length, lookup, ◌==◌, if◌then◌else◌, ℕ_discrete, All, OfSome-intro, is_some,
}
use reth_sentry_node.Chain.{Chain}
use reth_sentry_node.Lru.{LruCrate, IsLawful}
use reth_sentry_node.Lru.Laws
use reth_sentry_node.Lru.Keys.{seen, keys, IsNodup, length-le_of_seen, is_some-lookup-seen}
use reth_sentry_node.BlockCache.{new, effective_capacity}
use reth_sentry_node.BlockCache.Ops.{Op, run, new-IsValid, run-IsValid}
use reth_sentry_node.BlockCache.Coherence.{IsSound, run_new-IsCoherent}
use reth_sentry_node.EthProxy.{
  Direction, rising, falling, advance, GetBlockHeaders, resolve_headers_from_cache,
}
use reth_sentry_node.EthProxy.Headers.{
  walk, IsWalk, walk-IsWalk, walk-All-at, length-walk-le, header_of, first_number,
  resolve_headers_from_cache-walk,
}

-- `b` comes after `a` in a direction.
abbrev IsAhead : Direction → ℕ → ℕ → Type 0
IsAhead rising a b = a < b
IsAhead falling a b = b < a

advance-IsAhead :
    (dir : Direction) (a step : ℕ) {b : ℕ}
    → 0 < step
    → advance dir a step ≡ some b
    → IsAhead dir a b
unfolding advance
advance-IsAhead rising a step h e = ground arith
advance-IsAhead falling a step h e = ground arith

IsAhead-trans : (dir : Direction) (a b c : ℕ) → IsAhead dir a b → IsAhead dir b c → IsAhead dir a c
IsAhead-trans rising a b c h k = omega arith
IsAhead-trans falling a b c h k = omega arith

IsAhead-ne : (dir : Direction) (a b : ℕ) → IsAhead dir a b → a ≢ b
IsAhead-ne rising a b h = omega arith
IsAhead-ne falling a b h = omega arith

module _ {H : Type 0} (number : H → ℕ) (dir : Direction) (step : ℕ) (pos : 0 < step) where
  All-IsAhead :
      (a b : ℕ) (xs : List H)
      → IsAhead dir a b
      → All (λ x. IsAhead dir b (number x)) xs
      → All (λ x. IsAhead dir a (number x)) xs
  All-IsAhead a b [] h all = tt
  All-IsAhead a b (x ∷ xs) h all =
      (IsAhead-trans dir a b (number x) h all.0, All-IsAhead a b xs h all.1)

  walk-All-IsAhead :
      (n : ℕ) (xs : List H)
      → IsWalk number dir step (advance dir n step) xs
      → All (λ x. IsAhead dir n (number x)) xs
  walk-All-IsAhead n [] w = tt
  walk-All-IsAhead n (x ∷ xs) w =
      let first = advance-IsAhead dir n step pos w.0 in
      (first, All-IsAhead n (number x) xs first (walk-All-IsAhead (number x) xs w.1))

  unseen :
      (n : ℕ) (xs : List H)
      → All (λ x. IsAhead dir n (number x)) xs
      → seen ℕ_discrete n (map number xs) ≡ false
  unfolding seen
  unseen n [] all = refl
  unseen n (x ∷ xs) all = ground (arith, IsAhead-ne dir n (number x) all.0, unseen n xs all.1)

  walk-IsNodup :
      (current : Option ℕ) (xs : List H)
      → IsWalk number dir step current xs
      → IsNodup ℕ_discrete (map number xs)
  walk-IsNodup current [] w = tt
  walk-IsNodup current (x ∷ xs) w = (
    unseen (number x) xs (walk-All-IsAhead (number x) xs w.1),
    walk-IsNodup (advance dir (number x) step) xs w.1,
  )

length-map-eq {ℓ κ} :
    {A : Type ℓ} {B : Type κ} (f : A → B) (l : List A) → length (map f l) ≡ length l
length-map-eq f [] = refl
length-map-eq f (x ∷ l) = ap suc (length-map-eq f l)

All-seen-keys :
    {H : Type 0} (number : H → ℕ) (l : List (ℕ × H)) (xs : List H)
    → All (λ x. lookup ℕ_discrete (number x) l ≡ some x) xs
    → All (λ n. seen ℕ_discrete n (keys ℕ_discrete l) ≡ true) (map number xs)
All-seen-keys number l [] all = tt
All-seen-keys number l (x ∷ xs) all = (
  sym (is_some-lookup-seen ℕ_discrete (number x) l) ∙ ap is_some all.0,
  All-seen-keys number l xs all.1,
)

module _ (lru : LruCrate) (laws : IsLawful lru) (chain : Chain)
    (P : chain.B256 → chain.Header → Type 0) (Q : chain.B256 → chain.BlockBody → Type 0) where
  open chain use {number}

  -- After any operations on a new cache, as for `run-reads`: the headers that are resolved for a
  -- request have the numbers of the walk from its start block by `skip + 1` in its direction, they are
  -- at most its limit, and they are at most the capacity of the cache, 256 for a capacity of 0.
  pub resolve_headers_from_cache-IsWalk :
      (capacity : ℕ) (ops : List (Op chain)) (request : GetBlockHeaders chain)
      → All (IsSound lru chain P Q) ops
      → IsWalk number request.direction
          (request.skip + 1)
          (first_number lru chain (run lru chain (new lru chain capacity) ops) request.start_block)
          (resolve_headers_from_cache lru chain
            (run lru chain (new lru chain capacity) ops)
            request).0
        × (length
              (resolve_headers_from_cache lru chain
                (run lru chain (new lru chain capacity) ops)
                request).0
            ≤ request.limit)
        × (length
              (resolve_headers_from_cache lru chain
                (run lru chain (new lru chain capacity) ops)
                request).0
            ≤ (if capacity == 0 then 256 else capacity))
  unfolding effective_capacity
  resolve_headers_from_cache-IsWalk capacity ops request s =
      let c = run lru chain (new lru chain capacity) ops in
      let v =
        run-IsValid lru laws chain (new lru chain capacity) ops
          (new-IsValid lru laws chain capacity) in
      let co = run_new-IsCoherent lru laws chain P Q capacity ops s in
      let at = header_of lru chain c in
      let first = first_number lru chain c request.start_block in
      let own = λ (n : ℕ). OfSome-intro (λ x. number x ≡ n) (at n) (co.header_at_number n) in
      let step = request.skip + 1 in
      let dir = request.direction in
      let xs = walk request.limit dir step first at in
      let w = walk-IsWalk number dir step at own request.limit first in
      let l = lru.iter c.headers_by_number in
      let there =
        All-seen-keys number l xs (walk-All-at number dir step at own request.limit first) in
      let few =
        length-le_of_seen ℕ_discrete (map number xs) (keys ℕ_discrete l)
          (walk-IsNodup number dir step (omega arith) first xs w) there in
      rw (resolve_headers_from_cache-walk lru laws chain c request) (
        w,
        length-walk-le number dir step at request.limit first,
        omega (
          arith,
          few,
          length-map-eq number xs,
          length-map-eq (λ (e : ℕ × chain.Header). e.0) l,
          Laws.length-iter-le lru ℕ_discrete v.headers_by_number,
        ),
      )
