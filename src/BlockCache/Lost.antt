-- ===== src/BlockCache/Lost.antt =====
-- src/block_cache.rs: a class of inputs on which `latest` finds nothing in a cache that holds blocks.
use reth_sentry_node.Prelude.{
  ℕ, ◌<◌, ◌≡◌, ◌≢◌, refl, ap, ◌∙◌, none, some, [], ◌∷◌, arith, ℕ_discrete, lookup, if_pos,
}
use reth_sentry_node.Chain.{Chain}
use reth_sentry_node.Lru.{LruCrate, IsLawful}
use reth_sentry_node.Lru.Assoc.{without, to_front}
use reth_sentry_node.BlockCache.{
  BlockCache, new, max_by_key, larger, with_header, latest, insert, get_header_by_number,
}

-- A cache of two entries: three pushes of different keys, and a use of the first key.
module _ (lru : LruCrate) (laws : IsLawful lru) {V : Type 0} (i j k : ℕ) (u v w : V) where
  open lru use {LruCache, iter, cap, push, get}

  two : LruCache ℕ V
  two = push ℕ_discrete (push ℕ_discrete (lru.new 2) i u) j v

  cap-two : cap two ≡ 2
  unfolding two
  cap-two = laws.cap-push ℕ_discrete _ j v ∙ laws.cap-push ℕ_discrete _ i u ∙ laws.cap-new 2

  iter-two : i ≢ j → iter two ≡ (j, v) ∷ (i, u) ∷ []
  unfolding two without
  iter-two ne =
      rw (laws.iter-push, laws.cap-push, laws.cap-new, laws.iter-push, laws.cap-new, laws.iter-new)
        (ground arith)

  iter-get_two : i ≢ j → iter (get ℕ_discrete two i).1 ≡ (i, u) ∷ (j, v) ∷ []
  unfolding to_front without lookup
  iter-get_two ne = rw (laws.iter-get, iter-two ne) (ground arith)

  iter-third :
      (c : LruCache ℕ V) {p q : ℕ × V}
      → cap c ≡ 2
      → iter c ≡ p ∷ q ∷ []
      → k ≢ p.0
      → k ≢ q.0
      → iter (push ℕ_discrete c k w) ≡ (k, w) ∷ p ∷ []
  unfolding without
  iter-third c size there np nq = rw (laws.iter-push, size, there) (ground arith)

max_two :
    {A : Type 0} (k j : ℕ) (x y : A)
    → k < j
    → max_by_key (λ (e : ℕ × A). e.0) ((k, x) ∷ (j, y) ∷ []) ≡ some (j, y)
unfolding max_by_key larger
max_two k j x y h = ground arith

lookup-two_none :
    {V : Type 0} {k i : ℕ} (j : ℕ) (x a : V)
    → k ≢ j
    → i ≢ j
    → lookup ℕ_discrete j ((k, x) ∷ (i, a) ∷ []) ≡ none
unfolding lookup
lookup-two_none j x a nk ni = ground arith

module _ (lru : LruCrate) (laws : IsLawful lru) (chain : Chain) where
  open chain use {B256, Header, number, BlockBody}

  with_header-none :
      (c : BlockCache lru chain) (j : ℕ) (h : B256)
      → lru.peek ℕ_discrete c.headers_by_number j ≡ none
      → with_header lru chain c (j, h) ≡ none
  unfolding with_header
  with_header-none c j h e = rw (e, with_header)

  latest-at :
      (c : BlockCache lru chain) {e : ℕ × B256}
      → max_by_key (λ (e : ℕ × B256). e.0) (lru.iter c.hash_by_number) ≡ some e
      → latest lru chain c ≡ with_header lru chain c e
  unfolding latest
  latest-at c h = rw (h, latest)

  latest-none :
      (c : BlockCache lru chain) (i j k : ℕ) {hx hb : B256} {x a : Header}
      → lru.iter c.hash_by_number ≡ (k, hx) ∷ (j, hb) ∷ []
      → lru.iter c.headers_by_number ≡ (k, x) ∷ (i, a) ∷ []
      → k < j
      → i ≢ j
      → latest lru chain c ≡ none
  latest-none c i j k {hx} {hb} {x} {a} hashes headers below other =
      let missing : lookup ℕ_discrete j ((k, x) ∷ (i, a) ∷ []) ≡ none =
        lookup-two_none j x a (omega arith) (omega arith) in
      latest-at c (ap (max_by_key (λ (e : ℕ × B256). e.0)) hashes ∙ max_two k j hx hb below)
      ∙ with_header-none c j hb (
          laws.peek-iter ℕ_discrete c.headers_by_number j
          ∙ ap (lookup ℕ_discrete j) headers
          ∙ missing)

  -- A new cache of capacity 2, two blocks, a read of the lower one by its number, and a third block
  -- below the second.
  abbrev pub reordered :
      B256 × Header × BlockBody
      → B256 × Header × BlockBody
      → B256 × Header × BlockBody
      → BlockCache lru chain
  reordered (ha, a, ba) (hb, b, bb) (hx, x, bx) =
      let c = insert lru chain (insert lru chain (new lru chain 2) ha a ba) hb b bb in
      insert lru chain (get_header_by_number lru chain c (number a)).1 hx x bx

  -- For any three blocks `a`, `b`, `x` with different numbers, `b` the highest: in a cache of capacity 2,
  -- insert `a` and `b`, read `a`'s header by its number and insert `x`. Then the cache holds the header
  -- of `x` under its number, and `latest` is none.
  pub latest-lost :
      (a b x : B256 × Header × BlockBody)
      → number a.1 < number b.1
      → number x.1 < number b.1
      → number x.1 ≢ number a.1
      → (latest lru chain (reordered a b x) ≡ none)
        × (lookup ℕ_discrete (number x.1) (lru.iter (reordered a b x).headers_by_number) ≡ some x.1)
  unfolding insert get_header_by_number new two
  latest-lost a b x hb hx ne =
      let i = number a.1 in
      let j = number b.1 in
      let k = number x.1 in
      let c = two lru laws i j k a.0 b.0 x.0 in
      let h = two lru laws i j k a.1 b.1 x.1 in
      let hashes =
        iter-third lru laws i j k a.0 b.0 x.0 c (cap-two lru laws i j k a.0 b.0 x.0)
          (iter-two lru laws i j k a.0 b.0 x.0 (omega arith)) (omega arith) (omega arith) in
      let headers =
        iter-third lru laws i j k a.1 b.1 x.1 (lru.get ℕ_discrete h i).1
          (laws.cap-get ℕ_discrete h i ∙ cap-two lru laws i j k a.1 b.1 x.1)
          (iter-get_two lru laws i j k a.1 b.1 x.1 (omega arith)) (omega arith) (omega arith) in
      (
        latest-none (reordered a b x) i j k hashes headers hx (omega arith),
        ap (lookup ℕ_discrete k) headers ∙ unfold lookup in if_pos (ℕ_discrete k k) refl _ _,
      )
