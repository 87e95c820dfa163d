-- ===== src/EthProxy/Front.antt =====
-- src/eth_proxy.rs: what a request reads stands in front of the other bodies in the cache, so that it is
-- not evicted while the request inserts as many bodies as it still misses.
use mathlib.Core.Path.{subst}
use reth_sentry_node.Prelude.{
  ℕ, zero, suc, ◌+◌, ◌≤◌, ◌≡◌, ◌≢◌, refl, sym, ap, ◌∙◌, Option, none, some, List, [], ◌∷◌, arith,
  length, take, lookup, All, true, false, if_pos, if_neg, Option-cases, inl, inr,
}
use reth_sentry_node.Chain.{Chain}
use reth_sentry_node.Lru.{LruCrate, IsLawful}
use reth_sentry_node.Lru.Laws
use reth_sentry_node.Lru.Keys.{seen}
use reth_sentry_node.Lru.Firsts.{take-take, lookup-take-without, lookup-take-without_front}
use reth_sentry_node.Lru.Assoc.{without, to_front, to_front_present, lookup-take}
use reth_sentry_node.BlockCache.{BlockCache, get_body_by_hash, insert_body}
use reth_sentry_node.EthProxy.{missing_hashes}
use reth_sentry_node.EthProxy.Bodies.{body_of, absent, absent-some, absent-none}

module _ (lru : LruCrate) (laws : IsLawful lru) (chain : Chain) where
  open chain use {B256, b256_eq, BlockBody}

  abbrev entries : BlockCache lru chain → List (B256 × BlockBody)
  entries c = lru.iter c.bodies_by_hash

  body_of-get :
      (c : BlockCache lru chain) (h j : B256)
      → body_of lru chain (get_body_by_hash lru chain c h).1 j ≡ body_of lru chain c j
  unfolding get_body_by_hash
  body_of-get c h j = Laws.entry-get lru laws b256_eq c.bodies_by_hash h j

  module _ (at : B256 → Option BlockBody) where
    -- A body that `at` has for a hash is among the first `m` of the cache.
    abbrev pub IsInFront : ℕ → BlockCache lru chain → B256 → Type 0
    IsInFront m c j =
        (b : BlockBody) → at j ≡ some b → lookup b256_eq j (take m (entries c)) ≡ some b

    entries-get :
        (c : BlockCache lru chain) (h : B256)
        → entries (get_body_by_hash lru chain c h).1 ≡ to_front b256_eq h (entries c)
    unfolding get_body_by_hash
    entries-get c h = laws.iter-get b256_eq c.bodies_by_hash h

    entries-insert :
        (c : BlockCache lru chain) (h : B256) (b : BlockBody)
        → entries (insert_body lru chain c h b)
          ≡ take (lru.cap c.bodies_by_hash) ((h, b) ∷ without b256_eq h (entries c))
    unfolding insert_body
    entries-insert c h b = laws.iter-push b256_eq c.bodies_by_hash h b

    -- A read that finds a body puts it in front, and moves the others back by one.
    get-IsInFront :
        (m : ℕ) (c : BlockCache lru chain) (h j : B256) {v : BlockBody}
        → body_of lru chain c h ≡ some v
        → body_of lru chain c h ≡ at h
        → IsInFront m c j
        → IsInFront (suc m) (get_body_by_hash lru chain c h).1 j
    unfolding lookup
    get-IsInFront m c h j {v} e same held b has =
        rw (entries-get c h, to_front_present b256_eq h (entries c) v e)
          (elim (b256_eq j h) [
            | yes p ↦ if_pos (b256_eq j h) p _ _ ∙ sym e ∙ same ∙ ap at (sym p) ∙ has
            | no p ↦
                if_neg (b256_eq j h) p _ _
                ∙ lookup-take-without b256_eq m h j (entries c) b (λ q. p (sym q)) (held b has)
          ])

    get_front-IsInFront :
        (m : ℕ) (c : BlockCache lru chain) (h j : B256) {v : BlockBody}
        → body_of lru chain c h ≡ some v
        → at h ≡ some v
        → h ≢ j
        → IsInFront m c h
        → IsInFront m c j
        → IsInFront m (get_body_by_hash lru chain c h).1 j
    unfolding lookup
    get_front-IsInFront zero c h j e same ne front held b has = let none_there = held b has in cc
    get_front-IsInFront (suc m) c h j {v} e same ne front held b has =
        rw (entries-get c h, to_front_present b256_eq h (entries c) v e)
          (if_neg (b256_eq j h) (λ q. ne (sym q)) _ _
            ∙ lookup-take-without_front b256_eq m h j (entries c) b v ne (front v same)
                (held b has))

    get_none-IsInFront :
        (m : ℕ) (c : BlockCache lru chain) (h j : B256)
        → body_of lru chain c h ≡ none
        → IsInFront m c j
        → IsInFront m (get_body_by_hash lru chain c h).1 j
    unfolding to_front
    get_none-IsInFront m c h j e held b has = rw (entries-get c h, to_front_absent) (held b has)
      where
        to_front_absent : to_front b256_eq h (entries c) ≡ entries c
        to_front_absent = rw (e, to_front) refl

    insert-IsInFront :
        (m : ℕ) (c : BlockCache lru chain) (h j : B256) (x : BlockBody)
        → suc m ≤ lru.cap c.bodies_by_hash
        → h ≢ j
        → IsInFront m c j
        → IsInFront (suc m) (insert_body lru chain c h x) j
    unfolding lookup
    insert-IsInFront m c h j x room ne held b has =
        ap (λ l. lookup b256_eq j (take (suc m) l)) (entries-insert c h x)
        ∙ ap (lookup b256_eq j) (take-take (suc m) _ ((h, x) ∷ without b256_eq h (entries c)) room)
        ∙ if_neg (b256_eq j h) (λ q. ne (sym q)) _ _
        ∙ lookup-take-without b256_eq m h j (entries c) b ne (held b has)

    IsInFront-body_of :
        (m : ℕ) (c : BlockCache lru chain) (j : B256) {b : BlockBody}
        → at j ≡ some b
        → IsInFront m c j
        → body_of lru chain c j ≡ some b
    IsInFront-body_of m c j {b} has held = lookup-take b256_eq m j (entries c) b (held b has)

    get_self-IsInFront :
        (m : ℕ) (c : BlockCache lru chain) (h : B256)
        → body_of lru chain c h ≡ at h
        → IsInFront (suc m) (get_body_by_hash lru chain c h).1 h
    unfolding lookup
    get_self-IsInFront m c h same b has =
        rw (entries-get c h, to_front_present b256_eq h (entries c) b (same ∙ has))
          (if_pos (b256_eq h h) refl _ _)

    -- The filter of the missing hashes moves a body back by as many as it finds at most.
    missing-IsInFront :
        (m n : ℕ) (c : BlockCache lru chain) (hs : List B256) (j : B256)
        → ((h : B256) → body_of lru chain c h ≡ at h)
        → m + length hs ≡ n + length (absent at hs)
        → IsInFront m c j
        → IsInFront n (missing_hashes lru chain c hs).1 j
    unfolding missing_hashes absent
    missing-IsInFront m n c [] j same e held = subst (λ k. IsInFront k c j) (omega (arith, e)) held
    missing-IsInFront m n c (h ∷ hs) j same e held =
        let c' = (get_body_by_hash lru chain c h).1 in
        let same' : (i : B256) → body_of lru chain c' i ≡ at i = λ i. body_of-get c h i ∙ same i in
        elim (Option-cases (at h)) [
          | inl e' ↦
              missing-IsInFront m n c' hs j same'
                (omega (arith, e, ap length (absent-none at h hs e')))
                (get_none-IsInFront m c h j (same h ∙ e') held)
          | inr (v, e') ↦
              missing-IsInFront (suc m) n c' hs j same'
                (omega (arith, e, ap length (absent-some at h hs e')))
                (get-IsInFront m c h j (same h ∙ e') (same h) held)
        ]

    -- After it, the bodies of its hashes that are cached stand in front, as many as there are of them.
    pub missing-AllInFront :
        (m n : ℕ) (c : BlockCache lru chain) (hs : List B256)
        → ((h : B256) → body_of lru chain c h ≡ at h)
        → m + length hs ≡ n + length (absent at hs)
        → All (IsInFront n (missing_hashes lru chain c hs).1) hs
    unfolding missing_hashes absent
    missing-AllInFront m n c [] same e = tt
    missing-AllInFront m n c (h ∷ hs) same e =
        let c' = (get_body_by_hash lru chain c h).1 in
        let same' : (i : B256) → body_of lru chain c' i ≡ at i = λ i. body_of-get c h i ∙ same i in
        elim (Option-cases (at h)) [
          | inl e' ↦ (
            (λ b has. cc),
            missing-AllInFront m n c' hs same'
                (omega (arith, e, ap length (absent-none at h hs e'))),
          )
          | inr (v, e') ↦
              let counts : suc m + length hs ≡ n + length (absent at hs) =
                omega (arith, e, ap length (absent-some at h hs e')) in
              (
                missing-IsInFront (suc m) n c' hs h same' counts
                    (get_self-IsInFront m c h (same h)),
                missing-AllInFront (suc m) n c' hs same' counts,
              )
        ]

    -- The cache has what `at` has for some hashes, among its first `m`.
    abbrev pub IsKept : ℕ → BlockCache lru chain → List B256 → Type 0
    IsKept m c hs = All (λ j. (body_of lru chain c j ≡ at j) × IsInFront m c j) hs

    pub get-IsKept :
        (m : ℕ) (c : BlockCache lru chain) (h : B256) (hs : List B256) {v : BlockBody}
        → at h ≡ some v
        → seen b256_eq h hs ≡ false
        → (body_of lru chain c h ≡ at h) × IsInFront m c h
        → IsKept m c hs
        → IsKept m (get_body_by_hash lru chain c h).1 hs
    unfolding seen
    get-IsKept m c h [] e ne own kept = tt
    get-IsKept m c h (j ∷ hs) e ne own kept = (
      (
        body_of-get c h j ∙ kept.0.0,
        get_front-IsInFront m c h j (own.0 ∙ e) e
            (λ p. cc (if_pos (b256_eq h j) p true (seen b256_eq h hs))) own.1 kept.0.1,
      ),
      get-IsKept m c h hs e (ground arith) own kept.1,
    )

    pub get_none-IsKept :
        (m : ℕ) (c : BlockCache lru chain) (h : B256) (hs : List B256)
        → body_of lru chain c h ≡ none
        → IsKept m c hs
        → IsKept m (get_body_by_hash lru chain c h).1 hs
    get_none-IsKept m c h [] e kept = tt
    get_none-IsKept m c h (j ∷ hs) e kept = (
      (body_of-get c h j ∙ kept.0.0, get_none-IsInFront m c h j e kept.0.1),
      get_none-IsKept m c h hs e kept.1,
    )

    insert-body_of :
        (m : ℕ) (c : BlockCache lru chain) (h j : B256) (x : BlockBody)
        → suc m ≤ lru.cap c.bodies_by_hash
        → h ≢ j
        → (body_of lru chain c j ≡ at j) × IsInFront m c j
        → body_of lru chain (insert_body lru chain c h x) j ≡ at j
    unfolding insert_body
    insert-body_of m c h j x room ne kept = elim (Option-cases (at j)) [
      | inl e ↦ Laws.entry-push_none lru laws b256_eq c.bodies_by_hash h x j ne (kept.0 ∙ e) ∙ sym e
      | inr (b, e) ↦
          IsInFront-body_of (suc m) (insert_body lru chain c h x) j e
            (insert-IsInFront m c h j x room ne kept.1)
          ∙ sym e
    ]

    -- An insertion evicts none of them while there is room for one more in front.
    pub insert-IsKept :
        (m : ℕ) (c : BlockCache lru chain) (h : B256) (x : BlockBody) (hs : List B256)
        → suc m ≤ lru.cap c.bodies_by_hash
        → seen b256_eq h hs ≡ false
        → IsKept m c hs
        → IsKept (suc m) (insert_body lru chain c h x) hs
    unfolding seen
    insert-IsKept m c h x [] room ne kept = tt
    insert-IsKept m c h x (j ∷ hs) room ne kept =
        let differs : h ≢ j = λ p. cc (if_pos (b256_eq h j) p true (seen b256_eq h hs)) in
        (
          (
            insert-body_of m c h j x room differs kept.0,
            insert-IsInFront m c h j x room differs kept.0.1,
          ),
          insert-IsKept m c h x hs room (ground arith) kept.1,
        )
