-- ===== src/Lru/Assoc.antt =====
-- Association lists in recency order: what the `lru` crate's calls do to the list of `iter`.
use reth_sentry_node.Prelude.{
  ℕ, zero, suc, ◌≤◌, ◌<◌, ◌≡◌, refl, none, some, List, [], ◌∷◌, arith, lookup, ite, length, take,
  if_pos, if_neg, Option-cases, inl, inr, All, ◌∙◌,
}

module _ {K V : Type 0} (dec : Discrete K) where
  -- Every entry but those of the key.
  unfoldable pub without : K → List (K × V) → List (K × V)
  without k [] = []
  without k (e ∷ l) = let rest = without k l in ite (dec k e.0) rest (e ∷ rest)

  -- Marks a key as the most recently used one, if it is there.
  unfoldable pub to_front : K → List (K × V) → List (K × V)
  to_front k l = elim (lookup dec k l) [ none ↦ l | some v ↦ (k, v) ∷ without k l ]

  -- No key stands twice.
  abbrev pub HasDistinctKeys : List (K × V) → Type 0
  HasDistinctKeys [] = Unit
  HasDistinctKeys (e ∷ l) = (lookup dec e.0 l ≡ none) × HasDistinctKeys l

  pub lookup-without :
      (k j : K) (l : List (K × V))
      → lookup dec j (without k l) ≡ ite (dec k j) none (lookup dec j l)
  unfolding lookup without
  lookup-without k j [] = ground arith
  lookup-without k j (e ∷ l) = ground (arith, lookup-without k j l)

  pub without_absent : (k : K) (l : List (K × V)) → lookup dec k l ≡ none → without k l ≡ l
  unfolding lookup without
  without_absent k [] h = refl
  without_absent k (e ∷ l) h = ground (arith, without_absent k l)

  pub length-without-le : (k : K) (l : List (K × V)) → length (without k l) ≤ length l
  unfolding without
  length-without-le k [] = omega arith
  length-without-le k (e ∷ l) = ground (arith, length-without-le k l)

  pub length-without-lt :
      (k : K) (l : List (K × V)) (v : V) → lookup dec k l ≡ some v → length (without k l) < length l
  unfolding lookup without
  length-without-lt k [] v h = cc
  length-without-lt k (e ∷ l) v h = ground (arith, length-without-le k l, length-without-lt k l v)

  pub without-HasDistinctKeys :
      (k : K) (l : List (K × V)) → HasDistinctKeys l → HasDistinctKeys (without k l)
  unfolding without
  without-HasDistinctKeys k [] h = tt
  without-HasDistinctKeys k (e ∷ l) h = elim (dec k e.0) [
    | yes p ↦ rw (if_pos _ p) (without-HasDistinctKeys k l h.1)
    | no p ↦
        rw (if_neg _ p) (ground (arith, lookup-without k e.0 l), without-HasDistinctKeys k l h.1)
  ]

  pub lookup-take :
      (n : ℕ) (j : K) (l : List (K × V)) (v : V)
      → lookup dec j (take n l) ≡ some v
      → lookup dec j l ≡ some v
  unfolding lookup
  lookup-take zero j l v h = cc
  lookup-take (suc n) j [] v h = cc
  lookup-take (suc n) j (e ∷ l) v h = ground (arith, lookup-take n j l v)

  pub lookup-take-none :
      (n : ℕ) (j : K) (l : List (K × V)) → lookup dec j l ≡ none → lookup dec j (take n l) ≡ none
  unfolding lookup
  lookup-take-none zero j l h = refl
  lookup-take-none (suc n) j [] h = refl
  lookup-take-none (suc n) j (e ∷ l) h = ground (arith, lookup-take-none n j l)

  pub lookup-take_self :
      (n : ℕ) (k : K) (v : V) (l : List (K × V))
      → 0 < n
      → lookup dec k (take n ((k, v) ∷ l)) ≡ some v
  unfolding lookup
  lookup-take_self zero k v l h = absurd (omega arith)
  lookup-take_self (suc n) k v l h = if_pos (dec k k) refl _ _

  pub take-HasDistinctKeys :
      (n : ℕ) (l : List (K × V)) → HasDistinctKeys l → HasDistinctKeys (take n l)
  take-HasDistinctKeys zero l h = tt
  take-HasDistinctKeys (suc n) [] h = tt
  take-HasDistinctKeys (suc n) (e ∷ l) h =
      (lookup-take-none n e.0 l h.0, take-HasDistinctKeys n l h.1)

  -- The order of use changes no lookup.
  pub lookup-to_front : (k j : K) (l : List (K × V)) → lookup dec j (to_front k l) ≡ lookup dec j l
  unfolding lookup to_front
  lookup-to_front k j l = ground (arith, lookup-without k j l)

  pub length-to_front-le : (k : K) (l : List (K × V)) → length (to_front k l) ≤ length l
  unfolding to_front
  length-to_front-le k l = elim (Option-cases (lookup dec k l)) [
    | inl e ↦ rw (e, to_front) (omega arith)
    | inr (v, e) ↦ rw (e, to_front) (length-without-lt k l v e)
  ]

  pub to_front-HasDistinctKeys :
      (k : K) (l : List (K × V)) → HasDistinctKeys l → HasDistinctKeys (to_front k l)
  unfolding to_front
  to_front-HasDistinctKeys k l h = elim (Option-cases (lookup dec k l)) [
    | inl e ↦ rw (e, to_front) h
    | inr (v, e) ↦
        rw (e, to_front) (ground (arith, lookup-without k k l), without-HasDistinctKeys k l h)
  ]

  pub to_front_present :
      (k : K) (l : List (K × V)) (v : V)
      → lookup dec k l ≡ some v
      → to_front k l ≡ (k, v) ∷ without k l
  unfolding to_front
  to_front_present k l v e = rw (e, to_front)

  All-lookup_cons :
      (k : K) (v : V) (l xs : List (K × V))
      → lookup dec k l ≡ none
      → All (λ e. lookup dec e.0 l ≡ some e.1) xs
      → All (λ e. lookup dec e.0 ((k, v) ∷ l) ≡ some e.1) xs
  unfolding lookup
  All-lookup_cons k v l [] h a = tt
  All-lookup_cons k v l (e ∷ xs) h a = (
    elim (dec e.0 k) [
      | yes p ↦ absurd (ground (arith, a.0))
      | no p ↦ if_neg (dec e.0 k) p _ _ ∙ a.0
    ],
    All-lookup_cons k v l xs h a.1,
  )

  -- With distinct keys every entry is found under its key.
  pub All-lookup : (l : List (K × V)) → HasDistinctKeys l → All (λ e. lookup dec e.0 l ≡ some e.1) l
  unfolding lookup
  All-lookup [] h = tt
  All-lookup (e ∷ l) h =
      (if_pos (dec e.0 e.0) refl _ _, All-lookup_cons e.0 e.1 l l h.0 (All-lookup l h.1))
