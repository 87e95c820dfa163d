-- ===== src/Lru/Firsts.antt =====
-- Lookups among the first entries of a list in recency order, as the calls of the `lru` crate change it.
use reth_sentry_node.Prelude.{
  ℕ, zero, suc, ◌≤◌, ◌≡◌, ◌≢◌, refl, sym, ap, ◌∙◌, none, some, List, [], ◌∷◌, arith, take, lookup,
  if_pos, if_neg, ite,
}
use reth_sentry_node.Lru.Assoc.{without}

module _ {A : Type 0} where
  pub take-take : (m n : ℕ) (l : List A) → m ≤ n → take m (take n l) ≡ take m l
  take-take zero n l h = refl
  take-take (suc m) zero l h = elim h [ ]
  take-take (suc m) (suc n) [] h = refl
  take-take (suc m) (suc n) (x ∷ l) h = ap (◌∷◌ x) (take-take m n l (omega (arith, h)))

-- Lookups among the first entries of a list in recency order.
module _ {K V : Type 0} (dec : Discrete K) where
  lookup-take-suc :
      (m : ℕ) (j : K) (l : List (K × V)) (v : V)
      → lookup dec j (take m l) ≡ some v
      → lookup dec j (take (suc m) l) ≡ some v
  unfolding lookup
  lookup-take-suc zero j l v h = cc
  lookup-take-suc (suc m) j [] v h = cc
  lookup-take-suc (suc m) j (e ∷ l) v h = ground (arith, lookup-take-suc m j l v)

  -- Another entry that is taken out moves none back.
  pub lookup-take-without :
      (m : ℕ) (k j : K) (l : List (K × V)) (v : V)
      → k ≢ j
      → lookup dec j (take m l) ≡ some v
      → lookup dec j (take m (without dec k l)) ≡ some v
  unfolding lookup without
  lookup-take-without zero k j l v ne h = cc
  lookup-take-without (suc m) k j [] v ne h = cc
  lookup-take-without (suc m) k j (e ∷ l) v ne h = elim (dec k e.0) [
    | yes p ↦ rw (if_pos (dec k e.0) p) (
        lookup-take-suc m j (without dec k l) v (
          lookup-take-without m k j l v ne
            (sym (if_neg (dec j e.0) (λ q. ne (p ∙ sym q)) _ _) ∙ h)))
    | no p ↦ rw (if_neg (dec k e.0) p) (elim (dec j e.0) [
      | yes q ↦ if_pos (dec j e.0) q _ _ ∙ sym (if_pos (dec j e.0) q _ _) ∙ h
      | no q ↦
          if_neg (dec j e.0) q _ _
          ∙ lookup-take-without m k j l v ne (sym (if_neg (dec j e.0) q _ _) ∙ h)
    ])
  ]

  -- One that is among the first itself makes room for one more.
  pub lookup-take-without_front :
      (m : ℕ) (k j : K) (l : List (K × V)) (v w : V)
      → k ≢ j
      → lookup dec k (take (suc m) l) ≡ some w
      → lookup dec j (take (suc m) l) ≡ some v
      → lookup dec j (take m (without dec k l)) ≡ some v
  unfolding lookup without
  lookup-take-without_front m k j [] v w ne g h = cc
  lookup-take-without_front zero k j (e ∷ l) v w ne g h = elim (dec k e.0) [
    | yes p ↦ absurd (ne (p ∙ sym (only (dec j e.0) h)))
    | no p ↦ let n : none ≡ some w = sym (if_neg (dec k e.0) p _ _) ∙ g in cc
  ]
    where
      only : (d : Dec (j ≡ e.0)) → ite d (some e.1) none ≡ some v → j ≡ e.0
      only (yes q) same = q
      only (no q) same = cc
  lookup-take-without_front (suc m) k j (e ∷ l) v w ne g h = elim (dec k e.0) [
    | yes p ↦ rw (if_pos (dec k e.0) p) (
        lookup-take-without (suc m) k j l v ne
          (sym (if_neg (dec j e.0) (λ q. ne (p ∙ sym q)) _ _) ∙ h))
    | no p ↦ rw (if_neg (dec k e.0) p) (elim (dec j e.0) [
      | yes q ↦ if_pos (dec j e.0) q _ _ ∙ sym (if_pos (dec j e.0) q _ _) ∙ h
      | no q ↦
          if_neg (dec j e.0) q _ _
          ∙ lookup-take-without_front m k j l v w ne (sym (if_neg (dec k e.0) p _ _) ∙ g)
              (sym (if_neg (dec j e.0) q _ _) ∙ h)
    ])
  ]
