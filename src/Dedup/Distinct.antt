-- ===== src/Dedup/Distinct.antt =====
-- src/dedup.rs: the first occurrences of a stream are distinct.
use reth_sentry_node.Prelude.{
  ◌≡◌, refl, true, false, List, [], ◌∷◌, ◌++◌, arith, Bool-cases, inl, inr,
}
use reth_sentry_node.Lru.Keys.{seen, remove, seen-remove, IsNodup}
use reth_sentry_node.Dedup.Recency.{first_seen}

module _ {A : Type 0} (dec : Discrete A) where
  seen-cons-remove :
      (y x : A) (acc : List A) → seen dec y acc ≡ true → seen dec y (x ∷ remove dec x acc) ≡ true
  unfolding seen
  seen-cons-remove y x acc h = ground (arith, seen-remove dec x y acc, h)

  seen_self : (x : A) (l : List A) → seen dec x (x ∷ l) ≡ true
  unfolding seen
  seen_self x l = ground arith

  seen_other :
      (y x : A) (acc l : List A)
      → seen dec y acc ≡ true
      → seen dec x acc ≡ false
      → seen dec y l ≡ false
      → seen dec y (x ∷ l) ≡ false
  unfolding seen
  seen_other y x acc l h e k = ground (arith, h, e, k)

  seen-first_seen :
      (y : A) (acc xs : List A) → seen dec y acc ≡ true → seen dec y (first_seen dec acc xs) ≡ false
  unfolding first_seen
  seen-first_seen y acc [] h = unfold seen in refl
  seen-first_seen y acc (x ∷ xs) h =
      let rest = seen-first_seen y (x ∷ remove dec x acc) xs (seen-cons-remove y x acc h) in
      elim (Bool-cases (seen dec x acc)) [
        | inl e ↦ rw (e, first_seen) rest
        | inr e ↦ rw (e, first_seen) (seen_other y x acc _ h e rest)
      ]

  pub first_seen-IsNodup : (acc xs : List A) → IsNodup dec (first_seen dec acc xs)
  unfolding first_seen
  first_seen-IsNodup acc [] = tt
  first_seen-IsNodup acc (x ∷ xs) =
      let next = x ∷ remove dec x acc in
      let rest = first_seen-IsNodup next xs in
      elim (Bool-cases (seen dec x acc)) [
        | inl e ↦ rw (e, first_seen) rest
        | inr e ↦
            rw (e, first_seen) (seen-first_seen x next xs (seen_self x (remove dec x acc)), rest)
      ]

  pub seen-append : (y : A) (l m : List A) → seen dec y (l ++ m) ≡ false → seen dec y m ≡ false
  unfolding seen
  seen-append y [] m h = h
  seen-append y (x ∷ l) m h = seen-append y l m (ground (arith, h))

  -- A part of a list of distinct keys.
  pub append-IsNodup : (l m : List A) → IsNodup dec (l ++ m) → IsNodup dec m
  append-IsNodup [] m h = h
  append-IsNodup (x ∷ l) m h = append-IsNodup l m h.1
