-- ===== src/Lru/Keys.antt =====
-- Lists of keys: what the calls of the `lru` crate do to the keys of the list of `iter`.
use reth_sentry_node.Prelude.{
  All, ◌<◌, sym, ℕ, zero, suc, ◌≤◌, ◌≡◌, ◌≢◌, refl, ap, ◌∙◌, Bool, true, false, List, [], ◌∷◌, map,
  arith, lookup, ite, length, take, take_of_length-le, length-take-le, is_some, if_pos, if_neg,
}
use reth_sentry_node.Lru.Assoc.{without}

module _ {A : Type 0} (dec : Discrete A) where
  unfoldable pub seen : A → List A → Bool
  seen a [] = false
  seen a (x ∷ xs) = ite (dec a x) true (seen a xs)

  unfoldable pub remove : A → List A → List A
  remove a [] = []
  remove a (x ∷ xs) = let rest = remove a xs in ite (dec a x) rest (x ∷ rest)

  abbrev pub IsNodup : List A → Type 0
  IsNodup [] = Unit
  IsNodup (x ∷ xs) = (seen x xs ≡ false) × IsNodup xs

  pub seen-remove : (a b : A) (l : List A) → seen b (remove a l) ≡ ite (dec a b) false (seen b l)
  unfolding seen remove
  seen-remove a b [] = ground arith
  seen-remove a b (x ∷ l) = ground (arith, seen-remove a b l)

  pub remove_unseen : (a : A) (l : List A) → seen a l ≡ false → remove a l ≡ l
  unfolding seen remove
  remove_unseen a [] h = refl
  remove_unseen a (x ∷ l) h = ground (arith, remove_unseen a l)

  pub remove-IsNodup : (a : A) (l : List A) → IsNodup l → IsNodup (remove a l)
  unfolding remove
  remove-IsNodup a [] h = tt
  remove-IsNodup a (x ∷ l) h = elim (dec a x) [
    | yes p ↦ rw (if_pos _ p) (remove-IsNodup a l h.1)
    | no p ↦ rw (if_neg _ p) (ground (arith, seen-remove a x l), remove-IsNodup a l h.1)
  ]

  pub cons-remove-IsNodup : (a : A) (l : List A) → IsNodup l → IsNodup (a ∷ remove a l)
  cons-remove-IsNodup a l h = (ground (arith, seen-remove a a l), remove-IsNodup a l h)

  pub seen-take : (n : ℕ) (a : A) (l : List A) → seen a l ≡ false → seen a (take n l) ≡ false
  unfolding seen
  seen-take zero a l h = refl
  seen-take (suc n) a [] h = refl
  seen-take (suc n) a (x ∷ l) h = ground (arith, seen-take n a l)

  remove_head : (a x : A) (l : List A) → a ≡ x → remove a (x ∷ l) ≡ remove a l
  unfolding remove
  remove_head a x l p = if_pos (dec a x) p _ _

  remove_other : (a x : A) (l : List A) → a ≢ x → remove a (x ∷ l) ≡ x ∷ remove a l
  unfolding remove
  remove_other a x l p = if_neg (dec a x) p _ _

  take-remove-take :
      (n : ℕ) (a : A) (l : List A)
      → IsNodup l
      → take n (remove a (take (suc n) l)) ≡ take n (remove a l)
  take-remove-take zero a l h = refl
  take-remove-take (suc n) a [] h = refl
  take-remove-take (suc n) a (x ∷ l) h = elim (dec a x) [
    | yes p ↦
        let unseen : seen a l ≡ false = rw p (h.0) in
        let l' = take (suc n) l in
        rw
          (
            remove_head a x l' p,
            remove_head a x l p,
            remove_unseen a l unseen,
            remove_unseen a l' (seen-take (suc n) a l unseen),
          )
          (take_of_length-le (suc n) l' (length-take-le (suc n) l))
    | no p ↦
        rw (remove_other a x (take (suc n) l) p, remove_other a x l p)
          (ap (◌∷◌ x) (take-remove-take n a l h.1))
  ]

  -- To see a hash and keep `n` of them, the first `n` are all that matter.
  pub take-cons-remove-take :
      (n : ℕ) (a : A) (l : List A)
      → IsNodup l
      → take n (a ∷ remove a (take n l)) ≡ take n (a ∷ remove a l)
  take-cons-remove-take zero a l h = refl
  take-cons-remove-take (suc n) a l h = ap (◌∷◌ a) (take-remove-take n a l h)

  pub length-cons-remove-ge : (a : A) (l : List A) → IsNodup l → length l ≤ length (a ∷ remove a l)
  length-cons-remove-ge a [] h = omega arith
  length-cons-remove-ge a (x ∷ l) h = elim (dec a x) [
    | yes p ↦
        let unseen : seen a l ≡ false = rw p (h.0) in
        omega (arith, ap length (remove_head a x l p), ap length (remove_unseen a l unseen))
    | no p ↦ omega (arith, ap length (remove_other a x l p), length-cons-remove-ge a l h.1)
  ]

  length-remove-le : (a : A) (l : List A) → length (remove a l) ≤ length l
  unfolding remove
  length-remove-le a [] = omega arith
  length-remove-le a (x ∷ l) = elim (dec a x) [
    | yes p ↦ omega (arith, ap length (remove_head a x l p), length-remove-le a l)
    | no p ↦ omega (arith, ap length (remove_other a x l p), length-remove-le a l)
  ]

  length-remove-lt : (a : A) (l : List A) → seen a l ≡ true → length (remove a l) < length l
  unfolding seen
  length-remove-lt a [] h = cc
  length-remove-lt a (x ∷ l) h = elim (dec a x) [
    | yes p ↦ omega (arith, ap length (remove_head a x l p), length-remove-le a l)
    | no p ↦ omega (
      arith,
      ap length (remove_other a x l p),
      length-remove-lt a l (sym (if_neg (dec a x) p true (seen a l)) ∙ h),
    )
  ]

  All-seen-remove :
      (a : A) (xs l : List A)
      → seen a xs ≡ false
      → All (λ x. seen x l ≡ true) xs
      → All (λ x. seen x (remove a l) ≡ true) xs
  unfolding seen
  All-seen-remove a [] l h all = tt
  All-seen-remove a (x ∷ xs) l h all =
      (ground (arith, all.0, seen-remove a x l), All-seen-remove a xs l (ground arith) all.1)

  -- Different items that all stand in a list are no more than the list has.
  pub length-le_of_seen :
      (xs l : List A) → IsNodup xs → All (λ x. seen x l ≡ true) xs → length xs ≤ length l
  length-le_of_seen [] l d all = omega arith
  length-le_of_seen (x ∷ xs) l d all = omega (
    arith,
    length-remove-lt x l all.0,
    length-le_of_seen xs (remove x l) d.1 (All-seen-remove x xs l d.0 all.1),
  )

module _ {A V : Type 0} (dec : Discrete A) where
  abbrev pub keys : List (A × V) → List A
  keys = map (λ e. e.0)

  pub is_some-lookup-seen :
      (a : A) (l : List (A × V)) → is_some (lookup dec a l) ≡ seen dec a (keys l)
  unfolding lookup seen
  is_some-lookup-seen a [] = refl
  is_some-lookup-seen a (e ∷ l) = ground (arith, is_some-lookup-seen a l)

  pub keys-without : (a : A) (l : List (A × V)) → keys (without dec a l) ≡ remove dec a (keys l)
  unfolding without remove
  keys-without a [] = refl
  keys-without a (e ∷ l) = ground (arith, keys-without a l)

  pub keys-take : (n : ℕ) (l : List (A × V)) → keys (take n l) ≡ take n (keys l)
  keys-take zero l = refl
  keys-take (suc n) [] = refl
  keys-take (suc n) (e ∷ l) = ap (◌∷◌ e.0) (keys-take n l)

  pub keys-push :
      (n : ℕ) (a : A) (v : V) (l : List (A × V))
      → keys (take n ((a, v) ∷ without dec a l)) ≡ take n (a ∷ remove dec a (keys l))
  keys-push n a v l =
      keys-take n ((a, v) ∷ without dec a l) ∙ ap (λ t. take n (a ∷ t)) (keys-without a l)
