-- ===== src/Prelude/Lists.antt =====
-- Lists measured by native numbers, under the library's names.
use Prim.Native.Nat.{ℕ, zero, suc, ◌+◌, ◌-◌, ◌≤◌}
use mathlib.Core.Path.{◌≡◌, refl, ap, ◌∙◌}
use mathlib.Core.List.{List, [], ◌∷◌, ◌++◌}
use native.Mathlib.Omega.{arith}

module _ {ℓ} {A : Type ℓ} where
  abbrev pub length : List A → ℕ
  length [] = 0
  length (x ∷ xs) = suc (length xs)

  abbrev pub take : ℕ → List A → List A
  take zero xs = []
  take (suc n) [] = []
  take (suc n) (x ∷ xs) = x ∷ take n xs

  pub length-append : (xs ys : List A) → length (xs ++ ys) ≡ length xs + length ys
  length-append [] ys = omega arith
  length-append (x ∷ xs) ys = omega (arith, length-append xs ys)

  -- What is taken is no longer than asked for, and nothing is lost of a list that is short enough.
  pub length-take-le : (k : ℕ) (l : List A) → length (take k l) ≤ k
  length-take-le zero l = omega arith
  length-take-le (suc k) [] = omega arith
  length-take-le (suc k) (a ∷ l) = omega (arith, length-take-le k l)

  pub length-take-le_length : (k : ℕ) (l : List A) → length (take k l) ≤ length l
  length-take-le_length zero l = omega arith
  length-take-le_length (suc k) [] = omega arith
  length-take-le_length (suc k) (a ∷ l) = omega (arith, length-take-le_length k l)

  pub take_of_length-le : (k : ℕ) (l : List A) → length l ≤ k → take k l ≡ l
  take_of_length-le (suc k) (a ∷ l) fits = rw (take_of_length-le k l (omega arith))
  take_of_length-le (suc k) [] fits = refl
  take_of_length-le zero [] fits = refl
  take_of_length-le zero (a ∷ l) fits = elim fits [ ]

  pub take-nil : (n : ℕ) → take n [] ≡ []
  take-nil zero = refl
  take-nil (suc n) = refl

  pub take-append :
      (k : ℕ) (xs ys : List A) → length xs ≤ k → take k (xs ++ ys) ≡ xs ++ take (k - length xs) ys
  take-append k [] ys h = ap (λ n. take n ys) (omega arith)
  take-append (suc k) (x ∷ xs) ys h =
      ap (◌∷◌ x) (take-append k xs ys (omega (arith, h)))
      ∙ ap (λ n. x ∷ (xs ++ take n ys)) (omega arith)
  take-append zero (x ∷ xs) ys h = elim h [ ]

  -- What holds of each item of a list.
  abbrev pub All {κ} : (A → Type κ) → List A → Type κ
  All holds [] = Unit
  All holds (item ∷ items) = holds item × All holds items

  pub All-append {κ} : (R : A → Type κ) (l m : List A) → All R l → All R m → All R (l ++ m)
  All-append R [] m a b = b
  All-append R (x ∷ l) m a b = (a.0, All-append R l m a.1 b)

  pub All-last {κ} : (R : A → Type κ) (l : List A) (x : A) → All R (l ++ (x ∷ [])) → All R l × R x
  All-last R [] x a = (tt, a.0)
  All-last R (y ∷ l) x a = let (all, last) = All-last R l x a.1 in ((a.0, all), last)
