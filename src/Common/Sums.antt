-- ===== src/Common/Sums.antt =====
-- Sums over a list.
use Prim.Native.Nat.{ℕ, ◌+◌, ◌≤◌}
use mathlib.Core.Path.{◌≡◌, refl}
use mathlib.Core.List.{List, [], ◌∷◌}
use native.Mathlib.Omega.{arith}

module _ {ℓ} {A : Type ℓ} where
  unfoldable pub sum_of : (A → ℕ) → List A → ℕ
  sum_of f [] = 0
  sum_of f (x ∷ xs) = f x + sum_of f xs

  pub sum_of_le : (f g : A → ℕ) (xs : List A) → ((a : A) → f a ≤ g a) → sum_of f xs ≤ sum_of g xs
  unfolding sum_of
  sum_of_le f g [] h = omega arith
  sum_of_le f g (x ∷ xs) h = omega (arith, h x, sum_of_le f g xs h)

  pub sum_of_zero : (f : A → ℕ) (xs : List A) → ((a : A) → f a ≡ 0) → sum_of f xs ≡ 0
  unfolding sum_of
  sum_of_zero f [] h = refl
  sum_of_zero f (x ∷ xs) h = omega (arith, h x, sum_of_zero f xs h)

  pub sum_of_add :
      (f g : A → ℕ) (xs : List A) → sum_of (λ x. f x + g x) xs ≡ sum_of f xs + sum_of g xs
  unfolding sum_of
  sum_of_add f g [] = omega arith
  sum_of_add f g (x ∷ xs) = omega (arith, sum_of_add f g xs)
