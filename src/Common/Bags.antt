-- ===== src/Common/Bags.antt =====
-- How often a number stands in a list.
use dynec.Common.Tests.{◌==◌, if◌then◌else◌}
use dynec.Common.OrdSet.{contains, insert, remove, IsOrdered, contains-Above, Above-IsOrdered}
use Prim.Native.Nat.{ℕ, ◌+◌}
use mathlib.Core.Path.{◌≡◌, refl, ap}
use mathlib.Core.Bool.{true, false}
use mathlib.Core.List.{List, [], ◌∷◌, ◌++◌, reverse, reverse-cons}
use native.Mathlib.Omega.{arith}

unfoldable pub tally : ℕ → List ℕ → ℕ
tally x [] = 0
tally x (y ∷ ys) = (if y == x then 1 else 0) + tally x ys

pub tally_nil : (x : ℕ) → tally x [] ≡ 0
unfolding tally
tally_nil x = refl

pub tally-cons : (x y : ℕ) (ys : List ℕ) → tally x (y ∷ ys) ≡ (if y == x then 1 else 0) + tally x ys
unfolding tally
tally-cons x y ys = refl

pub tally-append : (x : ℕ) (xs ys : List ℕ) → tally x (xs ++ ys) ≡ tally x xs + tally x ys
unfolding tally
tally-append x [] ys = omega arith
tally-append x (y ∷ xs) ys = omega (arith, tally-append x xs ys)

pub tally-reverse : (x : ℕ) (xs : List ℕ) → tally x (reverse xs) ≡ tally x xs
unfolding tally
tally-reverse x [] = refl
tally-reverse x (y ∷ ys) = ground (
  arith,
  ap (tally x) (reverse-cons y ys),
  tally-append x (reverse ys) (y ∷ []),
  tally-reverse x ys,
)

-- A set holds each number once.
pub tally-contains :
    (x : ℕ) (s : List ℕ) → IsOrdered s → tally x s ≡ (if contains x s then 1 else 0)
unfolding tally contains
tally-contains x [] a = refl
tally-contains x (y ∷ s) a =
    ground (arith, tally-contains x s (Above-IsOrdered y s a), contains-Above x y s a)

pub tally-insert :
    (x i : ℕ) (s : List ℕ)
    → contains i s ≡ false
    → tally x (insert i s) ≡ (if i == x then 1 else 0) + tally x s
unfolding tally contains insert
tally-insert x i [] a = refl
tally-insert x i (y ∷ s) a = ground (arith, a, tally-insert x i s)

pub tally-remove :
    (x i : ℕ) (s : List ℕ)
    → contains i s ≡ true
    → tally x s ≡ (if i == x then 1 else 0) + tally x (remove i s)
unfolding tally contains remove
tally-remove x i [] a = ground (arith, a)
tally-remove x i (y ∷ s) a = ground (arith, a, tally-remove x i s)
