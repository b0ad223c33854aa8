-- ===== src/Util.antt =====
-- `is_all_distinct_quadtime` of `src/util.rs`, on numbers.
pub mod Examples
use dynec.Common.{
  ℕ, zero, suc, ◌≡◌, refl, sym, ◌∙◌, ap, ◌↔◌, Bool, true, false, ◌&&◌, Option, some, List, [], ◌∷◌,
  arith, ◌==◌, ==_iff, get_elem?,
}

-- `iter().all(..)`
unfoldable pub all : (ℕ → Bool) → List ℕ → Bool
all f [] = true
all f (x ∷ xs) = f x && all f xs

unfoldable pub is_all_distinct_quadtime : List ℕ → Bool
unfolding all
is_all_distinct_quadtime [] = true
is_all_distinct_quadtime (item ∷ rest) =
    all (λ other. item == other) rest && is_all_distinct_quadtime rest

-- Any two entries are equal.
abbrev pub IsConstant : List ℕ → Type 0
IsConstant xs = (i j a b : ℕ) → get_elem? xs i ≡ some a → get_elem? xs j ≡ some b → a ≡ b

all_same :
    (x : ℕ) (xs : List ℕ)
    → all (λ other. x == other) xs ≡ true
    → (i a : ℕ) → get_elem? xs i ≡ some a
    → a ≡ x
unfolding all
all_same x [] h i a e = absurd (ground (arith, e))
all_same x (y ∷ ys) h zero a e = ground (arith, e, h)
all_same x (y ∷ ys) h (suc i) a e = all_same x ys (ground (arith, h)) i a e

all_from :
    (x : ℕ) (xs : List ℕ)
    → ((i a : ℕ) → get_elem? xs i ≡ some a → a ≡ x)
    → all (λ other. x == other) xs ≡ true
unfolding all
all_from x [] h = refl
all_from x (y ∷ ys) h =
    let here : x == y ≡ true = (==_iff x y).1 (sym (h 0 y refl)) in
    rw here (all_from x ys (λ i a e. h (suc i) a e))

-- The items that it accepts are those that are all equal, not those that are all distinct.
pub is_all_distinct_quadtime_lem :
    (xs : List ℕ) → (is_all_distinct_quadtime xs ≡ true) ↔ IsConstant xs
unfolding is_all_distinct_quadtime
is_all_distinct_quadtime_lem xs = (forward xs, backward xs)
  where
    forward : (xs : List ℕ) → is_all_distinct_quadtime xs ≡ true → IsConstant xs
    forward [] h i j a b ei ej = absurd (ground (arith, ei))
    forward (x ∷ xs) h i j a b ei ej = same i a ei ∙ sym (same j b ej)
      where
        same : (i a : ℕ) → get_elem? (x ∷ xs) i ≡ some a → a ≡ x
        same zero a e = ground (arith, e)
        same (suc i) a e = all_same x xs (ground (arith, h)) i a e

    backward : (xs : List ℕ) → IsConstant xs → is_all_distinct_quadtime xs ≡ true
    backward [] h = refl
    backward (x ∷ xs) h =
        rw (all_from x xs (λ i a e. h (suc i) 0 a x e refl))
          (backward xs (λ i j a b ei ej. h (suc i) (suc j) a b ei ej))
