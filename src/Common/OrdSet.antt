-- ===== src/Common/OrdSet.antt =====
-- `BTreeSet` of the standard library over machine integers: a strictly increasing list.
use dynec.Common.Tests.{ltb, ◌==◌, if◌then◌else◌}
use Prim.Native.Nat.{ℕ, ◌<◌, ◌≤◌}
use mathlib.Core.Path.{◌≡◌, refl}
use mathlib.Core.Bool.{Bool, false, not, ◌&&◌, ◌||◌}
use mathlib.Core.Option.{Option, none, some}
use mathlib.Core.List.{List, [], ◌∷◌}
use native.Mathlib.Omega.{arith}

unfoldable pub contains : ℕ → List ℕ → Bool
contains i [] = false
contains i (j ∷ s) = (j == i) || contains i s

unfoldable pub insert : ℕ → List ℕ → List ℕ
insert i [] = i ∷ []
insert i (j ∷ s) = if ltb i j then i ∷ j ∷ s else if j == i then j ∷ s else j ∷ insert i s

unfoldable pub remove : ℕ → List ℕ → List ℕ
remove i [] = []
remove i (j ∷ s) = if j == i then s else j ∷ remove i s

unfoldable pub pop_first : List ℕ → Option (ℕ × List ℕ)
pop_first [] = none
pop_first (j ∷ s) = some (j, s)

-- All elements lie above `n`, in increasing order.
abbrev pub Above : ℕ → List ℕ → Type 0
Above n [] = Unit {0}
Above n (j ∷ s) = (n < j) × Above j s

-- The order that a `BTreeSet` keeps.
abbrev pub IsOrdered : List ℕ → Type 0
IsOrdered [] = Unit {0}
IsOrdered (j ∷ s) = Above j s

Above-mono : (m n : ℕ) (s : List ℕ) → m ≤ n → Above n s → Above m s
Above-mono m n [] h a = tt
Above-mono m n (j ∷ s) h a = (omega arith, a.1)

pub Above-IsOrdered : (n : ℕ) (s : List ℕ) → Above n s → IsOrdered s
Above-IsOrdered n [] a = tt
Above-IsOrdered n (j ∷ s) a = a.1

pub contains-Above : (i n : ℕ) (s : List ℕ) → Above n s → i ≤ n → contains i s ≡ false
unfolding contains
contains-Above i n [] a h = refl
contains-Above i n (j ∷ s) a h = ground (arith, contains-Above i j s a.1)

insert-Above : (i n : ℕ) (s : List ℕ) → n < i → Above n s → Above n (insert i s)
unfolding insert
insert-Above i n [] h a = (h, tt)
insert-Above i n (j ∷ s) h a = ground (arith, insert-Above i j s)

pub insert-IsOrdered : (i : ℕ) (s : List ℕ) → IsOrdered s → IsOrdered (insert i s)
unfolding insert
insert-IsOrdered i [] a = tt
insert-IsOrdered i (j ∷ s) a = ground (arith, insert-Above i j s)

remove-Above : (i n : ℕ) (s : List ℕ) → Above n s → Above n (remove i s)
unfolding remove
remove-Above i n [] a = tt
remove-Above i n (j ∷ s) a = ground (arith, remove-Above i j s a.1, Above-mono n j s)

pub remove-IsOrdered : (i : ℕ) (s : List ℕ) → IsOrdered s → IsOrdered (remove i s)
unfolding remove
remove-IsOrdered i [] a = tt
remove-IsOrdered i (j ∷ s) a = ground (arith, remove-Above i j s a, Above-IsOrdered j s a)

pub contains-insert : (i k : ℕ) (s : List ℕ) → contains k (insert i s) ≡ ((i == k) || contains k s)
unfolding contains insert
contains-insert i k [] = refl
contains-insert i k (j ∷ s) = ground (arith, contains-insert i k s)

pub contains-remove :
    (i k : ℕ) (s : List ℕ) → IsOrdered s → contains k (remove i s) ≡ (not (i == k) && contains k s)
unfolding contains remove
contains-remove i k [] a = ground arith
contains-remove i k (j ∷ s) a =
    ground (arith, contains-remove i k s (Above-IsOrdered j s a), contains-Above k j s a)

pub contains-first :
    (k j : ℕ) (s : List ℕ) → IsOrdered (j ∷ s) → contains k s ≡ (not (j == k) && contains k (j ∷ s))
unfolding contains
contains-first k j s a = ground (arith, contains-Above k j s a)
