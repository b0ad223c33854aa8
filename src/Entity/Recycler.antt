-- ===== src/Entity/Recycler.antt =====
-- Recyclers of identifiers: `src/entity/ealloc/recycling/recycler.rs`.
pub mod Near
pub mod Laws
use dynec.Common.{
  ℕ, ◌+◌, ◌-◌, ◌≤◌, Bool, true, false, Option, none, some, List, [], ◌∷◌, ◌++◌, ltb, leb,
  if◌then◌else◌, Outcome, ok, panic, Panic, ◌>>=◌, length,
}
use mathlib.Core.List.{reverse}
use dynec.Common.OrdSet.{contains, insert, remove, pop_first}
use dynec.Entity.Raw.{sub}

-- The trait `Recycler`.
pub record Recycler (R Hint : Type 0) : Type 0 where
  pub empty : R
  pub len : R → ℕ
  pub extend : List ℕ → R → R
  pub poll : Hint → R → Outcome (Option ℕ × R)

-- `Vec`: the head of the list is the end of the vector.
unfoldable pub vec_poll : Unit {0} → List ℕ → Outcome (Option ℕ × List ℕ)
vec_poll hint [] = ok (none, [])
vec_poll hint (id ∷ ids) = ok (some id, ids)

abbrev pub vec_recycler : Recycler (List ℕ) (Unit {0})
vec_recycler = record {
  empty = [];
  len = length;
  extend = λ ids r. reverse ids ++ r;
  poll = vec_poll;
}

unfoldable pub insert_all : List ℕ → List ℕ → List ℕ
insert_all [] s = s
insert_all (id ∷ ids) s = insert_all ids (insert id s)

-- `range(..near).rev().next()` and `range(near..).next()`
unfoldable pub last_below : ℕ → List ℕ → Option ℕ
last_below near [] = none
last_below near (x ∷ s) =
    if ltb x near then (elim (last_below near s) [ none ↦ some x | some y ↦ some y ]) else none

unfoldable pub first_from : ℕ → List ℕ → Option ℕ
first_from near [] = none
first_from near (x ∷ s) = if ltb x near then first_from near s else some x

unfoldable pub select : ℕ → Option ℕ → Option ℕ → Outcome (Option ℕ)
unfolding sub
select near (some left) (some right) = do
  left_delta ← sub near left
  right_delta ← sub right near
  ok (some (if leb left_delta right_delta then left else right))
select near (some left) none = ok (some left)
select near none (some right) = ok (some right)
select near none none = ok none

unfoldable pub take_selected : List ℕ → Option ℕ → Outcome (Option ℕ × List ℕ)
take_selected s none = ok (none, s)
take_selected s (some selected) =
    if contains selected s
    then ok (some selected, remove selected s)
    else panic Panic.assertion_failed

abbrev pub popped : List ℕ → Option (ℕ × List ℕ) → Option ℕ × List ℕ
popped s none = (none, s)
popped s (some (id, rest)) = (some id, rest)

-- The hint is `BTreeHint::near`.
unfoldable pub btree_poll : Option ℕ → List ℕ → Outcome (Option ℕ × List ℕ)
unfolding last_below first_from select take_selected
btree_poll (some near) s = select near (last_below near s) (first_from near s) >>= take_selected s
btree_poll none s = ok (popped s (pop_first s))

abbrev pub btree_recycler : Recycler (List ℕ) (Option ℕ)
btree_recycler = record { empty = []; len = length; extend = insert_all; poll = btree_poll }
