-- ===== src/Entity/Recycler/Laws.antt =====
-- The interface of a recycler that an allocator relies on, and its instances for the stack and the B-tree.
use dynec.Common.{
  ℕ, ◌+◌, ◌-◌, ◌≤◌, ◌≡◌, refl, true, false, Option, none, some, List, [], ◌∷◌, arith, ◌==◌, leb,
  if◌then◌else◌, Bool-cases, inl, inr, ok, ◌>>=◌, length, length-append, length-reverse,
}
use mathlib.Core.List.{reverse}
use dynec.Common.OrdSet.{
  contains, insert, remove, pop_first, IsOrdered, Above-IsOrdered, insert-IsOrdered,
  remove-IsOrdered,
}
use dynec.Common.Bags.{
  tally, tally_nil, tally-cons, tally-append, tally-reverse, tally-contains, tally-insert,
  tally-remove,
}
use dynec.Entity.Recycler.{
  Recycler, vec_recycler, vec_poll, btree_recycler, insert_all, last_below, first_from, select,
  take_selected, btree_poll,
}
use dynec.Entity.Recycler.Near.{
  IsLast, IsFirst, select_lem, select_left, select_right, select-none, last_below-IsLast,
  first_from-IsFirst,
}

-- How often an identifier is handed out by a poll.
abbrev pub given : ℕ → Option ℕ → ℕ
given x none = 0
given x (some id) = if id == x then 1 else 0

-- A poll that returns gave at most one identifier away, and gives one unless there is none.
pub record IsPolled {R : Type 0} (holds : ℕ → R → ℕ) (len : R → ℕ) (r : R) (o : Option ℕ) (r' : R)
    : Type 0 where
  pub moved : (x : ℕ) → holds x r ≡ holds x r' + given x o
  pub exhausted : o ≡ none → len r ≡ 0

pub record IsRecycler {R Hint : Type 0} (recycler : Recycler R Hint) : Type 1 where
  pub IsValid : R → Type 0
  pub holds : ℕ → R → ℕ
  pub empty_valid : IsValid recycler.empty
  pub empty_holds : (x : ℕ) → holds x recycler.empty ≡ 0
  pub extend_valid :
      (ids : List ℕ) (r : R)
      → IsValid r
      → ((x : ℕ) → holds x r + tally x ids ≤ 1)
      → IsValid (recycler.extend ids r)
  pub len-extend :
      (ids : List ℕ) (r : R)
      → IsValid r
      → ((x : ℕ) → holds x r + tally x ids ≤ 1)
      → recycler.len (recycler.extend ids r) ≡ recycler.len r + length ids
  pub holds-extend :
      (ids : List ℕ) (r : R)
      → IsValid r
      → ((x : ℕ) → holds x r + tally x ids ≤ 1)
      → (x : ℕ) → holds x (recycler.extend ids r) ≡ holds x r + tally x ids
  pub poll_lem :
      (hint : Hint) (r : R)
      → IsValid r
      → (o : Option ℕ) × (r' : R) × (recycler.poll hint r ≡ ok (o, r'))
        × IsValid r'
        × IsPolled holds recycler.len r o r'

pub vec_poll_lem :
    (hint : Unit {0}) (r : List ℕ)
    → (o : Option ℕ) × (r' : List ℕ) × (vec_poll hint r ≡ ok (o, r'))
      × (Unit {0})
      × IsPolled tally length r o r'
unfolding vec_poll
vec_poll_lem hint [] =
    (none, [], refl, tt, record { moved = λ x. omega arith; exhausted = λ e. refl })
vec_poll_lem hint (id ∷ ids) = (
  some id,
  ids,
  refl,
  tt,
  record { moved = λ x. omega (arith, tally-cons x id ids); exhausted = λ e. ground (arith, e) },
)

abbrev pub vec_recycler-IsRecycler : IsRecycler vec_recycler
vec_recycler-IsRecycler = record {
  IsValid = λ r. Unit {0};
  holds = tally;
  empty_valid = tt;
  empty_holds = tally_nil;
  extend_valid = λ ids r v once. tt;
  len-extend = λ ids r v once. omega (arith, length-append (reverse ids) r, length-reverse ids);
  holds-extend =
      λ ids r v once x. omega (arith, tally-append x (reverse ids) r, tally-reverse x ids);
  poll_lem = λ hint r v. vec_poll_lem hint r;
}

length-insert : (i : ℕ) (s : List ℕ) → contains i s ≡ false → length (insert i s) ≡ length s + 1
unfolding contains insert
length-insert i [] h = omega arith
length-insert i (y ∷ s) h = ground (arith, length-insert i s, h)

-- A new identifier is not in the set yet.
absent :
    (i : ℕ) (ids s : List ℕ)
    → IsOrdered s
    → ((x : ℕ) → tally x s + tally x (i ∷ ids) ≤ 1)
    → contains i s ≡ false
absent i ids s v once = ground (arith, once i, tally-cons i i ids, tally-contains i s v)

rest_once :
    (i : ℕ) (ids s : List ℕ)
    → IsOrdered s
    → ((x : ℕ) → tally x s + tally x (i ∷ ids) ≤ 1)
    → (x : ℕ) → tally x (insert i s) + tally x ids ≤ 1
rest_once i ids s v once x =
    omega (arith, once x, tally-cons x i ids, tally-insert x i s (absent i ids s v once))

pub insert_all-IsOrdered : (ids s : List ℕ) → IsOrdered s → IsOrdered (insert_all ids s)
unfolding insert_all
insert_all-IsOrdered [] s v = v
insert_all-IsOrdered (i ∷ ids) s v = insert_all-IsOrdered ids (insert i s) (insert-IsOrdered i s v)

pub length-insert_all :
    (ids s : List ℕ)
    → IsOrdered s
    → ((x : ℕ) → tally x s + tally x ids ≤ 1)
    → length (insert_all ids s) ≡ length s + length ids
unfolding insert_all
length-insert_all [] s v once = omega arith
length-insert_all (i ∷ ids) s v once = omega (
  arith,
  length-insert_all ids (insert i s) (insert-IsOrdered i s v) (rest_once i ids s v once),
  length-insert i s (absent i ids s v once),
)

pub tally-insert_all :
    (ids s : List ℕ)
    → IsOrdered s
    → ((x : ℕ) → tally x s + tally x ids ≤ 1)
    → (x : ℕ) → tally x (insert_all ids s) ≡ tally x s + tally x ids
unfolding insert_all
tally-insert_all [] s v once x = omega (arith, tally_nil x)
tally-insert_all (i ∷ ids) s v once x = omega (
  arith,
  tally-insert_all ids (insert i s) (insert-IsOrdered i s v) (rest_once i ids s v once) x,
  tally-insert x i s (absent i ids s v once),
  tally-cons x i ids,
)

-- Taking a member out of the set.
take-IsPolled :
    (i : ℕ) (s : List ℕ)
    → IsOrdered s
    → contains i s ≡ true
    → (o : Option ℕ) × (r' : List ℕ) × (take_selected s (some i) ≡ ok (o, r'))
      × IsOrdered r'
      × IsPolled tally length s o r'
unfolding take_selected
take-IsPolled i s v h = (
  some i,
  remove i s,
  rw h refl,
  remove-IsOrdered i s v,
  record { moved = λ x. omega (arith, tally-remove x i s h); exhausted = λ e. ground (arith, e) },
)

empty_of_none : (near : ℕ) (s : List ℕ) → IsLast near s none → IsFirst near s none → length s ≡ 0
unfolding contains
empty_of_none near [] l f = refl
empty_of_none near (x ∷ s) l f = absurd (ground (arith, l x, f x))

IsPolled-near :
    (near : ℕ) (s : List ℕ) (left right : Option ℕ)
    → IsOrdered s
    → IsLast near s left
    → IsFirst near s right
    → (o : Option ℕ) × (r' : List ℕ) × ((select near left right >>= take_selected s) ≡ ok (o, r'))
      × IsOrdered r'
      × IsPolled tally length s o r'
unfolding take_selected
IsPolled-near near s none none v l f = (
  none,
  s,
  rw (select-none near) refl,
  v,
  record { moved = λ x. omega arith; exhausted = λ e. empty_of_none near s l f },
)
IsPolled-near near s none (some right) v l f =
    rw (select_right near right) (take-IsPolled right s v f.0)
IsPolled-near near s (some left) none v l f =
    rw (select_left near left) (take-IsPolled left s v l.0)
IsPolled-near near s (some left) (some right) v l f =
    rw (select_lem near left right l.1 f.1) (elim (Bool-cases (leb (near - left) (right - near))) [
      | inl closer ↦ rw closer (take-IsPolled left s v l.0)
      | inr farther ↦ rw farther (take-IsPolled right s v f.0)
    ])

pub btree_poll_lem :
    (hint : Option ℕ) (s : List ℕ)
    → IsOrdered s
    → (o : Option ℕ) × (r' : List ℕ) × (btree_poll hint s ≡ ok (o, r'))
      × IsOrdered r'
      × IsPolled tally length s o r'
unfolding btree_poll pop_first
btree_poll_lem (some near) s v =
    IsPolled-near near s (last_below near s) (first_from near s) v (last_below-IsLast near s v)
      (first_from-IsFirst near s v)
btree_poll_lem none [] v =
    (none, [], refl, tt, record { moved = λ x. omega arith; exhausted = λ e. refl })
btree_poll_lem none (x ∷ s) v = (
  some x,
  s,
  refl,
  Above-IsOrdered x s v,
  record { moved = λ y. omega (arith, tally-cons y x s); exhausted = λ e. ground (arith, e) },
)

abbrev pub btree_recycler-IsRecycler : IsRecycler btree_recycler
btree_recycler-IsRecycler = record {
  IsValid = IsOrdered;
  holds = tally;
  empty_valid = tt;
  empty_holds = tally_nil;
  extend_valid = λ ids r v once. insert_all-IsOrdered ids r v;
  len-extend = length-insert_all;
  holds-extend = tally-insert_all;
  poll_lem = btree_poll_lem;
}
