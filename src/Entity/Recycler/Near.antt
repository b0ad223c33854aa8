-- ===== src/Entity/Recycler/Near.antt =====
-- Polling a `BTreeSet` with a hint gives the identifier nearest to it.
use dynec.Common.{
  ℕ, ◌+◌, ◌-◌, ◌<◌, ◌≤◌, ◌≡◌, refl, true, false, Option, none, some, List, [], ◌∷◌, arith, ==_refl,
  ltb, leb, if◌then◌else◌, Bool-cases, inl, inr, ok, ◌>>=◌,
}
use dynec.Common.OrdSet.{contains, remove, IsOrdered, Above, Above-IsOrdered, contains-Above}
use dynec.Entity.Raw.{sub}
use dynec.Entity.Recycler.{last_below, first_from, select, take_selected, btree_poll}

-- `x` is the greatest element below `near`, or there is none.
abbrev pub IsLast : ℕ → List ℕ → Option ℕ → Type 0
IsLast near s none = (y : ℕ) → contains y s ≡ true → near ≤ y
IsLast near s (some x) =
    (contains x s ≡ true) × (x < near) × ((y : ℕ) → contains y s ≡ true → y < near → y ≤ x)

-- `x` is the least element from `near` on, or there is none.
abbrev pub IsFirst : ℕ → List ℕ → Option ℕ → Type 0
IsFirst near s none = (y : ℕ) → contains y s ≡ true → y < near
IsFirst near s (some x) =
    (contains x s ≡ true) × (near ≤ x) × ((y : ℕ) → contains y s ≡ true → near ≤ y → x ≤ y)

Above-member : (x y : ℕ) (s : List ℕ) → Above x s → contains y s ≡ true → x < y
Above-member x y s a h = ground (arith, contains-Above y x s a, h)

pub last_below-IsLast : (near : ℕ) (s : List ℕ) → IsOrdered s → IsLast near s (last_below near s)
unfolding last_below contains
last_below-IsLast near [] a = λ y h. ground (arith, h)
last_below-IsLast near (x ∷ s) a = elim (Bool-cases (ltb x near)) [
  | inl below ↦ rw below (
      later (ground (arith, below)) (last_below near s)
        (last_below-IsLast near s (Above-IsOrdered x s a)))
  | inr not_below ↦ rw not_below (λ y h. ground (arith, h, not_below, Above-member x y s a))
]
  where
    later :
        x < near
        → (o : Option ℕ) → IsLast near s o
        → IsLast near (x ∷ s) (elim o [ none ↦ some x | some y ↦ some y ])
    later lt none h = (ground (arith, ==_refl x), lt, λ y k below. ground (arith, k, below, h y))
    later lt (some y) h = (
      ground (arith, h.0),
      h.1,
      λ z k below. ground (arith, k, below, h.2 z, Above-member x y s a h.0),
    )

pub first_from-IsFirst : (near : ℕ) (s : List ℕ) → IsOrdered s → IsFirst near s (first_from near s)
unfolding first_from contains
first_from-IsFirst near [] a = λ y h. ground (arith, h)
first_from-IsFirst near (x ∷ s) a = elim (Bool-cases (ltb x near)) [
  | inl below ↦ rw below (
      later (ground (arith, below)) (first_from near s)
        (first_from-IsFirst near s (Above-IsOrdered x s a)))
  | inr not_below ↦ rw not_below (
    ground (arith, ==_refl x),
    ground (arith, not_below),
    λ y h le. ground (arith, h, Above-member x y s a),
  )
]
  where
    later : x < near → (o : Option ℕ) → IsFirst near s o → IsFirst near (x ∷ s) o
    later lt none h = λ y k. ground (arith, k, h y, lt)
    later lt (some y) h = (ground (arith, h.0), h.1, λ z k from. ground (arith, k, from, h.2 z, lt))

abbrev pub distance : ℕ → ℕ → ℕ
distance a b = (a - b) + (b - a)

-- `select` never fails on the two neighbours of `near`.
pub select_lem :
    (near left right : ℕ)
    → left < near
    → near ≤ right
    → select near (some left) (some right)
      ≡ ok (some (if leb (near - left) (right - near) then left else right))
unfolding select sub
select_lem near left right lt le =
    let first : ltb near left ≡ false = ground (arith, lt) in
    let second : ltb right near ≡ false = ground (arith, le) in rw (first, second) refl

pub select_left : (near left : ℕ) → select near (some left) none ≡ ok (some left)
unfolding select
select_left near left = refl

pub select_right : (near right : ℕ) → select near none (some right) ≡ ok (some right)
unfolding select
select_right near right = refl

pub select-none : (near : ℕ) → select near none none ≡ ok none
unfolding select
select-none near = refl

nearest_selected :
    (near : ℕ) (s : List ℕ) (l r : Option ℕ) (y : ℕ)
    → IsLast near s l
    → IsFirst near s r
    → contains y s ≡ true
    → (id : ℕ) × ((select near l r >>= take_selected s) ≡ ok (some id, remove id s))
      × (contains id s ≡ true)
      × (distance near id ≤ distance near y)
unfolding take_selected
nearest_selected near s none none y hl hr h = absurd (ground (arith, hl y h, hr y h))
nearest_selected near s (some left) none y hl hr h =
    (left, rw (select_left near left, hl.0) refl, hl.0, ground (arith, hl.2 y h, hr y h, hl.1))
nearest_selected near s none (some right) y hl hr h =
    (right, rw (select_right near right, hr.0) refl, hr.0, ground (arith, hr.2 y h, hl y h, hr.1))
nearest_selected near s (some left) (some right) y hl hr h =
    elim (Bool-cases (leb (near - left) (right - near))) [
      | inl closer ↦ (
        left,
        rw (select_lem near left right hl.1 hr.1) (rw (closer, hl.0) refl),
        hl.0,
        ground (arith, hl.2 y h, hr.2 y h, hl.1, hr.1, closer),
      )
      | inr farther ↦ (
        right,
        rw (select_lem near left right hl.1 hr.1) (rw (farther, hr.0) refl),
        hr.0,
        ground (arith, hl.2 y h, hr.2 y h, hl.1, hr.1, farther),
      )
    ]

-- With a hint, on a set that is not empty, `poll` takes out a member that no member is nearer than.
pub btree_poll-nearest :
    (near : ℕ) (s : List ℕ) (y : ℕ)
    → IsOrdered s
    → contains y s ≡ true
    → (id : ℕ) × (btree_poll (some near) s ≡ ok (some id, remove id s))
      × (contains id s ≡ true)
      × (distance near id ≤ distance near y)
unfolding btree_poll
btree_poll-nearest near s y v h =
    nearest_selected near s (last_below near s) (first_from near s) y (last_below-IsLast near s v)
      (first_from-IsFirst near s v) h
