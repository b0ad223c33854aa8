-- ===== src/Entity/Recycling/Fill.antt =====
-- The order and the loop by which `flush` spreads identifiers over the shards.
use mathlib.Core.List.{map}
use dynec.Common.{
  ℕ, zero, suc, ◌+◌, ◌-◌, ◌<◌, ◌≤◌, ◌≡◌, refl, sym, ap, ◌∙◌, false, some, List, [], ◌∷◌, arith,
  ◌==◌, ltb, leb, if◌then◌else◌, Bool-cases, inl, inr, ok, All, sum_of, length, get_elem?, set,
  take, drop, length-set, length-drop, take-append-drop, get_elem?_within, get_elem?-set_ne,
}
use dynec.Common.Bags.{tally, tally-cons, tally-append}
use dynec.Entity.Distribute.Scan.{sum, IsSortedFrom}
use dynec.Entity.Distribute.Even.{IsEven}
use dynec.Entity.Recycler.{Recycler}
use dynec.Entity.Recycler.Laws.{IsRecycler}
use dynec.Entity.Recycling.{len_at, fill, insert_by, sort_by_key, positions}
use dynec.Entity.Recycling.Sound.{free, sum_of-set, sum_of-get, All-set, All-get_elem?}

tally-insert_by :
    (key : ℕ → ℕ) (p x : ℕ) (qs : List ℕ) → tally x (insert_by key p qs) ≡ tally x (p ∷ qs)
unfolding insert_by tally
tally-insert_by key p x [] = refl
tally-insert_by key p x (q ∷ qs) = ground (arith, tally-insert_by key p x qs)

-- Sorting permutes.
pub tally-sort_by_key :
    (key : ℕ → ℕ) (x : ℕ) (ps : List ℕ) → tally x (sort_by_key key ps) ≡ tally x ps
unfolding sort_by_key tally
tally-sort_by_key key x [] = refl
tally-sort_by_key key x (p ∷ ps) = omega (
  arith,
  tally-insert_by key p x (sort_by_key key ps),
  tally-sort_by_key key x ps,
  tally-cons x p (sort_by_key key ps),
)

IsSortedFrom-insert_by :
    (key : ℕ → ℕ) (low p : ℕ) (qs : List ℕ)
    → low ≤ key p
    → IsSortedFrom low (map key qs)
    → IsSortedFrom low (map key (insert_by key p qs))
unfolding insert_by
IsSortedFrom-insert_by key low p [] le h = (le, tt)
IsSortedFrom-insert_by key low p (q ∷ qs) le h = elim (Bool-cases (leb (key p) (key q))) [
  | inl first ↦ rw first (le, (ground (arith, first), h.1))
  | inr later ↦ rw later (h.0, IsSortedFrom-insert_by key (key q) p qs (ground (arith, later)) h.1)
]

pub IsSortedFrom-sort_by_key :
    (key : ℕ → ℕ) (ps : List ℕ) → IsSortedFrom 0 (map key (sort_by_key key ps))
unfolding sort_by_key
IsSortedFrom-sort_by_key key [] = tt
IsSortedFrom-sort_by_key key (p ∷ ps) =
    IsSortedFrom-insert_by key 0 p (sort_by_key key ps) (omega arith)
      (IsSortedFrom-sort_by_key key ps)

pub tally-positions : (n p : ℕ) → tally p (positions n) ≡ (if ltb p n then 1 else 0)
unfolding positions tally
tally-positions zero p = ground arith
tally-positions (suc n) p =
    ground (arith, tally-positions n p, tally-append p (positions n) (n ∷ []))

module _ {R Hint : Type 0} {recycler : Recycler R Hint} (laws : IsRecycler recycler) where
  -- No shard in the order has more than its target.
  abbrev pub Grows : List R → List ℕ → List ℕ → Type 0
  Grows shards [] targets = Unit {0}
  Grows shards (p ∷ order) [] = ⊥
  Grows shards (p ∷ order) (t ∷ targets) =
      (len_at recycler shards p ≤ t) × Grows shards order targets

  pub IsEven-Grows :
      (shards : List R) (t : ℕ) (order targets : List ℕ)
      → IsEven t (map (len_at recycler shards) order) targets
      → Grows shards order targets
  IsEven-Grows shards t [] targets h = tt
  IsEven-Grows shards t (p ∷ order) [] h = absurd h
  IsEven-Grows shards t (p ∷ order) (target ∷ targets) h =
      (h.0.0, IsEven-Grows shards t order targets h.1)

  len_at-set :
      (shards : List R) (p q : ℕ) (r : R)
      → (p == q) ≡ false
      → len_at recycler (set shards p r) q ≡ len_at recycler shards q
  len_at-set shards p q r h =
      rw (len_at, get_elem?-set_ne shards p q r (λ e. ground (arith, e, h))) refl

  Grows-set :
      (shards : List R) (p : ℕ) (r : R) (order targets : List ℕ)
      → tally p order ≡ 0
      → Grows shards order targets
      → Grows (set shards p r) order targets
  unfolding tally
  Grows-set shards p r [] targets h g = tt
  Grows-set shards p r (q ∷ order) [] h g = g
  Grows-set shards p r (q ∷ order) (t ∷ targets) h g = (
    ground (arith, h, g.0, len_at-set shards p q r),
    Grows-set shards p r order targets (ground (arith, h)) g.1,
  )

  sum_of-len_at-set :
      (shards : List R) (p : ℕ) (r : R) (order : List ℕ)
      → tally p order ≡ 0
      → sum_of (len_at recycler (set shards p r)) order ≡ sum_of (len_at recycler shards) order
  unfolding tally sum_of
  sum_of-len_at-set shards p r [] h = refl
  sum_of-len_at-set shards p r (q ∷ order) h =
      ground (arith, h, len_at-set shards p q r, sum_of-len_at-set shards p r order)

  -- What the loop did with the identifiers.
  pub record IsFilled (ids : List ℕ) (shards shards' : List R) : Type 0 where
    pub valid : All laws.IsValid shards'
    pub same_length : length shards' ≡ length shards
    pub filled : (x : ℕ) → free laws shards' x ≡ free laws shards x + tally x ids

  Grows-sum :
      (shards : List R) (order targets : List ℕ)
      → Grows shards order targets
      → sum_of (len_at recycler shards) order ≤ sum targets
  unfolding sum sum_of
  Grows-sum shards [] targets g = omega arith
  Grows-sum shards (p ∷ order) [] g = absurd g
  Grows-sum shards (p ∷ order) (t ∷ targets) g =
      omega (arith, g.0, Grows-sum shards order targets g.1)

  -- The shard at a position after it took the first `n` identifiers.
  record IsPlaced (shards : List R) (p n : ℕ) (ids : List ℕ) (r : R) : Type 0 where
    pub valid : All laws.IsValid (set shards p (recycler.extend (take n ids) r))
    pub held :
        (x : ℕ)
        → free laws (set shards p (recycler.extend (take n ids) r)) x + tally x (drop n ids)
          ≡ free laws shards x + tally x ids

  place_lem :
      (shards : List R) (p n : ℕ) (ids : List ℕ) (r : R)
      → get_elem? shards p ≡ some r
      → All laws.IsValid shards
      → ((x : ℕ) → free laws shards x + tally x ids ≤ 1)
      → IsPlaced shards p n ids r
  place_lem shards p n ids r er v fresh =
      let rv : laws.IsValid r = All-get_elem? laws.IsValid shards p r v er in
      let parts : (x : ℕ) → tally x (take n ids) + tally x (drop n ids) ≡ tally x ids = λ x.
        sym (tally-append x (take n ids) (drop n ids)) ∙ ap (tally x) (take-append-drop n ids) in
      let once : (x : ℕ) → laws.holds x r + tally x (take n ids) ≤ 1 =
        λ x. omega (arith, fresh x, parts x, sum_of-get (laws.holds x) shards p r er) in
      record {
        valid =
            All-set laws.IsValid shards p (recycler.extend (take n ids) r) v
              (laws.extend_valid (take n ids) r rv once);
        held = λ x. omega (
          arith,
          parts x,
          laws.holds-extend (take n ids) r rv once x,
          sum_of-set (laws.holds x) shards p r (recycler.extend (take n ids) r) er,
        );
      }

  pub fill_lem :
      (order targets ids : List ℕ) (shards : List R)
      → ((p : ℕ) → tally p order ≤ 1)
      → ((p : ℕ) → 0 < tally p order → p < length shards)
      → Grows shards order targets
      → sum targets ≡ sum_of (len_at recycler shards) order + length ids
      → length order ≡ length targets
      → All laws.IsValid shards
      → ((x : ℕ) → free laws shards x + tally x ids ≤ 1)
      → (shards' : List R) × (fill recycler order targets ids shards ≡ ok shards')
        × IsFilled ids shards shards'
  unfolding fill sum sum_of tally
  fill_lem [] [] [] shards once known g total same v fresh =
      (shards, refl, record { valid = v; same_length = refl; filled = λ x. omega arith })
  fill_lem [] (t ∷ targets) ids shards once known g total same v fresh = absurd (omega arith)
  fill_lem [] [] (id ∷ ids) shards once known g total same v fresh = absurd (omega arith)
  fill_lem (p ∷ order) [] ids shards once known g total same v fresh = absurd g
  fill_lem (p ∷ order) (target ∷ targets) ids shards once known g total same v fresh =
      let here : 0 < tally p (p ∷ order) = ground arith in
      let gone : tally p order ≡ 0 = ground (arith, once p) in
      let (r, er) = get_elem?_within shards p (known p here) in
      let size : len_at recycler shards p ≡ recycler.len r = rw (len_at, er) refl in
      let n : ℕ = target - recycler.len r in
      let r' : R = recycler.extend (take n ids) r in
      let fits : recycler.len r ≤ target = omega (arith, g.0, size) in
      let enough : n ≤ length ids =
        omega (arith, fits, size, total, Grows-sum shards order targets g.1) in
      let placed : IsPlaced shards p n ids r = place_lem shards p n ids r er v fresh in
      let (shards', run, filled) =
        fill_lem order targets (drop n ids) (set shards p r') (λ q. ground (arith, once q))
          (λ q m. omega (arith, length-set shards p r', known q (ground (arith, m))))
          (Grows-set shards p r' order targets gone g.1)
          (omega (
            arith,
            fits,
            size,
            enough,
            total,
            sum_of-len_at-set shards p r' order gone,
            length-drop n ids,
          ))
          (omega (arith, same)) placed.valid (λ x. omega (arith, placed.held x, fresh x)) in
      let small : ltb target (recycler.len r) ≡ false = ground (arith, fits) in
      let within : ltb (length ids) n ≡ false = ground (arith, enough) in
      (
        shards',
        rw (er, small, within) run,
        record {
          valid = filled.valid;
          same_length = filled.same_length ∙ length-set shards p r';
          filled = λ x. omega (arith, filled.filled x, placed.held x);
        },
      )
