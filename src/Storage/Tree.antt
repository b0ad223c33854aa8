-- ===== src/Storage/Tree.antt =====
-- `Tree` of `src/storage/tree.rs`. The B-tree map is its list of entries in increasing order; a mutable
-- reference to a value is the entity whose value it is.
pub mod Same
pub mod Bounds
pub mod Runs
pub mod Many
use dynec.Common.{
  ℕ, suc, Bool, true, false, not, ◌&&◌, Option, none, some, List, [], ◌∷◌, map, ◌==◌, ltb, leb,
  if◌then◌else◌, Outcome, ok, Panic, ◌>>=◌, ◌>>◌, ensure, length,
}
use dynec.Util.{all, is_all_distinct_quadtime}

abbrev pub Tree {ℓ} : Type ℓ → Type ℓ
Tree C = List (ℕ × C)

-- An optional pointer; the null one is zero.
abbrev pub address : Option ℕ → ℕ
address none = 0
address (some id) = suc id

-- `ptrs.iter().any(|ptr| ptr.is_none())`, negated.
unfoldable pub all_found : List (Option ℕ) → Option (List ℕ)
all_found [] = some []
all_found (none ∷ ptrs) = none
all_found (some id ∷ ptrs) = elim (all_found ptrs) [ none ↦ none | some ids ↦ some (id ∷ ids) ]

module _ {ℓ} {C : Type ℓ} where
  abbrev pub default : Tree C
  default = []

  unfoldable pub get : ℕ → Tree C → Option C
  get id [] = none
  get id ((j, c) ∷ entries) = if j == id then some c else get id entries

  -- `BTreeMap::insert`
  unfoldable pub insert : ℕ → C → Tree C → Tree C
  insert id c [] = (id, c) ∷ []
  insert id c ((j, d) ∷ entries) =
      if ltb id j
      then (id, c) ∷ (j, d) ∷ entries
      else if j == id
      then (id, c) ∷ entries
      else (j, d) ∷ insert id c entries

  -- `BTreeMap::remove`
  unfoldable pub remove : ℕ → Tree C → Tree C
  remove id [] = []
  remove id ((j, d) ∷ entries) = if j == id then entries else (j, d) ∷ remove id entries

  -- `set` of the trait; the old value and the new map.
  unfoldable pub store : ℕ → Option C → Tree C → Option C × Tree C
  unfolding get insert remove
  store id (some new) entries = (get id entries, insert id new entries)
  store id none entries = (get id entries, remove id entries)

  abbrev pub cardinality : Tree C → ℕ
  cardinality entries = length entries

  abbrev pub iter : Tree C → List (ℕ × C)
  iter entries = entries

  -- The reference that `get_mut` returns.
  unfoldable pub get_mut : ℕ → Tree C → Option ℕ
  unfolding get
  get_mut id entries = elim (get id entries) [ none ↦ none | some _ ↦ some id ]

  unfoldable pub get_many_mut : List ℕ → Tree C → Option (List ℕ)
  unfolding get_mut all_found is_all_distinct_quadtime
  get_many_mut entities entries =
      let ptrs = map (λ entity. get_mut entity entries) entities in
      if is_all_distinct_quadtime (map address ptrs) then all_found ptrs else none

-- `StoragePartition`; the map is an argument of its operations.
pub record StoragePartition : Type 0 where
  pub lower_bound : Option ℕ
  pub upper_bound : Option ℕ

abbrev pub as_partition : StoragePartition
as_partition = record { lower_bound = none; upper_bound = none }

abbrev pub from_lower : Option ℕ → ℕ → Bool
from_lower none entity = true
from_lower (some bound) entity = leb bound entity

abbrev pub to_upper : Option ℕ → ℕ → Bool
to_upper none entity = true
to_upper (some bound) entity = ltb entity bound

abbrev pub assert_bounds : StoragePartition → ℕ → Outcome (Unit {0})
assert_bounds p entity =
    ensure (from_lower p.lower_bound entity) Panic.out_of_partition
    >> ensure (to_upper p.upper_bound entity) Panic.out_of_partition

-- The left part, and the right one that is returned.
unfoldable pub split_out : StoragePartition → ℕ → Outcome (StoragePartition × StoragePartition)
split_out p entity =
    assert_bounds p entity
    >> ok (
      record p { upper_bound = some entity },
      record { lower_bound = some entity; upper_bound = p.upper_bound },
    )

unfoldable pub assert_all : StoragePartition → List ℕ → Outcome (Unit {0})
assert_all p [] = ok tt
assert_all p (entity ∷ entities) = assert_bounds p entity >> assert_all p entities

module _ {ℓ} {C : Type ℓ} where
  unfoldable pub into_mut : StoragePartition → ℕ → Tree C → Outcome (Option ℕ)
  unfolding get_mut
  into_mut p entity entries = assert_bounds p entity >> ok (get_mut entity entries)

  unfoldable pub into_many_mut : StoragePartition → List ℕ → Tree C → Outcome (Option (List ℕ))
  unfolding assert_all get_many_mut
  into_many_mut p entities entries = assert_all p entities >> ok (get_many_mut entities entries)

  -- `range` of the bounds.
  unfoldable pub into_iter_mut : StoragePartition → Tree C → List (ℕ × C)
  into_iter_mut p [] = []
  into_iter_mut p ((j, c) ∷ entries) =
      if from_lower p.lower_bound j && to_upper p.upper_bound j
      then (j, c) ∷ into_iter_mut p entries
      else into_iter_mut p entries
