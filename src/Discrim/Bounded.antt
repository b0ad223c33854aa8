-- ===== src/Discrim/Bounded.antt =====
-- `BoundedVecMap` of `src/comp/discrim.rs`.
pub mod Laws
use dynec.Common.{
  ℕ, zero, suc, ◌+◌, ◌-◌, Bool, true, false, Option, none, some, List, [], ◌∷◌, ◌++◌, map, ltb, leb,
  if◌then◌else◌, Outcome, ok, panic, Panic, ◌>>=◌, expect, length, get_elem?, set, replicate,
}
use dynec.Discrim.{Discrim, split_mut_array, map_array, map_with, entry_in}
use dynec.Discrim.Full.{FullMap, and_then, unwrap_or}

abbrev pub BoundedVecMap : Type 0 → Type 0
BoundedVecMap V = List (Option V)

-- `resize_with(len, || None)`, where the vector is not longer.
abbrev pub resize_with {ℓ} : {V : Type ℓ} → ℕ → List (Option V) → List (Option V)
resize_with len m = m ++ replicate (len - length m) none

-- `enumerate().filter_map(|(discrim, value)| Some((D::from_usize(discrim), value?)))`: the conversion is
-- applied first, to every index.
unfoldable pub iter_entries :
    {D V : Type 0} (discrim : Discrim D) → ℕ → List (Option V) → Outcome (List (D × V))
iter_entries discrim i [] = ok []
iter_entries discrim i (none ∷ m) = discrim.from_usize i >>= λ _. iter_entries discrim (suc i) m
iter_entries discrim i (some v ∷ m) =
    discrim.from_usize i >>= λ d. iter_entries discrim (suc i) m >>= λ xs. ok ((d, v) ∷ xs)

-- The same on `iter_mut()`, with the slots of the references.
unfoldable pub iter_mut_entries :
    {D V : Type 0} (discrim : Discrim D) → ℕ → List (Option V) → Outcome (List (D × ℕ))
iter_mut_entries discrim i [] = ok []
iter_mut_entries discrim i (none ∷ m) =
    discrim.from_usize i >>= λ _. iter_mut_entries discrim (suc i) m
iter_mut_entries discrim i (some v ∷ m) =
    discrim.from_usize i >>= λ d. iter_mut_entries discrim (suc i) m >>= λ xs. ok ((d, i) ∷ xs)

module _ {D V : Type 0} (discrim : Discrim D) where
  unfoldable pub extend : List (D × V) → BoundedVecMap V → BoundedVecMap V
  extend [] m = m
  extend ((d, v) ∷ xs) m =
      let index = discrim.into_usize d in
      extend xs
        (set (if ltb (length m) (index + 1) then resize_with (index + 1) m else m) index (some v))

  -- The lower bound of the iterator's size is `hint`.
  abbrev pub from_iter_hint : ℕ → List (D × V) → Outcome (BoundedVecMap V)
  from_iter_hint hint xs = ok (extend xs (replicate hint none))

  abbrev pub read : BoundedVecMap V → ℕ → Option V
  read m slot = and_then (get_elem? m slot) (λ o. o)

  abbrev pub get_by : D → BoundedVecMap V → Option V
  get_by key m = and_then (get_elem? m (discrim.into_usize key)) (λ o. o)

  abbrev pub get_mut_by : D → BoundedVecMap V → Option ℕ
  get_mut_by key m = entry_in m (discrim.into_usize key)

  unfoldable pub get_mut_array_by :
      {U : Type 0} (as_ptr : U → ℕ) (transform : ℕ → U)
      → List D
      → BoundedVecMap V
      → Outcome (List U)
  get_mut_array_by as_ptr transform keys m =
      split_mut_array as_ptr (λ index. ok (entry_in m index)) (λ _ slot. ok (transform slot))
        (λ _. Panic.missing_key) (map discrim.into_usize keys)

  abbrev pub iter_mapped : BoundedVecMap V → Outcome (List (D × V))
  iter_mapped m = iter_entries discrim 0 m

  abbrev pub iter_mapped_mut : BoundedVecMap V → Outcome (List (D × ℕ))
  iter_mapped_mut m = iter_mut_entries discrim 0 m

  abbrev pub into_iter_mapped : BoundedVecMap V → Outcome (List (D × V))
  into_iter_mapped m = iter_entries discrim 0 m

  -- `entry.get_or_insert_with(inserter)`
  abbrev pub fill_entry : ℕ → V → BoundedVecMap V → Outcome (ℕ × BoundedVecMap V)
  fill_entry index v m = expect (get_elem? m index) Panic.unreachable >>= λ entry.
      ok (index, set m index (some (unwrap_or entry v)))

  unfoldable pub get_by_or_insert : D → V → BoundedVecMap V → Outcome (ℕ × BoundedVecMap V)
  get_by_or_insert key v m =
      let index = discrim.into_usize key in
      fill_entry index v (if leb (length m) index then resize_with (index + 1) m else m)

  -- The transform gets the discriminant of the position in `keys`.
  unfoldable pub get_by_or_insert_array :
      {U : Type 0} (as_ptr : U → ℕ) (inserter : D → V) (transform : D → ℕ → U)
      → List D
      → BoundedVecMap V
      → Outcome (List U × BoundedVecMap V)
  unfolding get_by_or_insert
  get_by_or_insert_array as_ptr inserter transform keys m =
      map_with (λ key m. get_by_or_insert key (inserter key) m) keys m >>= λ (indices, m').
      split_mut_array as_ptr
        (λ index. expect (get_elem? m' index) Panic.unreachable >>= λ _. ok (entry_in m' index))
        (λ i slot. discrim.from_usize i >>= λ d. ok (transform d slot)) (λ _. Panic.unreachable)
        indices
      >>= λ out. ok (out, m')

  abbrev pub bounded_map : ℕ → FullMap D V (BoundedVecMap V)
  bounded_map hint = record {
    from_iter = from_iter_hint hint;
    get_by = get_by;
    get_mut_by = get_mut_by;
    read = read;
    get_by_or_insert = get_by_or_insert;
    iter_mapped = iter_mapped;
  }

-- `iter().map(|option| option.as_ref().map(&mut f)).collect()`
abbrev pub map_ref : {V W : Type 0} → (V → W) → BoundedVecMap V → BoundedVecMap W
map_ref f [] = []
map_ref f (none ∷ m) = none ∷ map_ref f m
map_ref f (some v ∷ m) = some (f v) ∷ map_ref f m
