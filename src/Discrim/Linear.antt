-- ===== src/Discrim/Linear.antt =====
-- `LinearVecMap` of `src/comp/discrim.rs`.
pub mod Laws
use dynec.Common.{
  ℕ, zero, suc, ◌-◌, Bool, true, false, Option, none, some, List, [], ◌∷◌, ◌++◌, if◌then◌else◌,
  Outcome, ok, panic, Panic, ◌>>=◌, expect, length, get_elem?,
}
use dynec.Discrim.{Discrim, split_mut_array, map_array, map_with, slot_in, slots_from}
use dynec.Discrim.Full.{FullMap, and_then, second}

abbrev pub LinearVecMap : Type 0 → Type 0 → Type 0
LinearVecMap D V = List (D × V)

module _ {D V : Type 0} (discrim : Discrim D) where
  abbrev pub from_iter : List (D × V) → Outcome (LinearVecMap D V)
  from_iter xs = ok xs

  -- `iter().find(|&&(d, _)| d == key).map(|(_, s)| s)`
  unfoldable pub get_by : D → LinearVecMap D V → Option V
  get_by key [] = none
  get_by key ((d, v) ∷ m) = if discrim.same d key then some v else get_by key m

  -- `iter().position(|(d, _)| *d == key)`
  unfoldable pub position_from : ℕ → D → LinearVecMap D V → Option ℕ
  position_from i key [] = none
  position_from i key ((d, v) ∷ m) =
      if discrim.same d key then some i else position_from (suc i) key m

  -- The slot of the reference that `get_mut_by` gives.
  unfoldable pub get_mut_by : D → LinearVecMap D V → Option ℕ
  unfolding position_from
  get_mut_by key m = position_from 0 key m

  abbrev pub read : LinearVecMap D V → ℕ → Option V
  read m slot = and_then (get_elem? m slot) (λ (_, v). some v)

  unfoldable pub get_mut_array_by :
      {U : Type 0} (as_ptr : U → ℕ) (transform : ℕ → U)
      → List D
      → LinearVecMap D V
      → Outcome (List U)
  unfolding position_from
  get_mut_array_by as_ptr transform keys m =
      map_array (λ key. expect (position_from 0 key m) Panic.missing_key) keys >>= λ indices.
      split_mut_array as_ptr (λ index. ok (slot_in m index)) (λ _ slot. ok (transform slot))
        (λ _. Panic.unreachable) indices

  abbrev pub iter_mapped : LinearVecMap D V → Outcome (List (D × V))
  iter_mapped m = ok m

  abbrev pub into_iter_mapped : LinearVecMap D V → Outcome (List (D × V))
  into_iter_mapped m = ok m

  -- The slot, and the map after a push where the discriminant is new.
  unfoldable pub get_by_or_insert : D → V → LinearVecMap D V → Outcome (ℕ × LinearVecMap D V)
  unfolding position_from
  get_by_or_insert key v m = elim (position_from 0 key m) [
    | some i ↦ ok (i, m)
    | none ↦ ok (length m, m ++ (key, v) ∷ [])
  ]

  unfoldable pub get_by_or_insert_array :
      {U : Type 0} (as_ptr : U → ℕ) (inserter : D → V) (transform : D → ℕ → U)
      → List D
      → LinearVecMap D V
      → Outcome (List U × LinearVecMap D V)
  unfolding get_by_or_insert
  get_by_or_insert_array as_ptr inserter transform keys m =
      map_with (λ key m. get_by_or_insert key (inserter key) m) keys m >>= λ (indices, m').
      split_mut_array as_ptr (λ index. ok (slot_in m' index))
        (λ _ slot. expect (get_elem? m' slot) Panic.unreachable >>= λ (d, _). ok (transform d slot))
        (λ _. Panic.unreachable) indices
      >>= λ out. ok (out, m')

  abbrev pub linear_map : FullMap D V (LinearVecMap D V)
  linear_map = record {
    from_iter = from_iter;
    get_by = get_by;
    get_mut_by = get_mut_by;
    read = read;
    get_by_or_insert = get_by_or_insert;
    iter_mapped = iter_mapped;
  }

abbrev pub iter_mapped_mut : {D V : Type 0} → LinearVecMap D V → Outcome (List (D × ℕ))
iter_mapped_mut m = ok (slots_from 0 m)

-- `iter().map(|&(d, ref t)| (d, f(t))).collect()`
abbrev pub map_ref : {D V W : Type 0} → (V → W) → LinearVecMap D V → LinearVecMap D W
map_ref f [] = []
map_ref f ((d, v) ∷ m) = (d, f v) ∷ map_ref f m
