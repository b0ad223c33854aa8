-- ===== src/Discrim/Sorted.antt =====
-- `SortedVecMap` of `src/comp/discrim.rs`. The binary search of the standard library is modelled by what
-- it returns on a vector that is sorted without repetition: the index of the key, or the index at which it
-- would be inserted.
pub mod Search
pub mod Laws
use dynec.Common.{
  ℕ, zero, suc, Bool, true, false, Option, none, some, List, [], ◌∷◌, ◌++◌, ◌==◌, ltb, leb,
  if◌then◌else◌, Outcome, ok, panic, Panic, ◌>>=◌, expect, length, get_elem?, take, drop,
}
use dynec.Discrim.{Discrim, split_mut_array, map_array, map_with, slot_in, slots_from}
use dynec.Discrim.Full.{FullMap, and_then, second}

abbrev pub SortedVecMap : Type 0 → Type 0 → Type 0
SortedVecMap D V = List (D × V)

-- `Ok(index)` or `Err(index)`
pub data Found : Type 0 where
  at : ℕ → Found
  insert_at : ℕ → Found

-- `vec.insert(index, value)`
abbrev pub insert_value {ℓ} : {A : Type ℓ} → ℕ → A → List A → List A
insert_value zero a xs = a ∷ xs
insert_value (suc i) a [] = a ∷ []
insert_value (suc i) a (x ∷ xs) = x ∷ insert_value i a xs

module _ {D V : Type 0} (discrim : Discrim D) where
  -- `sort_by_key(|(d, _)| d.into_usize())`, which is stable.
  unfoldable pub insert_sorted : D × V → List (D × V) → List (D × V)
  insert_sorted e [] = e ∷ []
  insert_sorted (d, v) ((d', v') ∷ m) =
      if leb (discrim.into_usize d) (discrim.into_usize d')
      then (d, v) ∷ (d', v') ∷ m
      else (d', v') ∷ insert_sorted (d, v) m

  unfoldable pub sort_entries : List (D × V) → List (D × V)
  unfolding insert_sorted
  sort_entries [] = []
  sort_entries (e ∷ m) = insert_sorted e (sort_entries m)

  abbrev pub from_iter : List (D × V) → Outcome (SortedVecMap D V)
  from_iter xs = ok (sort_entries xs)

  unfoldable pub search_from : ℕ → D → SortedVecMap D V → Found
  search_from i key [] = insert_at i
  search_from i key ((d, v) ∷ m) =
      if ltb (discrim.into_usize d) (discrim.into_usize key)
      then search_from (suc i) key m
      else if discrim.into_usize d == discrim.into_usize key
      then at i
      else insert_at i

  unfoldable pub binary_search : D → SortedVecMap D V → Found
  unfolding search_from
  binary_search key m = search_from 0 key m

  abbrev pub read : SortedVecMap D V → ℕ → Option V
  read m slot = and_then (get_elem? m slot) (λ (_, v). some v)

  unfoldable pub get_by : D → SortedVecMap D V → Option V
  unfolding binary_search
  get_by key m = elim (binary_search key m) [ at index ↦ read m index | insert_at _ ↦ none ]

  unfoldable pub get_mut_by : D → SortedVecMap D V → Option ℕ
  unfolding binary_search
  get_mut_by key m = elim (binary_search key m) [ at index ↦ slot_in m index | insert_at _ ↦ none ]

  abbrev pub locate : D → SortedVecMap D V → Outcome ℕ
  locate key m = elim (binary_search key m) [
    | at index ↦ ok index
    | insert_at _ ↦ panic Panic.missing_key
  ]

  unfoldable pub get_mut_array_by :
      {U : Type 0} (as_ptr : U → ℕ) (transform : ℕ → U)
      → List D
      → SortedVecMap D V
      → Outcome (List U)
  unfolding binary_search
  get_mut_array_by as_ptr transform keys m = map_array (λ key. locate key m) keys >>= λ indices.
      split_mut_array as_ptr (λ index. ok (slot_in m index)) (λ _ slot. ok (transform slot))
        (λ _. Panic.unreachable) indices

  abbrev pub iter_mapped : SortedVecMap D V → Outcome (List (D × V))
  iter_mapped m = ok m

  abbrev pub into_iter_mapped : SortedVecMap D V → Outcome (List (D × V))
  into_iter_mapped m = ok m

  unfoldable pub get_by_or_insert : D → V → SortedVecMap D V → Outcome (ℕ × SortedVecMap D V)
  unfolding binary_search
  get_by_or_insert key v m = elim (binary_search key m) [
    | at index ↦ ok (index, m)
    | insert_at index ↦ ok (index, insert_value index (key, v) m)
  ]

  unfoldable pub get_by_or_insert_array :
      {U : Type 0} (as_ptr : U → ℕ) (inserter : D → V) (transform : D → ℕ → U)
      → List D
      → SortedVecMap D V
      → Outcome (List U × SortedVecMap D V)
  unfolding get_by_or_insert
  get_by_or_insert_array as_ptr inserter transform keys m =
      map_with (λ key m. get_by_or_insert key (inserter key) m) keys m >>= λ (indices, m').
      split_mut_array as_ptr (λ index. ok (slot_in m' index))
        (λ _ slot. expect (get_elem? m' slot) Panic.unreachable >>= λ (d, _). ok (transform d slot))
        (λ _. Panic.unreachable) indices
      >>= λ out. ok (out, m')

  abbrev pub sorted_map : FullMap D V (SortedVecMap D V)
  sorted_map = record {
    from_iter = from_iter;
    get_by = get_by;
    get_mut_by = get_mut_by;
    read = read;
    get_by_or_insert = get_by_or_insert;
    iter_mapped = iter_mapped;
  }

abbrev pub iter_mapped_mut : {D V : Type 0} → SortedVecMap D V → Outcome (List (D × ℕ))
iter_mapped_mut m = ok (slots_from 0 m)

-- `iter().map(|&(d, ref t)| (d, f(t))).collect()`
abbrev pub map_ref : {D V W : Type 0} → (V → W) → SortedVecMap D V → SortedVecMap D W
map_ref f [] = []
map_ref f ((d, v) ∷ m) = (d, f v) ∷ map_ref f m
