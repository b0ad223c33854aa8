-- ===== src/Discrim/Array.antt =====
-- `ArrayMap` of `src/comp/discrim.rs`; its `N` is the length of the array.
pub mod Laws
use dynec.Common.{
  ℕ, zero, suc, Bool, true, false, Option, none, some, List, [], ◌∷◌, map, if◌then◌else◌, Outcome,
  ok, panic, Panic, ◌>>=◌, expect, length, get_elem?, set, replicate,
}
use dynec.Discrim.{Discrim, split_mut_array, map_with, entry_in}
use dynec.Discrim.Full.{FullMap, and_then, unwrap_or}
use dynec.Discrim.Bounded.{iter_entries, iter_mut_entries}

abbrev pub ArrayMap : Type 0 → Type 0
ArrayMap V = List (Option V)

module _ {D V : Type 0} (discrim : Discrim D) where
  -- One entry of `from_iter`.
  unfoldable pub put_new : ℕ → V → ArrayMap V → Outcome (ArrayMap V)
  put_new index v m = elim (get_elem? m index) [
    | some entry ↦ elim entry [
      | some _ ↦ panic Panic.duplicate_discrim
      | none ↦ ok (set m index (some v))
    ]
    | none ↦ panic Panic.unsupported_discrim
  ]

  unfoldable pub put_all : List (D × V) → ArrayMap V → Outcome (ArrayMap V)
  unfolding put_new
  put_all [] m = ok m
  put_all ((d, v) ∷ xs) m = put_new (discrim.into_usize d) v m >>= put_all xs

  unfoldable pub from_iter : ℕ → List (D × V) → Outcome (ArrayMap V)
  unfolding put_all
  from_iter n xs = put_all xs (replicate n none)

  abbrev pub read : ArrayMap V → ℕ → Option V
  read m slot = and_then (get_elem? m slot) (λ o. o)

  abbrev pub get_by : D → ArrayMap V → Option V
  get_by key m = and_then (get_elem? m (discrim.into_usize key)) (λ o. o)

  abbrev pub get_mut_by : D → ArrayMap V → Option ℕ
  get_mut_by key m = entry_in m (discrim.into_usize key)

  unfoldable pub get_mut_array_by :
      {U : Type 0} (as_ptr : U → ℕ) (transform : ℕ → U) → List D → ArrayMap V → Outcome (List U)
  get_mut_array_by as_ptr transform keys m =
      split_mut_array as_ptr (λ index. ok (entry_in m index)) (λ _ slot. ok (transform slot))
        (λ _. Panic.missing_key) (map discrim.into_usize keys)

  abbrev pub iter_mapped : ArrayMap V → Outcome (List (D × V))
  iter_mapped m = iter_entries discrim 0 m

  abbrev pub iter_mapped_mut : ArrayMap V → Outcome (List (D × ℕ))
  iter_mapped_mut m = iter_mut_entries discrim 0 m

  abbrev pub into_iter_mapped : ArrayMap V → Outcome (List (D × V))
  into_iter_mapped m = iter_entries discrim 0 m

  unfoldable pub get_by_or_insert : D → V → ArrayMap V → Outcome (ℕ × ArrayMap V)
  get_by_or_insert key v m = elim (get_elem? m (discrim.into_usize key)) [
    | some entry ↦
        ok (discrim.into_usize key, set m (discrim.into_usize key) (some (unwrap_or entry v)))
    | none ↦ panic Panic.unsupported_discrim
  ]

  -- The transform gets the discriminant of the position in `keys`.
  unfoldable pub get_by_or_insert_array :
      {U : Type 0} (as_ptr : U → ℕ) (inserter : D → V) (transform : D → ℕ → U)
      → List D
      → ArrayMap V
      → Outcome (List U × ArrayMap V)
  unfolding get_by_or_insert
  get_by_or_insert_array as_ptr inserter transform keys m =
      map_with (λ key m. get_by_or_insert key (inserter key) m) keys m >>= λ (indices, m').
      split_mut_array as_ptr
        (λ index. expect (get_elem? m' index) Panic.unreachable >>= λ _. ok (entry_in m' index))
        (λ i slot. discrim.from_usize i >>= λ d. ok (transform d slot)) (λ _. Panic.unreachable)
        indices
      >>= λ out. ok (out, m')

  abbrev pub array_map : ℕ → FullMap D V (ArrayMap V)
  array_map n = record {
    from_iter = from_iter n;
    get_by = get_by;
    get_mut_by = get_mut_by;
    read = read;
    get_by_or_insert = get_by_or_insert;
    iter_mapped = iter_mapped;
  }

-- `self.array[index].as_ref().map(&mut f)` at each index.
abbrev pub map_ref : {V W : Type 0} → (V → W) → ArrayMap V → ArrayMap W
map_ref f [] = []
map_ref f (none ∷ m) = none ∷ map_ref f m
map_ref f (some v ∷ m) = some (f v) ∷ map_ref f m
