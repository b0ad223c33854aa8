-- ===== src/Discrim/Sorted/Laws.antt =====
-- `SortedVecMap` as a partial function.
use dynec.Common.{
  ℕ, ◌<◌, ◌≡◌, ◌⊎◌, refl, sym, ap, ◌∙◌, true, false, Bool-cases, inl, inr, some, List, [], ◌∷◌,
  arith, ◌==◌, leb, if◌then◌else◌, ok,
}
use dynec.Common.OrdSet.{Above, IsOrdered}
use dynec.Common.Bags.{tally, tally-cons, tally-contains}
use dynec.Discrim.{Discrim, IsDiscrim, slot_in}
use dynec.Discrim.Split.{IsDistinct}
use dynec.Discrim.Full.{IsFullMap, lookup, keys, unwrap_or, and_then}
use dynec.Discrim.Sorted.{
  SortedVecMap, at, insert_at, insert_value, binary_search, insert_sorted, sort_entries, get_by,
  get_mut_by, read, get_by_or_insert, sorted_map,
}
use dynec.Discrim.Sorted.Search.{IsAbsent, IsPresent, search_lem}

pub IsOrdered-IsDistinct : (s : List ℕ) → IsOrdered s → IsDistinct s
IsOrdered-IsDistinct s a x = ground (arith, tally-contains x s a)

module _ {D V : Type 0} {discrim : Discrim D} (laws : IsDiscrim discrim) where
  -- The search from the first entry on.
  pub binary_search_lem :
      (key : D) (m : SortedVecMap D V)
      → IsOrdered (keys discrim m)
      → ((j : ℕ) × (binary_search discrim key m ≡ at j) × IsPresent discrim key m j)
        ⊎ ((j : ℕ) × (binary_search discrim key m ≡ insert_at j) × IsAbsent discrim key m j)
  unfolding binary_search
  binary_search_lem key m a = elim (search_lem discrim 0 key m a) [
    | inl (j, found, h) ↦ inl (j, found ∙ ap at (omega arith), h)
    | inr (j, found, h) ↦ inr (j, found ∙ ap insert_at (omega arith), h)
  ]

  pub get_by-lookup :
      (key : D) (m : SortedVecMap D V)
      → IsOrdered (keys discrim m)
      → get_by discrim key m ≡ lookup discrim (discrim.into_usize key) m
  unfolding get_by
  get_by-lookup key m a = elim (binary_search_lem key m a) [
    | inl (j, found, h) ↦ rw (get_by, found) (rw (h.placed, h.has_value) refl)
    | inr (j, found, h) ↦ rw (get_by, found) (sym h.no_value)
  ]

  pub get_mut_by_lem :
      (key : D) (m : SortedVecMap D V)
      → IsOrdered (keys discrim m)
      → and_then (get_mut_by discrim key m) (read discrim m) ≡ get_by discrim key m
  unfolding get_mut_by get_by slot_in
  get_mut_by_lem key m a = elim (binary_search_lem key m a) [
    | inl (j, found, h) ↦ rw (get_mut_by, get_by, found) (rw (slot_in, h.placed) (rw h.placed refl))
    | inr (j, found, h) ↦ rw (get_mut_by, get_by, found) refl
  ]

  -- On a sorted map, the entry of the discriminant is found or inserted with the order kept; its slot has
  -- the old value or the new one, and no other discriminant's value changes.
  pub sorted_insert_lem :
      (d : D) (v : V) (m : SortedVecMap D V)
      → IsOrdered (keys discrim m)
      → (slot : ℕ) × (m' : SortedVecMap D V) × (get_by_or_insert discrim d v m ≡ ok (slot, m'))
        × IsOrdered (keys discrim m')
        × (read discrim m' slot ≡ some (unwrap_or (get_by discrim d m) v))
        × ((d' : D)
            → get_by discrim d' m' ≡ (
                if discrim.into_usize d == discrim.into_usize d'
                then some (unwrap_or (get_by discrim d m) v)
                else get_by discrim d' m))
  unfolding get_by_or_insert
  sorted_insert_lem d v m a = elim (binary_search_lem d m a) [
    | inl (j, found, h) ↦
        let kept : unwrap_or (get_by discrim d m) v ≡ h.value =
          rw (get_by-lookup d m a, h.has_value) refl in
        (
          j,
          m,
          rw (get_by_or_insert, found) refl,
          a,
          rw (h.placed, kept) refl,
          λ d'. rw kept (elim (Bool-cases (discrim.into_usize d == discrim.into_usize d')) [
            | inl here ↦ rw here (
                get_by-lookup d' m a
                ∙ sym (ap (λ i. lookup discrim i m) (same d d' here))
                ∙ h.has_value)
            | inr there ↦ rw there refl
          ]),
        )
    | inr (j, found, h) ↦
        let kept : unwrap_or (get_by discrim d m) v ≡ v =
          rw (get_by-lookup d m a, h.no_value) refl in
        (
          j,
          insert_value j (d, v) m,
          rw (get_by_or_insert, found) refl,
          h.ordered v,
          rw (h.placed v, kept) refl,
          λ d'.
              rw
                (
                  kept,
                  get_by-lookup d' (insert_value j (d, v) m) (h.ordered v),
                  get_by-lookup d' m a,
                )
                (h.view v (discrim.into_usize d')),
        )
  ]
    where
      same :
          (a b : D)
          → (discrim.into_usize a == discrim.into_usize b) ≡ true
          → discrim.into_usize a ≡ discrim.into_usize b
      same a b h = ground (arith, h)

  Above-insert_sorted :
      (n : ℕ) (d : D) (v : V) (m : List (D × V))
      → n < discrim.into_usize d
      → Above n (keys discrim m)
      → tally (discrim.into_usize d) (keys discrim m) ≡ 0
      → Above n (keys discrim (insert_sorted discrim (d, v) m))
  unfolding insert_sorted tally
  Above-insert_sorted n d v [] lt a new = (lt, tt)
  Above-insert_sorted n d v ((d', v') ∷ m) lt a new =
      elim (Bool-cases (leb (discrim.into_usize d) (discrim.into_usize d'))) [
        | inl before ↦ rw before (lt, (ground (arith, before, new), a.1))
        | inr after ↦ rw after (
          a.0,
          Above-insert_sorted (discrim.into_usize d') d v m (ground (arith, after)) a.1
              (ground (arith, new)),
        )
      ]

  IsOrdered-insert_sorted :
      (d : D) (v : V) (m : List (D × V))
      → IsOrdered (keys discrim m)
      → tally (discrim.into_usize d) (keys discrim m) ≡ 0
      → IsOrdered (keys discrim (insert_sorted discrim (d, v) m))
  unfolding insert_sorted tally
  IsOrdered-insert_sorted d v [] a new = tt
  IsOrdered-insert_sorted d v ((d', v') ∷ m) a new =
      elim (Bool-cases (leb (discrim.into_usize d) (discrim.into_usize d'))) [
        | inl before ↦ rw before (ground (arith, before, new), a)
        | inr after ↦ rw after (
            Above-insert_sorted (discrim.into_usize d') d v m (ground (arith, after)) a
              (ground (arith, new)))
      ]

  tally-insert_sorted :
      (x : ℕ) (d : D) (v : V) (m : List (D × V))
      → tally x (keys discrim (insert_sorted discrim (d, v) m))
        ≡ tally x (discrim.into_usize d ∷ keys discrim m)
  unfolding insert_sorted tally
  tally-insert_sorted x d v [] = refl
  tally-insert_sorted x d v ((d', v') ∷ m) =
      elim (Bool-cases (leb (discrim.into_usize d) (discrim.into_usize d'))) [
        | inl before ↦ rw before refl
        | inr after ↦ rw after (omega (arith, tally-insert_sorted x d v m))
      ]

  tally-sort_entries :
      (x : ℕ) (m : List (D × V))
      → tally x (keys discrim (sort_entries discrim m)) ≡ tally x (keys discrim m)
  unfolding sort_entries tally
  tally-sort_entries x [] = refl
  tally-sort_entries x ((d, v) ∷ m) = omega (
    arith,
    tally-insert_sorted x d v (sort_entries discrim m),
    tally-sort_entries x m,
    tally-cons x (discrim.into_usize d) (keys discrim (sort_entries discrim m)),
  )

  lookup-insert_sorted :
      (k : ℕ) (d : D) (v : V) (m : List (D × V))
      → tally (discrim.into_usize d) (keys discrim m) ≡ 0
      → lookup discrim k (insert_sorted discrim (d, v) m) ≡ lookup discrim k ((d, v) ∷ m)
  unfolding insert_sorted tally lookup
  lookup-insert_sorted k d v [] new = refl
  lookup-insert_sorted k d v ((d', v') ∷ m) new =
      elim (Bool-cases (leb (discrim.into_usize d) (discrim.into_usize d'))) [
        | inl before ↦ rw before refl
        | inr after ↦ rw after (elim (Bool-cases (discrim.into_usize d' == k)) [
          | inl here ↦
              let other : discrim.into_usize d == k ≡ false = ground (arith, here, new) in
              rw (here, other) refl
          | inr there ↦ rw there (lookup-insert_sorted k d v m (ground (arith, new)))
        ])
      ]

  pub from_iter_lem :
      (xs : List (D × V))
      → IsDistinct (keys discrim xs)
      → IsOrdered (keys discrim (sort_entries discrim xs))
        × ((k : ℕ) → lookup discrim k (sort_entries discrim xs) ≡ lookup discrim k xs)
  unfolding sort_entries tally lookup
  from_iter_lem [] once = (tt, λ k. refl)
  from_iter_lem ((d, v) ∷ xs) once =
      let (a, view) = from_iter_lem xs (λ x. ground (arith, once x)) in
      let new : tally (discrim.into_usize d) (keys discrim (sort_entries discrim xs)) ≡ 0 =
        ground (arith, once (discrim.into_usize d), tally-sort_entries (discrim.into_usize d) xs) in
      (
        IsOrdered-insert_sorted d v (sort_entries discrim xs) a new,
        λ k.
            lookup-insert_sorted k d v (sort_entries discrim xs) new
            ∙ ap (λ o. if discrim.into_usize d == k then some v else o) (view k),
      )

  abbrev pub sorted_map-IsFullMap : IsFullMap discrim (sorted_map {D = D} {V = V} discrim)
  sorted_map-IsFullMap = record {
    IsValid = λ m. IsOrdered (keys discrim m);
    IsSupported = λ d. Unit {0};
    from_iter_lem = λ xs once supported.
        let (a, view) = from_iter_lem xs once in
        (
          sort_entries discrim xs,
          refl,
          a,
          λ d. get_by-lookup d (sort_entries discrim xs) a ∙ view (discrim.into_usize d),
        );
    get_mut_by_lem = get_mut_by_lem;
    get_by_or_insert_lem = λ d v m a supported. sorted_insert_lem d v m a;
    iter_mapped_lem =
        λ m a. (m, refl, IsOrdered-IsDistinct (keys discrim m) a, λ d. sym (get_by-lookup d m a));
  }
