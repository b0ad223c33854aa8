-- ===== src/Discrim/Bounded/Laws.antt =====
-- `BoundedVecMap` as a partial function.
use dynec.Common.{
  ℕ, ◌+◌, ◌<◌, ◌≡◌, refl, sym, ap, ◌∙◌, subst, Bool-cases, inl, inr, Option, none, some, List, [],
  ◌∷◌, arith, ◌==◌, ==_refl, ltb, leb, if◌then◌else◌, ok, length, length-replicate,
  get_elem?_within, set, length-set, replicate,
}
use dynec.Common.Bags.{tally}
use dynec.Discrim.{Discrim, IsDiscrim}
use dynec.Discrim.Split.{IsDistinct}
use dynec.Discrim.Full.{
  IsFullMap, lookup, keys, AllKeys, unwrap_or, and_then, or_else, or_else-none,
}
use dynec.Discrim.Bounded.{
  BoundedVecMap, extend, resize_with, get_by, read, get_by_or_insert, bounded_map,
}
use dynec.Discrim.Slots.{
  entry, entry-set, entry-replicate, entry-resize, length-resize, entry_in-entry, Covers,
  iter_mapped_lem, lookup_absent,
}

-- Where every number up to the discriminant's is a discriminant's.
abbrev pub Reachable : {D : Type 0} → Discrim D → D → Type 0
Reachable discrim d = Covers discrim 0 (discrim.into_usize d + 1)

module _ {D V : Type 0} {discrim : Discrim D} (laws : IsDiscrim discrim) where
  abbrev grown : ℕ → BoundedVecMap V → BoundedVecMap V
  grown index m = if leb (length m) index then resize_with (index + 1) m else m

  entry-grown : (index : ℕ) (m : BoundedVecMap V) (j : ℕ) → entry (grown index m) j ≡ entry m j
  entry-grown index m j = elim (Bool-cases (leb (length m) index)) [
    | inl short ↦ rw short (entry-resize (index + 1) m j)
    | inr long ↦ rw long refl
  ]

  length-grown :
      (index : ℕ) (m : BoundedVecMap V)
      → length (grown index m) ≡ (if leb (length m) index then index + 1 else length m)
  length-grown index m = elim (Bool-cases (leb (length m) index)) [
    | inl short ↦ rw short (length-resize (index + 1) m (ground (arith, short)))
    | inr long ↦ rw long refl
  ]

  index-grown : (index : ℕ) (m : BoundedVecMap V) → index < length (grown index m)
  index-grown index m = ground (arith, length-grown index m)

  Covers-grown :
      (d : D) (m : BoundedVecMap V)
      → Covers discrim 0 (length m)
      → Reachable discrim d
      → Covers discrim 0 (length (grown (discrim.into_usize d) m))
  Covers-grown d m low high j lo hi = elim (Bool-cases (leb (length m) (discrim.into_usize d))) [
    | inl short ↦ high j lo (ground (arith, hi, short, length-grown (discrim.into_usize d) m))
    | inr long ↦ low j lo (ground (arith, hi, long, length-grown (discrim.into_usize d) m))
  ]

  pub get_by_or_insert_lem :
      (d : D) (v : V) (m : BoundedVecMap V)
      → Covers discrim 0 (length m)
      → Reachable discrim d
      → (slot : ℕ) × (m' : BoundedVecMap V) × (get_by_or_insert discrim d v m ≡ ok (slot, m'))
        × Covers discrim 0 (length m')
        × (read discrim m' slot ≡ some (unwrap_or (get_by discrim d m) v))
        × ((d' : D)
            → get_by discrim d' m' ≡ (
                if discrim.into_usize d == discrim.into_usize d'
                then some (unwrap_or (get_by discrim d m) v)
                else get_by discrim d' m))
  unfolding get_by_or_insert
  get_by_or_insert_lem d v m low high =
      let index : ℕ = discrim.into_usize d in
      let (o, got) = get_elem?_within (grown index m) index (index-grown index m) in
      let kept : entry m index ≡ o =
        sym (entry-grown index m index) ∙ ap (λ e. and_then e (λ o. o)) got in
      let m' : BoundedVecMap V = set (grown index m) index (some (unwrap_or o v)) in
      let view : (j : ℕ)
          → entry m' j ≡ (if index == j then some (unwrap_or (entry m index) v) else entry m j) =
        λ j.
          rw
            (
              entry-set (grown index m) index j (some (unwrap_or o v)) (index-grown index m),
              entry-grown index m j,
              kept,
            )
            refl in
      (
        index,
        m',
        rw (get_by_or_insert, got) refl,
        subst (Covers discrim 0) (sym (length-set (grown index m) index (some (unwrap_or o v))))
            (Covers-grown d m low high),
        view index ∙ rw (==_refl index) refl,
        λ d'. view (discrim.into_usize d'),
      )

  extend_lem :
      (xs : List (D × V)) (m : BoundedVecMap V)
      → IsDistinct (keys discrim xs)
      → AllKeys discrim (Reachable discrim) xs
      → Covers discrim 0 (length m)
      → Covers discrim 0 (length (extend discrim xs m))
        × ((j : ℕ) → entry (extend discrim xs m) j ≡ or_else (lookup discrim j xs) (entry m j))
  unfolding extend lookup tally
  extend_lem [] m once reach low = (low, λ j. refl)
  extend_lem ((d, v) ∷ xs) m once reach low =
      let index : ℕ = discrim.into_usize d in
      let same : ltb (length m) (index + 1) ≡ leb (length m) index = ground arith in
      let m' : BoundedVecMap V = set (grown index m) index (some v) in
      let low' : Covers discrim 0 (length m') =
        subst (Covers discrim 0) (sym (length-set (grown index m) index (some v)))
          (Covers-grown d m low reach.0) in
      let (covers, view) = extend_lem xs m' (λ x. ground (arith, once x)) reach.1 low' in
      let put : (j : ℕ) → entry m' j ≡ (if index == j then some v else entry m j) = λ j.
        rw (entry-set (grown index m) index j (some v) (index-grown index m), entry-grown index m j)
          refl in
      rw same (
        covers,
        λ j. view j ∙ elim (Bool-cases (index == j)) [
          | inl here ↦ rw (put j, here, lookup_absent laws j xs (ground (arith, once j, here))) refl
          | inr there ↦ rw (put j, there) refl
        ],
      )

  -- Distinct discriminants, below which every number is a discriminant's, collect to a map of them.
  pub from_iter_lem :
      (hint : ℕ) (xs : List (D × V))
      → Covers discrim 0 hint
      → IsDistinct (keys discrim xs)
      → AllKeys discrim (Reachable discrim) xs
      → Covers discrim 0 (length (extend discrim xs (replicate hint none)))
        × ((d : D)
            → get_by discrim d (extend discrim xs (replicate hint none))
              ≡ lookup discrim (discrim.into_usize d) xs)
  from_iter_lem hint xs room once reach =
      let (covers, view) =
        extend_lem xs (replicate hint none) once reach
          (subst (Covers discrim 0) (sym (length-replicate {A = Option V} hint none)) room) in
      (
        covers,
        λ d.
            view (discrim.into_usize d)
            ∙ ap (or_else (lookup discrim (discrim.into_usize d) xs))
                (entry-replicate {V = V} hint (discrim.into_usize d))
            ∙ or_else-none (lookup discrim (discrim.into_usize d) xs),
      )

  abbrev pub bounded_map-IsFullMap :
      (hint : ℕ)
      → Covers discrim 0 hint
      → IsFullMap discrim (bounded_map {D = D} {V = V} discrim hint)
  bounded_map-IsFullMap hint room = record {
    IsValid = λ m. Covers discrim 0 (length m);
    IsSupported = Reachable discrim;
    from_iter_lem = λ xs once reach.
        let (covers, view) = from_iter_lem hint xs room once reach in
        (extend discrim xs (replicate hint none), refl, covers, view);
    get_mut_by_lem = λ d m v. entry_in-entry m (discrim.into_usize d);
    get_by_or_insert_lem = get_by_or_insert_lem;
    iter_mapped_lem = iter_mapped_lem laws;
  }
