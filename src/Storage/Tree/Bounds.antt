-- ===== src/Storage/Tree/Bounds.antt =====
-- The partitions of a tree and their bounds, of `src/storage/tree.rs`.
use dynec.Common.{
  ℕ, suc, ◌≤◌, ◌≡◌, refl, ap, Bool, true, false, ◌&&◌, Bool-cases, inl, inr, Option, none, some, [],
  ◌∷◌, ◌++◌, arith, ltb, leb, ok, Panic, ◌>>◌, ensure,
}
use dynec.Storage.Vec.Iterate.{IsAscendingFrom}
use dynec.Storage.Tree.{
  Tree, StoragePartition, from_lower, to_upper, assert_bounds, split_out, into_iter_mut,
}

-- The entities of a partition.
abbrev pub within : StoragePartition → ℕ → Bool
within p id = from_lower p.lower_bound id && to_upper p.upper_bound id

assert_within : (p : StoragePartition) (e : ℕ) → within p e ≡ true → assert_bounds p e ≡ ok tt
assert_within p e h = both (from_lower p.lower_bound e) (to_upper p.upper_bound e) h
  where
    both :
        (a b : Bool)
        → (a && b) ≡ true
        → (ensure a Panic.out_of_partition >> ensure b Panic.out_of_partition) ≡ ok tt
    both true true h = refl
    both true false h = absurd (ground (arith, h))
    both false b h = absurd (ground (arith, h))

from_lower_mono : (o : Option ℕ) (e j : ℕ) → from_lower o e ≡ true → e ≤ j → from_lower o j ≡ true
from_lower_mono none e j h le = refl
from_lower_mono (some b) e j h le = ground (arith, h, le)

to_upper_mono : (o : Option ℕ) (e j : ℕ) → to_upper o e ≡ true → j ≤ e → to_upper o j ≡ true
to_upper_mono none e j h le = refl
to_upper_mono (some b) e j h le = ground (arith, h, le)

and-split : (a b : Bool) → (a && b) ≡ true → (a ≡ true) × (b ≡ true)
and-split true true h = (refl, refl)
and-split true false h = absurd (ground (arith, h))
and-split false b h = absurd (ground (arith, h))

abbrev whole : Option ℕ → Option ℕ → StoragePartition
whole lower upper = record { lower_bound = lower; upper_bound = upper }

abbrev left : Option ℕ → ℕ → StoragePartition
left lower e = record { lower_bound = lower; upper_bound = some e }

abbrev right : Option ℕ → ℕ → StoragePartition
right upper e = record { lower_bound = some e; upper_bound = upper }

module _ {ℓ} {C : Type ℓ} (lower upper : Option ℕ) (e : ℕ) (above : from_lower lower e ≡ true)
    (below : to_upper upper e ≡ true) where
  -- From the entity on, the left part has nothing and the right one has what the partition has.
  beyond :
      (k : ℕ) (entries : Tree C)
      → e ≤ k
      → IsAscendingFrom k entries
      → (into_iter_mut (left lower e) entries ≡ [])
        × (into_iter_mut (right upper e) entries ≡ into_iter_mut (whole lower upper) entries)
  unfolding into_iter_mut IsAscendingFrom
  beyond k [] le a = (refl, refl)
  beyond k ((j, c) ∷ entries) le a =
      let (none_left, same) = beyond (suc j) entries (omega (arith, le, a.0)) a.1 in
      let late : ltb j e ≡ false = ground (arith, le, a.0) in
      let from : leb e j ≡ true = ground (arith, le, a.0) in
      let inside : from_lower lower j ≡ true =
        from_lower_mono lower e j above (omega (arith, le, a.0)) in
      (rw (inside, late) none_left, rw (from, inside, same) refl)

  entries_split :
      (k : ℕ) (entries : Tree C)
      → IsAscendingFrom k entries
      → into_iter_mut (left lower e) entries ++ into_iter_mut (right upper e) entries
        ≡ into_iter_mut (whole lower upper) entries
  unfolding into_iter_mut IsAscendingFrom
  entries_split k [] a = refl
  entries_split k ((j, c) ∷ entries) a = elim (Bool-cases (ltb j e)) [
    | inl early ↦
        let before : leb e j ≡ false = ground (arith, early) in
        let inside : to_upper upper j ≡ true =
          to_upper_mono upper e j below (ground (arith, early)) in
        let rest = entries_split (suc j) entries a.1 in
        elim (Bool-cases (from_lower lower j)) [
          | inl from ↦ rw (early, before, inside, from) (ap (λ xs. (j, c) ∷ xs) rest)
          | inr not_from ↦ rw (early, before, inside, not_from) rest
        ]
    | inr late ↦
        let (none_left, same) =
          beyond j ((j, c) ∷ entries) (ground (arith, late)) (omega arith, a.1) in
        rw (none_left, same) refl
  ]

module _ {ℓ} {C : Type ℓ} where
  -- At an entity of a partition, `split_out` returns: the left part has the entities of the partition
  -- below it and the right part those from it on, and the entries of the two in turn are the entries of
  -- the partition, when the map is in order.
  pub tree_split_lem :
      (p : StoragePartition) (e low : ℕ) (entries : Tree C)
      → within p e ≡ true
      → IsAscendingFrom low entries
      → (l : StoragePartition) × (r : StoragePartition) × (split_out p e ≡ ok (l, r))
        × ((id : ℕ) → within l id ≡ (within p id && ltb id e))
        × ((id : ℕ) → within r id ≡ (within p id && leb e id))
        × (into_iter_mut l entries ++ into_iter_mut r entries ≡ into_iter_mut p entries)
  unfolding split_out
  tree_split_lem p e low entries h a =
      let (above, below) = and-split (from_lower p.lower_bound e) (to_upper p.upper_bound e) h in
      (
        left p.lower_bound e,
        right p.upper_bound e,
        rw (assert_within p e h) refl,
        λ id. left_within below id,
        λ id. right_within above id,
        entries_split p.lower_bound p.upper_bound e above below low entries a,
      )
    where
      left_within :
          to_upper p.upper_bound e ≡ true
          → (id : ℕ) → (from_lower p.lower_bound id && ltb id e) ≡ (within p id && ltb id e)
      left_within below id = elim (Bool-cases (ltb id e)) [
        | inl early ↦
            let inside : to_upper p.upper_bound id ≡ true =
              to_upper_mono p.upper_bound e id below (ground (arith, early)) in
            rw (early, inside) (ground arith)
        | inr late ↦ rw late (ground arith)
      ]

      right_within :
          from_lower p.lower_bound e ≡ true
          → (id : ℕ) → (leb e id && to_upper p.upper_bound id) ≡ (within p id && leb e id)
      right_within above id = elim (Bool-cases (leb e id)) [
        | inl late ↦
            let inside : from_lower p.lower_bound id ≡ true =
              from_lower_mono p.lower_bound e id above (ground (arith, late)) in
            rw (late, inside) (ground arith)
        | inr early ↦ rw early (ground arith)
      ]
