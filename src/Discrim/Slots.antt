-- ===== src/Discrim/Slots.antt =====
-- Vectors of optional entries, as `BoundedVecMap` and `ArrayMap` of `src/comp/discrim.rs` keep.
use dynec.Common.{
  ℕ, zero, suc, ◌+◌, ◌-◌, ◌≤◌, ◌<◌, ◌≡◌, refl, sym, ap, ◌∙◌, false, Bool-cases, inl, inr, Option,
  none, some, List, [], ◌∷◌, ◌++◌, arith, ◌==◌, ltb, if◌then◌else◌, ok, length, length-append,
  length-replicate, get_elem?, set, replicate,
}
use dynec.Common.Bags.{tally}
use dynec.Discrim.{Discrim, IsDiscrim, entry_in}
use dynec.Discrim.Split.{IsDistinct}
use dynec.Discrim.Full.{lookup, keys, and_then}
use dynec.Discrim.Bounded.{iter_entries, resize_with}

-- The value at an index.
abbrev pub entry {ℓ} : {V : Type ℓ} → List (Option V) → ℕ → Option V
entry m i = and_then (get_elem? m i) (λ o. o)

module _ {V : Type 0} where
  pub entry-set :
      (m : List (Option V)) (i j : ℕ) (o : Option V)
      → i < length m
      → entry (set m i o) j ≡ (if i == j then o else entry m j)
  entry-set [] i j o lt = absurd (omega (arith, lt))
  entry-set (x ∷ m) zero zero o lt = refl
  entry-set (x ∷ m) zero (suc j) o lt = rw (differ j) refl
    where
      differ : (j : ℕ) → 0 == suc j ≡ false
      differ j = ground arith
  entry-set (x ∷ m) (suc i) zero o lt = rw (differ i) refl
    where
      differ : (i : ℕ) → suc i == 0 ≡ false
      differ i = ground arith
  entry-set (x ∷ m) (suc i) (suc j) o lt = rw (same i j) (entry-set m i j o (omega (arith, lt)))
    where
      same : (i j : ℕ) → suc i == suc j ≡ (i == j)
      same i j = ground arith

  pub entry-replicate : (n j : ℕ) → entry {V = V} (replicate n none) j ≡ none
  entry-replicate zero j = refl
  entry-replicate (suc n) zero = refl
  entry-replicate (suc n) (suc j) = entry-replicate n j

  pub entry-resize :
      (len : ℕ) (m : List (Option V)) (j : ℕ) → entry (resize_with len m) j ≡ entry m j
  entry-resize len m j = padded m (len - length m) j
    where
      padded : (m : List (Option V)) (n j : ℕ) → entry (m ++ replicate n none) j ≡ entry m j
      padded [] n j = entry-replicate n j
      padded (x ∷ m) n zero = refl
      padded (x ∷ m) n (suc j) = padded m n j

  pub length-resize :
      (len : ℕ) (m : List (Option V)) → length m ≤ len → length (resize_with len m) ≡ len
  length-resize len m le = omega (
    arith,
    le,
    length-append m (replicate (len - length m) none),
    length-replicate {A = Option V} (len - length m) none,
  )

  pub entry_in-entry : (m : List (Option V)) (i : ℕ) → and_then (entry_in m i) (entry m) ≡ entry m i
  unfolding entry_in
  entry_in-entry m i = cases (get_elem? m i) refl
    where
      cases :
          (o : Option (Option V))
          → get_elem? m i ≡ o
          → and_then (entry_in m i) (entry m) ≡ entry m i
      cases none e = rw (entry_in, e) refl
      cases (some none) e = rw (entry_in, e) refl
      cases (some (some v)) e = rw (entry_in, e) (rw e refl)

-- Every number in a range is a discriminant's.
abbrev pub Covers : {D : Type 0} → Discrim D → ℕ → ℕ → Type 0
Covers {D} discrim low high = (j : ℕ) → low ≤ j → j < high → (d : D) × (discrim.into_usize d ≡ j)

pub converts :
    {D : Type 0} {discrim : Discrim D}
    → IsDiscrim discrim
    → (i : ℕ) (d : D) → discrim.into_usize d ≡ i
    → discrim.from_usize i ≡ ok d
converts {discrim = discrim} laws i d e =
    ap discrim.from_usize (sym e) ∙ laws.from_usize-into_usize d

module _ {D V : Type 0} {discrim : Discrim D} (laws : IsDiscrim discrim) where
  pub lookup_absent :
      (k : ℕ) (xs : List (D × V)) → tally k (keys discrim xs) ≡ 0 → lookup discrim k xs ≡ none
  unfolding lookup tally
  lookup_absent k [] h = refl
  lookup_absent k ((d, v) ∷ xs) h =
      let differ : discrim.into_usize d == k ≡ false = ground (arith, h) in
      rw differ (lookup_absent k xs (ground (arith, h)))

  -- The entries from the second on.
  entry_later :
      (o : Option V) (m : List (Option V)) (i k : ℕ)
      → suc i ≤ k
      → entry (o ∷ m) (k - i) ≡ entry m (k - suc i)
  entry_later o m i k le = ap (entry (o ∷ m)) (shifted i k le)
    where
      shifted : (i k : ℕ) → suc i ≤ k → k - i ≡ suc (k - suc i)
      shifted i k le = omega (arith, le)

  view_none :
      (m : List (Option V)) (xs : List (D × V)) (i k : ℕ)
      → i ≤ k
      → tally i (keys discrim xs) ≡ 0
      → (suc i ≤ k → lookup discrim k xs ≡ entry m (k - suc i))
      → lookup discrim k xs ≡ entry (none ∷ m) (k - i)
  view_none m xs i k le absent later = elim (Bool-cases (k == i)) [
    | inl here ↦
        let same : k ≡ i = ground (arith, here) in
        let start : k - i ≡ 0 = omega (arith, same) in
        ap (λ n. lookup discrim n xs) same
        ∙ lookup_absent i xs absent
        ∙ sym (ap (entry (none ∷ m)) start)
    | inr there ↦
        let lt : suc i ≤ k = ground (arith, le, there) in later lt ∙ sym (entry_later none m i k lt)
  ]

  view_some :
      (d : D) (v : V) (m : List (Option V)) (xs : List (D × V)) (i k : ℕ)
      → i ≤ k
      → discrim.into_usize d ≡ i
      → (suc i ≤ k → lookup discrim k xs ≡ entry m (k - suc i))
      → lookup discrim k ((d, v) ∷ xs) ≡ entry (some v ∷ m) (k - i)
  unfolding lookup
  view_some d v m xs i k le e later = elim (Bool-cases (discrim.into_usize d == k)) [
    | inl here ↦
        let start : k - i ≡ 0 = ground (arith, here, e) in
        rw here (sym (ap (entry (some v ∷ m)) start))
    | inr there ↦
        let lt : suc i ≤ k = ground (arith, le, there, e) in
        rw there (later lt ∙ sym (entry_later (some v) m i k lt))
  ]

  pub iter_entries_lem :
      (i : ℕ) (m : List (Option V))
      → Covers discrim i (i + length m)
      → (xs : List (D × V)) × (iter_entries discrim i m ≡ ok xs)
        × ((k : ℕ) → tally k (keys discrim xs) ≤ (if ltb k i then 0 else 1))
        × ((k : ℕ) → i ≤ k → lookup discrim k xs ≡ entry m (k - i))
  unfolding iter_entries lookup tally
  iter_entries_lem i [] covers = ([], refl, λ k. omega arith, λ k le. refl)
  iter_entries_lem i (none ∷ m) covers =
      let (d, e) = covers i (omega arith) (omega arith) in
      let (xs, run, once, view) =
        iter_entries_lem (suc i) m (λ j lo hi. covers j (omega (arith, lo)) (omega (arith, hi))) in
      (
        xs,
        rw (converts laws i d e, run) refl,
        λ k. ground (arith, once k),
        λ k le. view_none m xs i k le (ground (arith, once i)) (view k),
      )
  iter_entries_lem i (some v ∷ m) covers =
      let (d, e) = covers i (omega arith) (omega arith) in
      let (xs, run, once, view) =
        iter_entries_lem (suc i) m (λ j lo hi. covers j (omega (arith, lo)) (omega (arith, hi))) in
      (
        (d, v) ∷ xs,
        rw (converts laws i d e, run) refl,
        λ k. ground (arith, once k, e),
        λ k le. view_some d v m xs i k le e (view k),
      )

  -- Where every index is a discriminant's number, the iterator gives the entries that are there.
  pub iter_mapped_lem :
      (m : List (Option V))
      → Covers discrim 0 (length m)
      → (xs : List (D × V)) × (iter_entries discrim 0 m ≡ ok xs)
        × IsDistinct (keys discrim xs)
        × ((d : D) → lookup discrim (discrim.into_usize d) xs ≡ entry m (discrim.into_usize d))
  iter_mapped_lem m low =
      let (xs, run, once, view) = iter_entries_lem 0 m (λ j lo hi. low j lo (omega (arith, hi))) in
      (
        xs,
        run,
        λ x. ground (arith, once x),
        λ d.
            let whole : discrim.into_usize d - 0 ≡ discrim.into_usize d = omega arith in
            view (discrim.into_usize d) (omega arith) ∙ ap (entry m) whole,
      )
