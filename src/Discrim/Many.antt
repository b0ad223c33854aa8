-- ===== src/Discrim/Many.antt =====
-- `get_mut_array_by` of the two maps of `src/comp/discrim.rs` that search their vector.
use dynec.Common.{
  ℕ, suc, ◌≤◌, ◌≡◌, refl, sym, ap, ◌∙◌, Bool-cases, Option-cases, inl, inr, none, some, List, [],
  ◌∷◌, map, arith, ◌==◌, Outcome, ok, Panic, ◌>>=◌, expect, All, get_elem?,
}
use dynec.Common.OrdSet.{IsOrdered}
use dynec.Common.Bags.{tally}
use dynec.Discrim.{Discrim, IsDiscrim, map_array, slot_in, split_mut_array}
use dynec.Discrim.Split.{IsDistinct, values, split_mut_array-values}
use dynec.Discrim.Full.{keys}
use dynec.Discrim.Linear.{position_from, get_by as linear_get, get_mut_array_by as linear_many}
use dynec.Discrim.Linear.Laws.{place_lem, get_by-lookup as linear_get-lookup}
use dynec.Discrim.Sorted.{locate, get_by as sorted_get, get_mut_array_by as sorted_many}
use dynec.Discrim.Sorted.Laws.{binary_search_lem, get_by-lookup as sorted_get-lookup}

-- The elements of two lists of one length are related in pairs.
abbrev pub Pairwise {ℓ κ} : {A : Type ℓ} {B : Type κ} → (A → B → Type 0) → List A → List B → Type 0
Pairwise P [] [] = Unit {0}
Pairwise P (a ∷ as') (b ∷ bs) = P a b × Pairwise P as' bs
Pairwise P _ _ = ⊥

map_array_lem :
    {A B : Type 0} (P : A → B → Type 0) (f : A → Outcome B) (as' : List A)
    → All (λ a. (b : B) × (f a ≡ ok b) × P a b) as'
    → (bs : List B) × (map_array f as' ≡ ok bs) × Pairwise P as' bs
unfolding map_array
map_array_lem P f [] h = ([], refl, tt)
map_array_lem P f (a ∷ as') h =
    let (bs, run, ps) = map_array_lem P f as' h.1 in
    let (b, here, p) = h.0 in (b ∷ bs, rw (here, run) refl, (p, ps))

values-map :
    {U : Type 0} (transform : ℕ → U) (i : ℕ) (slots : List ℕ)
    → values (λ _ slot. transform slot) i slots ≡ map transform slots
unfolding values
values-map transform i [] = refl
values-map transform i (s ∷ slots) =
    ap (λ us. transform s ∷ us) (values-map transform (suc i) slots)

module _ {D V : Type 0} (discrim : Discrim D) (m : List (D × V)) where
  -- The slot holds the entry of the discriminant.
  abbrev pub Holds : D → ℕ → Type 0
  Holds key slot =
      (d : D) × (v : V) × (get_elem? m slot ≡ some (d, v))
      × (discrim.into_usize d ≡ discrim.into_usize key)

  count_slots :
      (ds : List D) (slots : List ℕ) (s : ℕ) (d : D) (v : V)
      → Pairwise Holds ds slots
      → get_elem? m s ≡ some (d, v)
      → tally s slots ≤ tally (discrim.into_usize d) (map discrim.into_usize ds)
  unfolding tally
  count_slots [] [] s d v h got = omega arith
  count_slots [] (s' ∷ slots) s d v h got = absurd h
  count_slots (k ∷ ds) [] s d v h got = absurd h
  count_slots (k ∷ ds) (s' ∷ slots) s d v h got = elim (Bool-cases (s' == s)) [
    | inl here ↦
        let (d', v', got', same) = h.0 in
        let index : s' ≡ s = ground (arith, here) in
        let stored : discrim.into_usize d ≡ discrim.into_usize d' =
          entry_same (d, v) (d', v') (sym got ∙ ap (get_elem? m) (sym index) ∙ got') in
        ground (arith, stored, same, here, count_slots ds slots s d v h.1 got)
    | inr there ↦ ground (arith, there, count_slots ds slots s d v h.1 got)
  ]
    where
      entry_same :
          (e e' : D × V) → some e ≡ some e' → discrim.into_usize e.0 ≡ discrim.into_usize e'.0
      entry_same e e' h = ap discrim.into_usize (ap first (inner e e' h))
        where
          first : D × V → D
          first (d, v) = d

          inner : (e e' : D × V) → some e ≡ some e' → e ≡ e'
          inner e e' h = cc

  no_slot :
      (ds : List D) (slots : List ℕ) (s : ℕ)
      → Pairwise Holds ds slots
      → get_elem? m s ≡ none
      → tally s slots ≡ 0
  unfolding tally
  no_slot [] [] s h got = refl
  no_slot [] (s' ∷ slots) s h got = absurd h
  no_slot (k ∷ ds) [] s h got = absurd h
  no_slot (k ∷ ds) (s' ∷ slots) s h got = elim (Bool-cases (s' == s)) [
    | inl here ↦
        let (d', v', got', same) = h.0 in
        let index : s' ≡ s = ground (arith, here) in
        absurd (clash (d', v') (sym got' ∙ ap (get_elem? m) index ∙ got))
    | inr there ↦ ground (arith, there, no_slot ds slots s h.1 got)
  ]
    where
      clash : {A : Type 0} (a : A) → some a ≡ none → ⊥
      clash a e = cc

  slots-IsDistinct :
      (ds : List D) (slots : List ℕ)
      → IsDistinct (map discrim.into_usize ds)
      → Pairwise Holds ds slots
      → IsDistinct slots
  slots-IsDistinct ds slots once h s = elim (Option-cases (get_elem? m s)) [
    | inl none_there ↦ omega (arith, no_slot ds slots s h none_there)
    | inr ((d, v), got) ↦
        omega (arith, once (discrim.into_usize d), count_slots ds slots s d v h got)
  ]

  slots_present :
      (ds : List D) (slots : List ℕ)
      → Pairwise Holds ds slots
      → All (λ s. ok (slot_in m s) ≡ ok (some s)) slots
  unfolding slot_in
  slots_present [] [] h = tt
  slots_present [] (s' ∷ slots) h = absurd h
  slots_present (k ∷ ds) [] h = absurd h
  slots_present (k ∷ ds) (s' ∷ slots) h =
      let (d, v, got, same) = h.0 in (rw (slot_in, got) refl, slots_present ds slots h.1)

  module _ {U : Type 0} (as_ptr : U → ℕ) (transform : ℕ → U)
      (apart : (a b : ℕ) → as_ptr (transform a) ≡ as_ptr (transform b) → a ≡ b) where
    located_lem :
        (find : D → Outcome ℕ) (ds : List D)
        → IsDistinct (map discrim.into_usize ds)
        → All (λ d. (s : ℕ) × (find d ≡ ok s) × Holds d s) ds
        → (slots : List ℕ) × ((map_array find ds >>= λ indices.
              split_mut_array as_ptr
                (λ index. ok (slot_in m index))
                (λ _ slot. ok (transform slot))
                (λ _. Panic.unreachable)
                indices)
            ≡ ok (map transform slots))
          × Pairwise Holds ds slots
    located_lem find ds once found =
        let (slots, run, h) = map_array_lem Holds find ds found in
        (
          slots,
          rw run (
              split_mut_array-values as_ptr (λ index. ok (slot_in m index))
                (λ _ slot. ok (transform slot)) (λ _. Panic.unreachable) (λ _ slot. transform slot)
                (λ i slot. refl) (λ i j a b e. apart a b e) slots (slots-IsDistinct ds slots once h)
                (slots_present ds slots h)
              ∙ ap ok (values-map transform 0 slots)),
          h,
        )

    -- On distinct discriminants that are in a `LinearVecMap`, `get_mut_array_by` returns the references to
    -- their entries, in order, when the transform keeps different elements apart.
    pub linear_many_lem :
        IsDiscrim discrim
        → (ds : List D) → IsDistinct (map discrim.into_usize ds)
        → All (λ d. (v : V) × (linear_get discrim d m ≡ some v)) ds
        → (slots : List ℕ) × (linear_many discrim as_ptr transform ds m ≡ ok (map transform slots))
          × Pairwise Holds ds slots
    unfolding linear_many
    linear_many_lem laws ds once present =
        located_lem (λ d. expect (position_from discrim 0 d m) Panic.missing_key) ds once
          (found ds present)
      where
        found :
            (ds : List D)
            → All (λ d. (v : V) × (linear_get discrim d m ≡ some v)) ds
            → All
                (λ d.
                  (s : ℕ) × (expect (position_from discrim 0 d m) Panic.missing_key ≡ ok s)
                  × Holds d s)
                ds
        found [] p = tt
        found (d ∷ ds) p = (
          elim (place_lem laws d m) [
            | inl (missing, no_value) ↦
                let (v, got) = p.0 in
                absurd (clash v (sym got ∙ linear_get-lookup laws d m ∙ no_value))
            | inr (s, d', v, at_s, got, same, value) ↦ (s, rw at_s refl, (d', v, got, same))
          ],
          found ds p.1,
        )
          where
            clash : (v : V) → some v ≡ none → ⊥
            clash v e = cc

    -- The same of a `SortedVecMap` that is sorted.
    pub sorted_many_lem :
        IsDiscrim discrim
        → (ds : List D) → IsOrdered (keys discrim m)
        → IsDistinct (map discrim.into_usize ds)
        → All (λ d. (v : V) × (sorted_get discrim d m ≡ some v)) ds
        → (slots : List ℕ) × (sorted_many discrim as_ptr transform ds m ≡ ok (map transform slots))
          × Pairwise Holds ds slots
    unfolding sorted_many
    sorted_many_lem laws ds a once present =
        located_lem (λ d. locate discrim d m) ds once (found ds present)
      where
        found :
            (ds : List D)
            → All (λ d. (v : V) × (sorted_get discrim d m ≡ some v)) ds
            → All (λ d. (s : ℕ) × (locate discrim d m ≡ ok s) × Holds d s) ds
        found [] p = tt
        found (d ∷ ds) p = (
          elim (binary_search_lem laws d m a) [
            | inl (s, at_s, h) ↦ (s, rw (locate, at_s) refl, (h.stored, h.value, h.placed, h.same))
            | inr (s, at_s, h) ↦
                let (v, got) = p.0 in
                absurd (clash v (sym got ∙ sorted_get-lookup laws d m a ∙ h.no_value))
          ],
          found ds p.1,
        )
          where
            clash : (v : V) → some v ≡ none → ⊥
            clash v e = cc
