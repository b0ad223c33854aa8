-- ===== src/Discrim/Sorted/Search.antt =====
-- The search in a `SortedVecMap`, and what an insertion at its result keeps.
use dynec.Common.{
  ℕ, suc, ◌+◌, ◌≤◌, ◌<◌, ◌≡◌, ◌⊎◌, refl, ap, ◌∙◌, false, Bool-cases, inl, inr, none, some, List, [],
  ◌∷◌, arith, ◌==◌, ltb, if◌then◌else◌, get_elem?,
}
use dynec.Common.OrdSet.{Above, IsOrdered, Above-IsOrdered}
use dynec.Discrim.{Discrim}
use dynec.Discrim.Full.{lookup, keys}
use dynec.Discrim.Sorted.{SortedVecMap, at, insert_at, insert_value, search_from}

module _ {D V : Type 0} (discrim : Discrim D) where
  pub lookup-Above :
      (n k : ℕ) (m : List (D × V)) → Above n (keys discrim m) → k ≤ n → lookup discrim k m ≡ none
  unfolding lookup
  lookup-Above n k [] a le = refl
  lookup-Above n k ((d, v) ∷ m) a le =
      let differ : discrim.into_usize d == k ≡ false = ground (arith, a.0, le) in
      rw differ (lookup-Above (discrim.into_usize d) k m a.1 (omega (arith, a.0, le)))

  -- A discriminant that is not in the map, with the index at which it belongs.
  pub record IsAbsent (key : D) (m : List (D × V)) (j : ℕ) : Type 0 where
    pub no_value : lookup discrim (discrim.into_usize key) m ≡ none
    pub ordered : (v : V) → IsOrdered (keys discrim (insert_value j (key, v) m))
    pub above :
        (n : ℕ) (v : V)
        → n < discrim.into_usize key
        → Above n (keys discrim m)
        → Above n (keys discrim (insert_value j (key, v) m))
    pub placed : (v : V) → get_elem? (insert_value j (key, v) m) j ≡ some (key, v)
    pub view :
        (v : V) (k : ℕ)
        → lookup discrim k (insert_value j (key, v) m)
          ≡ (if discrim.into_usize key == k then some v else lookup discrim k m)

  -- A discriminant that is in the map, with its index and value.
  pub record IsPresent (key : D) (m : List (D × V)) (j : ℕ) : Type 0 where
    pub stored : D
    pub value : V
    pub placed : get_elem? m j ≡ some (stored, value)
    pub same : discrim.into_usize stored ≡ discrim.into_usize key
    pub has_value : lookup discrim (discrim.into_usize key) m ≡ some value

  IsAbsent-here :
      (key d : D) (v : V) (m : List (D × V))
      → discrim.into_usize key < discrim.into_usize d
      → IsOrdered (keys discrim ((d, v) ∷ m))
      → IsAbsent key ((d, v) ∷ m) 0
  unfolding lookup
  IsAbsent-here key d v m lt a = record {
    no_value =
        lookup-Above (discrim.into_usize key) (discrim.into_usize key) ((d, v) ∷ m) (lt, a)
          (omega arith);
    ordered = λ w. (lt, a);
    above = λ n w below low. (below, (lt, a));
    placed = λ w. refl;
    view = λ w k. refl;
  }

  view_later :
      (key d : D) (v w : V) (m : List (D × V)) (j k : ℕ)
      → discrim.into_usize d == discrim.into_usize key ≡ false
      → lookup discrim k (insert_value j (key, w) m)
        ≡ (if discrim.into_usize key == k then some w else lookup discrim k m)
      → lookup discrim k ((d, v) ∷ insert_value j (key, w) m)
        ≡ (if discrim.into_usize key == k then some w else lookup discrim k ((d, v) ∷ m))
  unfolding lookup
  view_later key d v w m j k differ h = elim (Bool-cases (discrim.into_usize d == k)) [
    | inl here ↦
        let other : discrim.into_usize key == k ≡ false = ground (arith, here, differ) in
        rw (here, other) refl
    | inr there ↦ rw there h
  ]

  IsPresent-later :
      (key d : D) (v : V) (m : List (D × V)) (j : ℕ)
      → discrim.into_usize d < discrim.into_usize key
      → IsPresent key m j
      → IsPresent key ((d, v) ∷ m) (suc j)
  unfolding lookup
  IsPresent-later key d v m j lt h =
      let differ : discrim.into_usize d == discrim.into_usize key ≡ false = ground (arith, lt) in
      record {
        stored = h.stored;
        value = h.value;
        placed = h.placed;
        same = h.same;
        has_value = rw differ h.has_value;
      }

  IsAbsent-later :
      (key d : D) (v : V) (m : List (D × V)) (j : ℕ)
      → discrim.into_usize d < discrim.into_usize key
      → Above (discrim.into_usize d) (keys discrim m)
      → IsAbsent key m j
      → IsAbsent key ((d, v) ∷ m) (suc j)
  unfolding lookup
  IsAbsent-later key d v m j lt a h =
      let differ : discrim.into_usize d == discrim.into_usize key ≡ false = ground (arith, lt) in
      record {
        no_value = rw differ h.no_value;
        ordered = λ w. h.above (discrim.into_usize d) w lt a;
        above = λ n w below low. (low.0, h.above (discrim.into_usize d) w lt a);
        placed = h.placed;
        view = λ w k. view_later key d v w m j k differ (h.view w k);
      }

  pub search_lem :
      (i : ℕ) (key : D) (m : SortedVecMap D V)
      → IsOrdered (keys discrim m)
      → ((j : ℕ) × (search_from discrim i key m ≡ at (i + j)) × IsPresent key m j)
        ⊎ ((j : ℕ) × (search_from discrim i key m ≡ insert_at (i + j)) × IsAbsent key m j)
  unfolding search_from lookup
  search_lem i key [] a = inr (
    0,
    ap insert_at (omega arith),
    record {
      no_value = refl;
      ordered = λ v. tt;
      above = λ n v below low. (below, tt);
      placed = λ v. refl;
      view = λ v k. refl;
    },
  )
  search_lem i key ((d, v) ∷ m) a =
      elim (Bool-cases (ltb (discrim.into_usize d) (discrim.into_usize key))) [
        | inl before ↦
            elim (search_lem (suc i) key m
              (Above-IsOrdered (discrim.into_usize d) (keys discrim m) a)) [
                | inl (j, found, h) ↦ inl (
                  suc j,
                  rw before (found ∙ ap at (omega arith)),
                  IsPresent-later key d v m j (ground (arith, before)) h,
                )
                | inr (j, found, h) ↦ inr (
                  suc j,
                  rw before (found ∙ ap insert_at (omega arith)),
                  IsAbsent-later key d v m j (ground (arith, before)) a h,
                )
              ]
        | inr not_before ↦ elim (Bool-cases (discrim.into_usize d == discrim.into_usize key)) [
          | inl here ↦ inl (
            0,
            rw (not_before, here) (ap at (omega arith)),
            record {
              stored = d;
              value = v;
              placed = refl;
              same = ground (arith, here);
              has_value = rw here refl;
            },
          )
          | inr there ↦ inr (
            0,
            rw (not_before, there) (ap insert_at (omega arith)),
            IsAbsent-here key d v m (ground (arith, not_before, there)) a,
          )
        ]
      ]
