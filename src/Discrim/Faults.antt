-- ===== src/Discrim/Faults.antt =====
-- Single requests to `get_by_or_insert_array` of `src/comp/discrim.rs`.
use dynec.Common.{
  ℕ, ◌<◌, ◌≡◌, ◌≢◌, refl, true, false, Option, some, List, [], ◌∷◌, arith, ◌==◌, ==_refl, ltb,
  Outcome, ok, panic, Panic, ◌>>=◌, length, get_elem?, get_elem?_within, get_elem?-set_self, set,
}
use dynec.Util.{all}
use dynec.Discrim.{Discrim, map_with, slot_in, entry_in, split_mut_array, split_from}
use dynec.Discrim.Full.{unwrap_or}
use dynec.Discrim.Sorted.{
  SortedVecMap, at, insert_at, insert_value, binary_search, search_from, get_by_or_insert,
  get_by_or_insert_array,
}
use dynec.Discrim.Array.{
  ArrayMap, get_by_or_insert as array_insert, get_by_or_insert_array as array_insert_array,
}

module _ {D V : Type 0} (discrim : Discrim D) where
  search_first :
      (a : D) (v : V) (m : SortedVecMap D V) → binary_search discrim a ((a, v) ∷ m) ≡ at 0
  unfolding binary_search search_from
  search_first a v m =
      let irreflexive : ltb (discrim.into_usize a) (discrim.into_usize a) ≡ false = ground arith in
      rw (irreflexive, ==_refl (discrim.into_usize a)) refl

  search_below :
      (a b : D) (v : V) (m : SortedVecMap D V)
      → discrim.into_usize b < discrim.into_usize a
      → binary_search discrim b ((a, v) ∷ m) ≡ insert_at 0
  unfolding binary_search search_from
  search_below a b v m lt =
      let not_before : ltb (discrim.into_usize a) (discrim.into_usize b) ≡ false =
        ground (arith, lt) in
      let differ : discrim.into_usize a == discrim.into_usize b ≡ false = ground (arith, lt) in
      rw (not_before, differ) refl

  search_second :
      (a c : D) (v w : V)
      → discrim.into_usize a < discrim.into_usize c
      → binary_search discrim c ((a, v) ∷ (c, w) ∷ []) ≡ at 1
  unfolding binary_search search_from
  search_second a c v w lt =
      let before : ltb (discrim.into_usize a) (discrim.into_usize c) ≡ true = ground (arith, lt) in
      let irreflexive : ltb (discrim.into_usize c) (discrim.into_usize c) ≡ false = ground arith in
      rw (before, irreflexive, ==_refl (discrim.into_usize c)) refl

  -- What a step of the loop over the requests does.
  step_found :
      (x : V) (a : D) (m : SortedVecMap D V) (j : ℕ)
      → binary_search discrim a m ≡ at j
      → get_by_or_insert discrim a x m ≡ ok (j, m)
  unfolding get_by_or_insert
  step_found x a m j e = rw (get_by_or_insert, e) refl

  step_new :
      (x : V) (b : D) (m : SortedVecMap D V) (j : ℕ)
      → binary_search discrim b m ≡ insert_at j
      → get_by_or_insert discrim b x m ≡ ok (j, insert_value j (b, x) m)
  unfolding get_by_or_insert
  step_new x b m j e = rw (get_by_or_insert, e) refl

module _ {D V : Type 0} (discrim : Discrim D) {U : Type 0} (as_ptr : U → ℕ) (inserter : D → V)
    (transform : D → ℕ → U) where
  -- On a sorted map whose first entry is of `a`, a request for `a` and a new discriminant below it panics,
  -- though the two are distinct.
  pub sorted_insert_panics :
      (a b : D) (v : V) (m : SortedVecMap D V)
      → discrim.into_usize b < discrim.into_usize a
      → get_by_or_insert_array discrim as_ptr inserter transform (a ∷ b ∷ []) ((a, v) ∷ m)
        ≡ panic Panic.duplicate_key
  unfolding get_by_or_insert_array map_with split_mut_array split_from slot_in all
  sorted_insert_panics a b v m lt =
      rw
        (
          get_by_or_insert_array,
          step_found discrim (inserter a) a ((a, v) ∷ m) 0 (search_first discrim a v m),
          step_new discrim (inserter b) b ((a, v) ∷ m) 0 (search_below discrim a b v m lt),
        )
        refl

  -- On the sorted map of `a` and `c`, a request for `c` and a new discriminant below both returns the
  -- reference of `a` in the place of `c`'s.
  pub sorted_insert_shifts :
      (a b c : D) (v w : V)
      → discrim.into_usize b < discrim.into_usize a
      → discrim.into_usize a < discrim.into_usize c
      → as_ptr (transform a 1) ≢ as_ptr (transform b 0)
      → get_by_or_insert_array discrim as_ptr inserter transform (c ∷ b ∷ []) ((a, v) ∷ (c, w) ∷ [])
        ≡ ok (transform a 1 ∷ transform b 0 ∷ [], (b, inserter b) ∷ (a, v) ∷ (c, w) ∷ [])
  unfolding get_by_or_insert_array map_with split_mut_array split_from slot_in all
  sorted_insert_shifts a b c v w lt gt apart =
      let unaliased : as_ptr (transform a 1) == as_ptr (transform b 0) ≡ false =
        ground (arith, apart) in
      rw
        (
          get_by_or_insert_array,
          step_found discrim (inserter c) c ((a, v) ∷ (c, w) ∷ []) 1
              (search_second discrim a c v w gt),
          step_new discrim (inserter b) b ((a, v) ∷ (c, w) ∷ []) 0
              (search_below discrim a b v ((c, w) ∷ []) lt),
        )
        (rw unaliased refl)

  array_step :
      (x : V) (d : D) (m : ArrayMap V) (o : Option V)
      → get_elem? m (discrim.into_usize d) ≡ some o
      → array_insert discrim d x m
        ≡ ok (discrim.into_usize d, set m (discrim.into_usize d) (some (unwrap_or o x)))
  unfolding array_insert
  array_step x d m o got = rw (array_insert, got) refl

  abbrev returned : {W A : Type 0} → A → List W → Outcome (List W × A)
  returned result values = ok (values, result)

  one_value :
      {A W : Type 0} (out : Outcome D) (make : D → W) (result : A)
      → (out >>= (λ d. ok (make d)) >>= (λ value. ok (value ∷ [])) >>= returned result)
        ≡ (out >>= λ d. returned result (make d ∷ []))
  one_value (ok d) make result = refl
  one_value (panic p) make result = refl

  -- A request for one discriminant that an `ArrayMap` supports passes to the transform the discriminant of
  -- the number 0, whatever was asked for.
  pub array_transform_lem :
      (d : D) (m : ArrayMap V)
      → discrim.into_usize d < length m
      → (m' : ArrayMap V) × (array_insert_array discrim as_ptr inserter transform (d ∷ []) m ≡ (
          discrim.from_usize 0 >>= λ first. ok (transform first (discrim.into_usize d) ∷ [], m')))
  unfolding array_insert_array array_insert map_with split_mut_array split_from entry_in all
  array_transform_lem d m lt =
      let (o, got) = get_elem?_within m (discrim.into_usize d) lt in
      let m' : ArrayMap V = set m (discrim.into_usize d) (some (unwrap_or o (inserter d))) in
      (
        m',
        rw
            (
              array_insert_array,
              array_step (inserter d) d m o got,
              entry_in,
              get_elem?-set_self m (discrim.into_usize d) (some (unwrap_or o (inserter d))) lt,
            )
            (one_value (discrim.from_usize 0) (λ first. transform first (discrim.into_usize d)) m'),
      )
