-- ===== src/Discrim/Linear/Laws.antt =====
-- `LinearVecMap` as a partial function.
use dynec.Common.{
  ℕ, suc, ◌+◌, ◌≡◌, refl, sym, ap, ◌∙◌, true, Bool-cases, inl, inr, none, some, List, [], ◌∷◌, ◌++◌,
  arith, ◌==◌, if◌then◌else◌, ok, ◌⊎◌, length, get_elem?, get_elem?_last, subst,
}
use dynec.Common.Bags.{tally}
use dynec.Discrim.{Discrim, IsDiscrim}
use dynec.Discrim.Split.{IsDistinct, IsDistinct-snoc}
use dynec.Discrim.Full.{IsFullMap, lookup, keys, unwrap_or, and_then, or_else, or_else-none}
use dynec.Discrim.Linear.{
  LinearVecMap, get_by, position_from, get_mut_by, read, get_by_or_insert, linear_map,
}

module _ {D V : Type 0} {discrim : Discrim D} (laws : IsDiscrim discrim) where
  pub get_by-lookup :
      (key : D) (m : LinearVecMap D V)
      → get_by discrim key m ≡ lookup discrim (discrim.into_usize key) m
  unfolding get_by lookup
  get_by-lookup key [] = refl
  get_by-lookup key ((d, v) ∷ m) = rw (laws.same_lem d key, get_by-lookup key m) refl

  -- What the search for a discriminant returns.
  pub position_lem :
      (i : ℕ) (key : D) (m : LinearVecMap D V)
      → ((position_from discrim i key m ≡ none)
          × (lookup discrim (discrim.into_usize key) m ≡ none))
        ⊎ ((j : ℕ) × (d : D) × (v : V) × (position_from discrim i key m ≡ some (i + j))
            × (get_elem? m j ≡ some (d, v))
            × (discrim.into_usize d ≡ discrim.into_usize key)
            × (lookup discrim (discrim.into_usize key) m ≡ some v))
  unfolding position_from lookup
  position_lem i key [] = inl (refl, refl)
  position_lem i key ((d, v) ∷ m) =
      elim (Bool-cases (discrim.into_usize d == discrim.into_usize key)) [
        | inl here ↦ inr (
          0,
          d,
          v,
          rw (laws.same_lem d key, here) (ap some (omega arith)),
          refl,
          ground (arith, here),
          rw here refl,
        )
        | inr there ↦ elim (position_lem (suc i) key m) [
          | inl (missing, no_value) ↦
              inl (rw (laws.same_lem d key, there) missing, rw there no_value)
          | inr (j, d', v', found, got, same, value) ↦ inr (
            suc j,
            d',
            v',
            rw (laws.same_lem d key, there) (found ∙ ap some (omega arith)),
            got,
            same,
            rw there value,
          )
        ]
      ]

  lookup-push :
      (i : ℕ) (d : D) (v : V) (m : List (D × V))
      → lookup discrim i (m ++ (d, v) ∷ [])
        ≡ or_else (lookup discrim i m) (if discrim.into_usize d == i then some v else none)
  unfolding lookup
  lookup-push i d v [] = ground arith
  lookup-push i d v ((d', v') ∷ m) = elim (Bool-cases (discrim.into_usize d' == i)) [
    | inl here ↦ rw here refl
    | inr there ↦ rw there (lookup-push i d v m)
  ]

  keys-push :
      (d : D) (v : V) (m : List (D × V))
      → keys discrim (m ++ (d, v) ∷ []) ≡ keys discrim m ++ discrim.into_usize d ∷ []
  keys-push d v [] = refl
  keys-push d v ((d', v') ∷ m) = ap (λ ks. discrim.into_usize d' ∷ ks) (keys-push d v m)

  lookup_missing :
      (i : ℕ) (m : List (D × V)) → lookup discrim i m ≡ none → tally i (keys discrim m) ≡ 0
  unfolding lookup tally
  lookup_missing i [] h = refl
  lookup_missing i ((d, v) ∷ m) h = elim (Bool-cases (discrim.into_usize d == i)) [
    | inl here ↦ absurd (ground (arith, h, here))
    | inr there ↦ ground (arith, there, lookup_missing i m (sym (rw there refl) ∙ h))
  ]

  -- The search from the first entry on.
  pub place_lem :
      (key : D) (m : LinearVecMap D V)
      → ((position_from discrim 0 key m ≡ none)
          × (lookup discrim (discrim.into_usize key) m ≡ none))
        ⊎ ((j : ℕ) × (d : D) × (v : V) × (position_from discrim 0 key m ≡ some j)
            × (get_elem? m j ≡ some (d, v))
            × (discrim.into_usize d ≡ discrim.into_usize key)
            × (lookup discrim (discrim.into_usize key) m ≡ some v))
  place_lem key m = elim (position_lem 0 key m) [
    | inl h ↦ inl h
    | inr (j, d, v, found, got, same, value) ↦
        inr (j, d, v, found ∙ ap some (omega arith), got, same, value)
  ]

  pub get_mut_by_lem :
      (key : D) (m : LinearVecMap D V)
      → and_then (get_mut_by discrim key m) (read discrim m) ≡ get_by discrim key m
  unfolding get_mut_by
  get_mut_by_lem key m = elim (place_lem key m) [
    | inl (missing, no_value) ↦ rw (missing, get_by-lookup key m, no_value) refl
    | inr (j, d, v, found, got, same, value) ↦ rw (found, get_by-lookup key m, value, got) refl
  ]

  lookup_same :
      (a b : D) (m : List (D × V))
      → (discrim.into_usize a == discrim.into_usize b) ≡ true
      → lookup discrim (discrim.into_usize a) m ≡ lookup discrim (discrim.into_usize b) m
  lookup_same a b m h = ap (λ i. lookup discrim i m) (ground (arith, h))

  pushed_view :
      (d : D) (v : V) (m : LinearVecMap D V) (d' : D)
      → lookup discrim (discrim.into_usize d) m ≡ none
      → get_by discrim d' (m ++ (d, v) ∷ [])
        ≡ (if discrim.into_usize d == discrim.into_usize d' then some v else get_by discrim d' m)
  pushed_view d v m d' no_value =
      get_by-lookup d' (m ++ (d, v) ∷ [])
      ∙ lookup-push (discrim.into_usize d') d v m
      ∙ elim (Bool-cases (discrim.into_usize d == discrim.into_usize d')) [
        | inl here ↦ rw (sym (lookup_same d d' m here) ∙ no_value, here) refl
        | inr there ↦
            rw (there, get_by-lookup d' m) (or_else-none (lookup discrim (discrim.into_usize d') m))
      ]

  kept_view :
      (d : D) (v : V) (m : LinearVecMap D V) (d' : D)
      → lookup discrim (discrim.into_usize d) m ≡ some v
      → get_by discrim d' m
        ≡ (if discrim.into_usize d == discrim.into_usize d' then some v else get_by discrim d' m)
  kept_view d v m d' value = elim (Bool-cases (discrim.into_usize d == discrim.into_usize d')) [
    | inl here ↦ rw here (get_by-lookup d' m ∙ sym (lookup_same d d' m here) ∙ value)
    | inr there ↦ rw there refl
  ]

  pub get_by_or_insert_lem :
      (d : D) (v : V) (m : LinearVecMap D V)
      → IsDistinct (keys discrim m)
      → (slot : ℕ) × (m' : LinearVecMap D V) × (get_by_or_insert discrim d v m ≡ ok (slot, m'))
        × IsDistinct (keys discrim m')
        × (read discrim m' slot ≡ some (unwrap_or (get_by discrim d m) v))
        × ((d' : D)
            → get_by discrim d' m' ≡ (
                if discrim.into_usize d == discrim.into_usize d'
                then some (unwrap_or (get_by discrim d m) v)
                else get_by discrim d' m))
  unfolding get_by_or_insert
  get_by_or_insert_lem d v m once = elim (place_lem d m) [
    | inl (missing, no_value) ↦
        let kept : unwrap_or (get_by discrim d m) v ≡ v = rw (get_by-lookup d m, no_value) refl in
        (
          length m,
          m ++ (d, v) ∷ [],
          rw (get_by_or_insert, missing) refl,
          subst IsDistinct (sym (keys-push d v m)) (
              IsDistinct-snoc (discrim.into_usize d) (keys discrim m) once
                (lookup_missing (discrim.into_usize d) m no_value)),
          rw (get_elem?_last m (d, v), kept) refl,
          λ d'. rw kept (pushed_view d v m d' no_value),
        )
    | inr (j, e, w, found, got, same, value) ↦
        let kept : unwrap_or (get_by discrim d m) v ≡ w = rw (get_by-lookup d m, value) refl in
        (
          j,
          m,
          rw (get_by_or_insert, found) refl,
          once,
          rw (got, kept) refl,
          λ d'. rw kept (kept_view d w m d' value),
        )
  ]

  abbrev pub linear_map-IsFullMap : IsFullMap discrim (linear_map {D = D} {V = V} discrim)
  linear_map-IsFullMap = record {
    IsValid = λ m. IsDistinct (keys discrim m);
    IsSupported = λ d. Unit {0};
    from_iter_lem = λ xs once supported. (xs, refl, once, λ d. get_by-lookup d xs);
    get_mut_by_lem = λ d m v. get_mut_by_lem d m;
    get_by_or_insert_lem = λ d v m once supported. get_by_or_insert_lem d v m once;
    iter_mapped_lem = λ m once. (m, refl, once, λ d. sym (get_by-lookup d m));
  }
