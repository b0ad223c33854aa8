-- ===== src/Discrim/Array/Laws.antt =====
-- `ArrayMap` as a partial function.
use dynec.Common.{
  ℕ, ◌<◌, ◌≡◌, refl, sym, ap, ◌∙◌, subst, false, Bool-cases, inl, inr, Option, none, some, List, [],
  ◌∷◌, arith, ◌==◌, ==_refl, ltb, if◌then◌else◌, Outcome, ok, panic, Panic, length,
  length-replicate, get_elem?, get_elem?_within, get_elem?_past, set, length-set, replicate,
}
use dynec.Common.Bags.{tally}
use dynec.Discrim.{Discrim, IsDiscrim}
use dynec.Discrim.Split.{IsDistinct, bind_ok}
use dynec.Discrim.Full.{
  IsFullMap, lookup, keys, AllKeys, unwrap_or, and_then, or_else, or_else-none,
}
use dynec.Discrim.Array.{
  ArrayMap, put_new, put_all, from_iter, get_by, read, get_by_or_insert, array_map,
}
use dynec.Discrim.Slots.{
  entry, entry-set, entry-replicate, entry_in-entry, Covers, iter_mapped_lem, lookup_absent,
}

returned : {A : Type 0} (out : Outcome A) (p : Panic) (a : A) → out ≡ panic p → out ≡ ok a → ⊥
returned out p a e h = clash p a (sym e ∙ h)
  where
    clash : {A : Type 0} (p : Panic) (a : A) → panic p ≡ ok a → ⊥
    clash p a h = cc

some-none : {A : Type 0} (a : A) → some a ≡ none → ⊥
some-none a h = cc

module _ {D V : Type 0} {discrim : Discrim D} (laws : IsDiscrim discrim) where
  pub get_by_or_insert_lem :
      (d : D) (v : V) (m : ArrayMap V)
      → discrim.into_usize d < length m
      → (slot : ℕ) × (m' : ArrayMap V) × (get_by_or_insert discrim d v m ≡ ok (slot, m'))
        × (length m' ≡ length m)
        × (read discrim m' slot ≡ some (unwrap_or (get_by discrim d m) v))
        × ((d' : D)
            → get_by discrim d' m' ≡ (
                if discrim.into_usize d == discrim.into_usize d'
                then some (unwrap_or (get_by discrim d m) v)
                else get_by discrim d' m))
  unfolding get_by_or_insert
  get_by_or_insert_lem d v m lt =
      let index : ℕ = discrim.into_usize d in
      let (o, got) = get_elem?_within m index lt in
      let kept : entry m index ≡ o = ap (λ e. and_then e (λ o. o)) got in
      let m' : ArrayMap V = set m index (some (unwrap_or o v)) in
      let view : (j : ℕ)
          → entry m' j ≡ (if index == j then some (unwrap_or (entry m index) v) else entry m j) =
        λ j. rw (entry-set m index j (some (unwrap_or o v)) lt, kept) refl in
      (
        index,
        m',
        rw (get_by_or_insert, got) refl,
        length-set m index (some (unwrap_or o v)),
        view index ∙ rw (==_refl index) refl,
        λ d'. view (discrim.into_usize d'),
      )

  -- A new discriminant in `from_iter`.
  put_new_lem :
      (index : ℕ) (v : V) (m : ArrayMap V)
      → index < length m
      → entry m index ≡ none
      → put_new discrim index v m ≡ ok (set m index (some v))
  unfolding put_new
  put_new_lem index v m lt free =
      let (o, got) = get_elem?_within m index lt in
      cases o got (sym (ap (λ e. and_then e (λ o. o)) got) ∙ free)
    where
      cases :
          (o : Option V)
          → get_elem? m index ≡ some o
          → o ≡ none
          → put_new discrim index v m ≡ ok (set m index (some v))
      cases none got e = rw (put_new, got) refl
      cases (some w) got e = absurd (cc)

  put_all_lem :
      (xs : List (D × V)) (m : ArrayMap V)
      → IsDistinct (keys discrim xs)
      → AllKeys discrim (λ d. discrim.into_usize d < length m) xs
      → ((j : ℕ) → 0 < tally j (keys discrim xs) → entry m j ≡ none)
      → (m' : ArrayMap V) × (put_all discrim xs m ≡ ok m')
        × (length m' ≡ length m)
        × ((j : ℕ) → entry m' j ≡ or_else (lookup discrim j xs) (entry m j))
  unfolding put_all lookup tally
  put_all_lem [] m once known free = (m, refl, refl, λ j. refl)
  put_all_lem ((d, v) ∷ xs) m once known free =
      let index : ℕ = discrim.into_usize d in
      let next : ArrayMap V = set m index (some v) in
      let put : (j : ℕ) → entry next j ≡ (if index == j then some v else entry m j) =
        λ j. entry-set m index j (some v) known.0 in
      let (m', run, len, view) =
        put_all_lem xs next (λ x. ground (arith, once x))
          (subst (λ n. AllKeys discrim (λ d'. discrim.into_usize d' < n) xs)
            (sym (length-set m index (some v))) known.1)
          (λ j pos.
            let differ : index == j ≡ false = ground (arith, pos, once j) in
            put j ∙ rw differ (free j (ground (arith, pos)))) in
      (
        m',
        rw (put_new_lem index v m known.0 (free index (ground arith))) run,
        len ∙ length-set m index (some v),
        λ j. view j ∙ elim (Bool-cases (index == j)) [
          | inl here ↦ rw (put j, here, lookup_absent laws j xs (ground (arith, once j, here))) refl
          | inr there ↦ rw (put j, there) refl
        ],
      )

  pub from_iter_lem :
      (n : ℕ) (xs : List (D × V))
      → IsDistinct (keys discrim xs)
      → AllKeys discrim (λ d. discrim.into_usize d < n) xs
      → (m : ArrayMap V) × (from_iter discrim n xs ≡ ok m)
        × (length m ≡ n)
        × ((d : D) → get_by discrim d m ≡ lookup discrim (discrim.into_usize d) xs)
  unfolding from_iter
  from_iter_lem n xs once known =
      let size : length (replicate {A = Option V} n none) ≡ n =
        length-replicate {A = Option V} n none in
      let (m, run, len, view) =
        put_all_lem xs (replicate n none) once
          (subst (λ n. AllKeys discrim (λ d. discrim.into_usize d < n) xs) (sym size) known)
          (λ j pos. entry-replicate {V = V} n j) in
      (
        m,
        run,
        len ∙ size,
        λ d.
            view (discrim.into_usize d)
            ∙ ap (or_else (lookup discrim (discrim.into_usize d) xs))
                (entry-replicate {V = V} n (discrim.into_usize d))
            ∙ or_else-none (lookup discrim (discrim.into_usize d) xs),
      )

  abbrev pub array_map-IsFullMap :
      (n : ℕ) → Covers discrim 0 n → IsFullMap discrim (array_map {D = D} {V = V} discrim n)
  array_map-IsFullMap n all = record {
    IsValid = λ m. length m ≡ n;
    IsSupported = λ d. discrim.into_usize d < n;
    from_iter_lem = from_iter_lem n;
    get_mut_by_lem = λ d m v. entry_in-entry m (discrim.into_usize d);
    get_by_or_insert_lem = λ d v m len lt.
        let (slot, m', run, len', here, rest) =
          get_by_or_insert_lem d v m (omega (arith, len, lt)) in
        (slot, m', run, len' ∙ len, here, rest);
    iter_mapped_lem =
        λ m len. iter_mapped_lem laws m (λ j lo hi. all j lo (omega (arith, len, hi)));
  }

  put_new-past :
      (index : ℕ) (v : V) (m : ArrayMap V)
      → get_elem? m index ≡ none
      → put_new discrim index v m ≡ panic Panic.unsupported_discrim
  unfolding put_new
  put_new-past index v m got = rw (put_new, got) refl

  put_new-taken :
      (index : ℕ) (v w : V) (m : ArrayMap V)
      → get_elem? m index ≡ some (some w)
      → put_new discrim index v m ≡ panic Panic.duplicate_discrim
  unfolding put_new
  put_new-taken index v w m got = rw (put_new, got) refl

  -- What an insertion that returned has checked.
  put_new_ok :
      (index : ℕ) (v : V) (m m' : ArrayMap V)
      → put_new discrim index v m ≡ ok m'
      → (index < length m) × (entry m index ≡ none) × (m' ≡ set m index (some v))
  put_new_ok index v m m' e = elim (Bool-cases (ltb index (length m))) [
    | inl inside ↦
        let (o, got) = get_elem?_within m index (ground (arith, inside)) in
        within (ground (arith, inside)) o got
    | inr outside ↦ absurd (
        returned (put_new discrim index v m) Panic.unsupported_discrim m'
          (put_new-past index v m (get_elem?_past m index (ground (arith, outside)))) e)
  ]
    where
      within :
          index < length m
          → (o : Option V) → get_elem? m index ≡ some o
          → (index < length m) × (entry m index ≡ none) × (m' ≡ set m index (some v))
      within lt none got =
          let free : entry m index ≡ none = ap (λ e. and_then e (λ o. o)) got in
          let written : ok m' ≡ ok (set m index (some v)) = sym e ∙ put_new_lem index v m lt free in
          (lt, free, cc)
      within lt (some w) got = absurd (
          returned (put_new discrim index v m) Panic.duplicate_discrim m'
            (put_new-taken index v w m got) e)

  put_all_ok :
      (xs : List (D × V)) (m m' : ArrayMap V)
      → put_all discrim xs m ≡ ok m'
      → IsDistinct (keys discrim xs)
        × AllKeys discrim (λ d. discrim.into_usize d < length m) xs
        × ((j : ℕ) → 0 < tally j (keys discrim xs) → entry m j ≡ none)
  unfolding put_all tally
  put_all_ok [] m m' e = (λ x. omega arith, tt, λ j pos. absurd (omega (arith, pos)))
  put_all_ok ((d, v) ∷ xs) m m' e =
      let (next, put, rest) =
        bind_ok (put_new discrim (discrim.into_usize d) v m) (put_all discrim xs) m' e in
      let (lt, free, written) = put_new_ok (discrim.into_usize d) v m next put in
      let (once, known, clear) = put_all_ok xs next m' rest in
      let index : ℕ = discrim.into_usize d in
      let put_view : (j : ℕ) → entry next j ≡ (if index == j then some v else entry m j) =
        λ j. ap (λ n. entry n j) written ∙ entry-set m index j (some v) lt in
      let new : tally index (keys discrim xs) ≡ 0 =
        elim (Bool-cases (ltb 0 (tally index (keys discrim xs)))) [
          | inl twice ↦ absurd (
              some-none v (
                sym (put_view index ∙ rw (==_refl index) refl)
                ∙ clear index (ground (arith, twice))))
          | inr once_only ↦ ground (arith, once_only)
        ] in
      (
        λ x. ground (arith, once x, new),
        (
          lt,
          subst (λ n. AllKeys discrim (λ d'. discrim.into_usize d' < n) xs)
              (ap length written ∙ length-set m index (some v)) known,
        ),
        λ j pos. elim (Bool-cases (index == j)) [
          | inl here ↦
              let same : index ≡ j = ground (arith, here) in subst (λ k. entry m k ≡ none) same free
          | inr there ↦ sym (put_view j ∙ rw there refl) ∙ clear j (ground (arith, pos, there))
        ],
      )

  -- When `from_iter` returns, the discriminants are distinct and their numbers below `N`.
  pub from_iter_ok :
      (n : ℕ) (xs : List (D × V)) (m : ArrayMap V)
      → from_iter discrim n xs ≡ ok m
      → IsDistinct (keys discrim xs) × AllKeys discrim (λ d. discrim.into_usize d < n) xs
  unfolding from_iter
  from_iter_ok n xs m e =
      let (once, known, clear) = put_all_ok xs (replicate n none) m e in
      (
        once,
        subst (λ n. AllKeys discrim (λ d. discrim.into_usize d < n) xs)
            (length-replicate {A = Option V} n none) known,
      )
