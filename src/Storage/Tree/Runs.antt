-- ===== src/Storage/Tree/Runs.antt =====
-- Sequences of writes to `VecStorage` of `src/storage/vec.rs` and to `Tree` of `src/storage/tree.rs`.
use dynec.Common.{
  ℕ, suc, ◌<◌, ◌≡◌, refl, subst, sym, ap, ◌∙◌, true, false, Bool-cases, inl, inr, Option, none,
  some, List, [], ◌∷◌, arith, ◌==◌, ==_refl, ltb, if◌then◌else◌, Outcome, ok, ◌>>=◌,
}
use dynec.Storage.Vec.{VecStorage, default, iter, store as vec_store}
use dynec.Storage.Vec.Access.{ones, lookup, IsWell, get_lem, store_lem}
use dynec.Storage.Vec.Iterate.{find, IsAscendingFrom, iter_lem}
use dynec.Storage.Tree.{Tree, get, store}
use dynec.Storage.Tree.Same.{get_below, tree_store_lem}

module _ {C : Type 0} where
  -- The old values that a sequence of writes returns, and the storage after it.
  unfoldable pub write_vec :
      List (ℕ × Option C) → VecStorage C → Outcome (List (Option C) × VecStorage C)
  write_vec [] s = ok ([], s)
  write_vec ((id, new) ∷ writes) s = vec_store s id new >>= λ (old, s').
      write_vec writes s' >>= λ (olds, s''). ok (old ∷ olds, s'')

  unfoldable pub write_tree : List (ℕ × Option C) → Tree C → List (Option C) × Tree C
  write_tree [] t = ([], t)
  write_tree ((id, new) ∷ writes) t =
      let (old, t') = store id new t in let (olds, t'') = write_tree writes t' in (old ∷ olds, t'')

  same_value : (a b : C) → some a ≡ some b → a ≡ b
  same_value a b e = cc

  clash : (a : C) → some a ≡ none → ⊥
  clash a e = cc

  find_below :
      (k i : ℕ) (entries : List (ℕ × C)) → IsAscendingFrom k entries → i < k → find i entries ≡ none
  unfolding find IsAscendingFrom
  find_below k i [] a lt = refl
  find_below k i ((j, c) ∷ entries) a lt =
      let other : j == i ≡ false = ground (arith, lt, a.0) in
      rw other (find_below (suc j) i entries a.1 (omega (arith, lt, a.0)))

  -- Two lists in order that hold the same values are equal.
  ascending_unique :
      (k : ℕ) (xs ys : List (ℕ × C))
      → IsAscendingFrom k xs
      → IsAscendingFrom k ys
      → ((i : ℕ) → find i xs ≡ get i ys)
      → xs ≡ ys
  unfolding find get IsAscendingFrom
  ascending_unique k [] [] a b h = refl
  ascending_unique k [] ((j, d) ∷ ys) a b h = absurd (clash d (sym (h j ∙ rw (==_refl j) refl)))
  ascending_unique k ((i, c) ∷ xs) [] a b h = absurd (clash c (sym (rw (==_refl i) refl) ∙ h i))
  ascending_unique k ((i, c) ∷ xs) ((j, d) ∷ ys) a b h = elim (Bool-cases (i == j)) [
    | inl same ↦
        let index : i ≡ j = ground (arith, same) in
        let back : j == i ≡ true = ground (arith, same) in
        let value : c ≡ d = same_value c d (sym (rw (==_refl i) refl) ∙ h i ∙ rw back refl) in
        let b' : IsAscendingFrom (suc i) ys =
          subst (λ n. IsAscendingFrom (suc n) ys) (sym index) b.1 in
        let rest : xs ≡ ys = ascending_unique (suc i) xs ys a.1 b' (λ n. tails n index b' (h n)) in
        cc
    | inr differ ↦ elim (Bool-cases (ltb i j)) [
      | inl first ↦
          let other : j == i ≡ false = ground (arith, first) in
          absurd (
            clash c (
              sym (rw (==_refl i) refl)
              ∙ h i
              ∙ rw other (get_below (suc j) i ys b.1 (ground (arith, first)))))
      | inr second ↦ absurd (
          clash d (
            sym (
              sym (rw differ (find_below (suc i) j xs a.1 (ground (arith, differ, second))))
              ∙ h j
              ∙ rw (==_refl j) refl)))
    ]
  ]
    where
      tails :
          (n : ℕ)
          → i ≡ j
          → IsAscendingFrom (suc i) ys
          → find n ((i, c) ∷ xs) ≡ get n ((j, d) ∷ ys)
          → find n xs ≡ get n ys
      tails n index b' e = elim (Bool-cases (i == n)) [
        | inl here ↦
            find_below (suc i) n xs a.1 (ground (arith, here))
            ∙ sym (get_below (suc i) n ys b' (ground (arith, here)))
        | inr there ↦
            let other : j == n ≡ false = ground (arith, there, index) in
            sym (rw there refl) ∙ e ∙ rw other refl
      ]

  same_ok : (a b : Option C) → ok a ≡ ok b → a ≡ b
  same_ok a b e = cc

  store_old : (id : ℕ) (new : Option C) (t : Tree C) → (store id new t).0 ≡ get id t
  unfolding store
  store_old id (some c) t = refl
  store_old id none t = refl

  default-IsWell : IsWell (default {A = C})
  unfolding ones
  default-IsWell = record { filled = λ i e. absurd (ground (arith, e)); counted = refl }

  -- After the same writes, from storages that hold the same values, both returned the same old values
  -- and hold the same values.
  writes_lem :
      (writes : List (ℕ × Option C)) (s : VecStorage C) (t : Tree C)
      → IsWell s
      → IsAscendingFrom 0 t
      → ((i : ℕ) → lookup s i ≡ get i t)
      → (s' : VecStorage C) × (write_vec writes s ≡ ok ((write_tree writes t).0, s'))
        × IsWell s'
        × IsAscendingFrom 0 (write_tree writes t).1
        × ((i : ℕ) → lookup s' i ≡ get i (write_tree writes t).1)
  unfolding write_vec write_tree
  writes_lem [] s t w a h = (s, refl, w, a, h)
  writes_lem ((id, new) ∷ writes) s t w a h =
      let (s', run, w', view) = store_lem s id new w in
      let (a', view') = tree_store_lem id new t a in
      let (s'', runs, w'', a'', h'') = writes_lem writes s' (store id new t).1 w' a' (λ i.
        same_ok (lookup s' i) (if id == i then new else lookup s i) (sym (get_lem s' i w') ∙ view i)
        ∙ ap (λ o. if id == i then new else o) (h i)
        ∙ sym (view' i)) in
      (s'', rw (run, runs, h id, store_old id new t) refl, w'', a'', h'')

  -- After the same writes, from empty storages, the vector storage and the tree have returned the same old
  -- values, and `iter` gives the same entries in the same order.
  pub storages_agree :
      (writes : List (ℕ × Option C))
      → (s : VecStorage C) × (write_vec writes default ≡ ok ((write_tree writes []).0, s))
        × (iter s ≡ ok (write_tree writes []).1)
  unfolding lookup get IsAscendingFrom
  storages_agree writes =
      let (s, run, w, a, h) = writes_lem writes default [] default-IsWell tt (λ i. refl) in
      let (xs, iterated, count, b, found) = iter_lem s w in
      (
        s,
        run,
        iterated ∙ ap ok (ascending_unique 0 xs (write_tree writes []).1 b a (λ i. found i ∙ h i)),
      )
