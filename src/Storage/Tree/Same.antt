-- ===== src/Storage/Tree/Same.antt =====
-- What writes do to a tree.
use dynec.Common.{
  ℕ, suc, ◌≤◌, ◌<◌, ◌≡◌, refl, false, Bool-cases, inl, inr, Option, none, some, [], ◌∷◌, arith,
  ◌==◌, ltb, if◌then◌else◌,
}
use dynec.Storage.Vec.Iterate.{IsAscendingFrom}
use dynec.Storage.Tree.{Tree, get, insert, remove, store}

module _ {ℓ} {C : Type ℓ} where
  pub get-insert :
      (id k : ℕ) (c : C) (entries : Tree C)
      → get k (insert id c entries) ≡ (if id == k then some c else get k entries)
  unfolding get insert
  get-insert id k c [] = refl
  get-insert id k c ((j, d) ∷ entries) = elim (Bool-cases (ltb id j)) [
    | inl before ↦ rw before refl
    | inr after ↦ elim (Bool-cases (j == id)) [
      | inl same ↦
          rw (after, same)
            (elim (Bool-cases (id == k)) [
              | inl here ↦ rw here refl
              | inr there ↦
                  let other : j == k ≡ false = ground (arith, same, there) in rw (there, other) refl
            ])
      | inr other ↦
          rw (after, other)
            (elim (Bool-cases (j == k)) [
              | inl here ↦
                  let differ : id == k ≡ false = ground (arith, other, here) in
                  rw (here, differ) refl
              | inr there ↦ rw there (get-insert id k c entries)
            ])
    ]
  ]

  pub get_below :
      (k i : ℕ) (entries : Tree C) → IsAscendingFrom k entries → i < k → get i entries ≡ none
  unfolding get IsAscendingFrom
  get_below k i [] a lt = refl
  get_below k i ((j, c) ∷ entries) a lt =
      let other : j == i ≡ false = ground (arith, lt, a.0) in
      rw other (get_below (suc j) i entries a.1 (omega (arith, lt, a.0)))

  pub get-remove :
      (id k low : ℕ) (entries : Tree C)
      → IsAscendingFrom low entries
      → get k (remove id entries) ≡ (if id == k then none else get k entries)
  unfolding get remove IsAscendingFrom
  get-remove id k low [] a = ground arith
  get-remove id k low ((j, d) ∷ entries) a = elim (Bool-cases (j == id)) [
    | inl same ↦ rw same (elim (Bool-cases (id == k)) [
      | inl here ↦ rw here (get_below (suc j) k entries a.1 (ground (arith, same, here)))
      | inr there ↦
          let other : j == k ≡ false = ground (arith, same, there) in rw (there, other) refl
    ])
    | inr other ↦ rw other (elim (Bool-cases (j == k)) [
      | inl here ↦
          let differ : id == k ≡ false = ground (arith, other, here) in rw (here, differ) refl
      | inr there ↦ rw there (get-remove id k (suc j) entries a.1)
    ])
  ]

  IsAscendingFrom-lower :
      (low k : ℕ) (entries : Tree C)
      → low ≤ k
      → IsAscendingFrom k entries
      → IsAscendingFrom low entries
  unfolding IsAscendingFrom
  IsAscendingFrom-lower low k [] le a = tt
  IsAscendingFrom-lower low k ((j, c) ∷ entries) le a = (omega (arith, le, a.0), a.1)

  pub IsAscendingFrom-insert :
      (id low : ℕ) (c : C) (entries : Tree C)
      → low ≤ id
      → IsAscendingFrom low entries
      → IsAscendingFrom low (insert id c entries)
  unfolding insert IsAscendingFrom
  IsAscendingFrom-insert id low c [] le a = (le, tt)
  IsAscendingFrom-insert id low c ((j, d) ∷ entries) le a = elim (Bool-cases (ltb id j)) [
    | inl before ↦ rw before (le, (ground (arith, before), a.1))
    | inr after ↦ elim (Bool-cases (j == id)) [
      | inl same ↦
          rw (after, same)
            (le, IsAscendingFrom-lower (suc id) (suc j) entries (ground (arith, same)) a.1)
      | inr other ↦
          rw (after, other)
            (a.0, IsAscendingFrom-insert id (suc j) c entries (ground (arith, after, other)) a.1)
    ]
  ]

  pub IsAscendingFrom-remove :
      (id low : ℕ) (entries : Tree C)
      → IsAscendingFrom low entries
      → IsAscendingFrom low (remove id entries)
  unfolding remove IsAscendingFrom
  IsAscendingFrom-remove id low [] a = tt
  IsAscendingFrom-remove id low ((j, d) ∷ entries) a = elim (Bool-cases (j == id)) [
    | inl same ↦ rw same (IsAscendingFrom-lower low (suc j) entries (omega (arith, a.0)) a.1)
    | inr other ↦ rw other (a.0, IsAscendingFrom-remove id (suc j) entries a.1)
  ]

  -- A write to a tree in order keeps the order and changes the value of its entity only.
  pub tree_store_lem :
      (id : ℕ) (new : Option C) (entries : Tree C)
      → IsAscendingFrom 0 entries
      → IsAscendingFrom 0 (store id new entries).1
        × ((k : ℕ) → get k (store id new entries).1 ≡ (if id == k then new else get k entries))
  unfolding store
  tree_store_lem id (some c) entries a =
      (IsAscendingFrom-insert id 0 c entries (omega arith) a, λ k. get-insert id k c entries)
  tree_store_lem id none entries a =
      (IsAscendingFrom-remove id 0 entries a, λ k. get-remove id k 0 entries a)
