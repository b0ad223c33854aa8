-- ===== src/Storage/Tree/Many.antt =====
-- `get_many_mut` of a tree.
use dynec.Common.{ℕ, suc, ◌≡◌, ◌≢◌, refl, false, none, some, [], ◌∷◌, arith, ◌==◌, ==_refl}
use dynec.Util.{all, is_all_distinct_quadtime}
use dynec.Storage.Tree.{Tree, get, get_mut, all_found, get_many_mut}

module _ {ℓ} {C : Type ℓ} where
  found : (id : ℕ) (c : C) (t : Tree C) → get id t ≡ some c → get_mut id t ≡ some id
  unfolding get_mut
  found id c t e = rw (get_mut, e) refl

  -- For two different entities of the tree, `get_many_mut` returns nothing; for one entity given twice, it
  -- returns two references to its value.
  pub get_many_mut_lem :
      (a b : ℕ) (c d : C) (t : Tree C)
      → get a t ≡ some c
      → get b t ≡ some d
      → a ≢ b
      → (get_many_mut (a ∷ b ∷ []) t ≡ none) × (get_many_mut (a ∷ a ∷ []) t ≡ some (a ∷ a ∷ []))
  unfolding get_many_mut is_all_distinct_quadtime all all_found
  get_many_mut_lem a b c d t ea eb apart =
      let other : suc a == suc b ≡ false = ground (arith, apart) in
      (
        rw (get_many_mut, found a c t ea, found b d t eb, other) refl,
        rw (get_many_mut, found a c t ea, ==_refl (suc a)) refl,
      )
