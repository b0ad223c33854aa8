-- ===== src/Storage/Examples.antt =====
-- The theorems on the vector storage, on one with a hole.
use dynec.Common.{
  ℕ, zero, suc, ◌≡◌, refl, true, false, none, some, List, [], ◌∷◌, arith, ◌==◌, if◌then◌else◌, ok,
  length, get_elem?, ltb, leb, ◌&&◌, ◌++◌, Option,
}
use dynec.Storage.Vec.{VecStorage, is_set, get, store, iter}
use dynec.Storage.Vec.Access.{ones, cell, lookup, IsWell, store_lem}
use dynec.Storage.Vec.Partition.{StoragePartition, split_out}
use dynec.Storage.Vec.Partition.Split.{IsSplit, split_out_lem}
use dynec.Storage.Vec.Iterate.{find, IsAscendingFrom, iter_lem}
use dynec.Storage.Vec.{default, iter as vec_iter}
use dynec.Storage.Tree.{
  Tree, StoragePartition as TreePartition, get as tree_get, get_many_mut, into_iter_mut,
  split_out as tree_split_out,
}
use dynec.Storage.Tree.Bounds.{within, tree_split_lem}
use dynec.Storage.Tree.Runs.{write_vec, write_tree, storages_agree}
use dynec.Storage.Tree.Many.{get_many_mut_lem}

abbrev two_values : VecStorage ℕ
two_values = record {
  cardinality = 2;
  bits = true ∷ false ∷ true ∷ [];
  data_cells = some 5 ∷ none ∷ some 8 ∷ [];
}

two_values-IsWell : IsWell two_values
unfolding ones
two_values-IsWell = record { filled = filled; counted = refl }
  where
    filled :
        (i : ℕ)
        → is_set (get_elem? two_values.bits i) ≡ true
        → (a : ℕ) × (cell (get_elem? two_values.data_cells i) ≡ some a)
    filled zero e = (5, refl)
    filled (suc zero) e = absurd (ground (arith, e))
    filled (suc (suc zero)) e = (8, refl)
    filled (suc (suc (suc i))) e = absurd (ground (arith, e))

store_lem_example :
    (s' : VecStorage ℕ) × (store two_values 4 (some 9) ≡ ok (lookup two_values 4, s'))
    × IsWell s'
    × ((j : ℕ) → get s' j ≡ ok (if 4 == j then some 9 else lookup two_values j))
store_lem_example = store_lem two_values 4 (some 9) two_values-IsWell

iter_lem_example :
    (xs : List (ℕ × ℕ)) × (iter two_values ≡ ok xs)
    × (length xs ≡ two_values.cardinality)
    × IsAscendingFrom 0 xs
    × ((i : ℕ) → find i xs ≡ lookup two_values i)
iter_lem_example = iter_lem two_values two_values-IsWell

-- Entities from 10 on, of which 10 and 12 have values.
abbrev from_ten : StoragePartition ℕ
from_ten = record {
  offset = 10;
  bits = true ∷ false ∷ true ∷ [];
  data_cells = some 5 ∷ none ∷ some 8 ∷ [];
}

split_out_lem_example :
    (left : StoragePartition ℕ) × (right : StoragePartition ℕ) × (split_out from_ten 11
      ≡ ok (left, right))
    × IsSplit from_ten 11 left right
split_out_lem_example = split_out_lem from_ten 11 (omega arith) (omega arith)

abbrev some_writes : List (ℕ × Option ℕ)
some_writes = (4, some 40) ∷ (2, some 20) ∷ (4, none) ∷ (2, some 21) ∷ []

storages_agree_example :
    (s : VecStorage ℕ) × (write_vec some_writes default ≡ ok ((write_tree some_writes []).0, s))
    × (vec_iter s ≡ ok (write_tree some_writes []).1)
storages_agree_example = storages_agree some_writes

abbrev small_tree : Tree ℕ
small_tree = (2, 20) ∷ (5, 50) ∷ []

abbrev from_two : TreePartition
from_two = record { lower_bound = some 2; upper_bound = none }

small_tree-IsAscendingFrom : IsAscendingFrom 0 small_tree
unfolding IsAscendingFrom
small_tree-IsAscendingFrom = (omega arith, (omega arith, tt))

tree_split_lem_example :
    (l : TreePartition) × (r : TreePartition) × (tree_split_out from_two 4 ≡ ok (l, r))
    × ((id : ℕ) → within l id ≡ (within from_two id && ltb id 4))
    × ((id : ℕ) → within r id ≡ (within from_two id && leb 4 id))
    × (into_iter_mut l small_tree ++ into_iter_mut r small_tree ≡ into_iter_mut from_two small_tree)
tree_split_lem_example = tree_split_lem from_two 4 0 small_tree refl small_tree-IsAscendingFrom

reads : (tree_get 2 small_tree ≡ some 20) × (tree_get 5 small_tree ≡ some 50)
unfolding tree_get
reads = (refl, refl)

get_many_mut_lem_example :
    (get_many_mut (2 ∷ 5 ∷ []) small_tree ≡ none)
    × (get_many_mut (2 ∷ 2 ∷ []) small_tree ≡ some (2 ∷ 2 ∷ []))
get_many_mut_lem_example =
    get_many_mut_lem 2 5 20 50 small_tree reads.0 reads.1 (λ e. omega (arith, e))
