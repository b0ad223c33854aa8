-- ===== src/Discrim/Pairs.antt =====
-- The maps that a set of discriminants gives, `[(D, V); N]` and `Vec<(D, V)>`, keyed by the position, and the
-- sets `[D; N]` and `Vec<D>`: `src/comp/discrim.rs`.
use dynec.Common.{ℕ, suc, Option, some, List, [], ◌∷◌, Outcome, ok, Panic, get_elem?}
use dynec.Discrim.{split_mut_array, slot_in, slots_from}
use dynec.Discrim.Full.{and_then}

-- `Set::map`
abbrev pub map_set : {D U : Type 0} → (D → U) → List D → List (D × U)
map_set func [] = []
map_set func (d ∷ ds) = (d, func d) ∷ map_set func ds

module _ {D V : Type 0} where
  abbrev pub get_discrim : ℕ → List (D × V) → Option D
  get_discrim key m = and_then (get_elem? m key) (λ (d, _). some d)

  abbrev pub get_by : ℕ → List (D × V) → Option V
  get_by key m = and_then (get_elem? m key) (λ (_, v). some v)

  abbrev pub get_mut_by : ℕ → List (D × V) → Option ℕ
  get_mut_by key m = slot_in m key

  unfoldable pub get_mut_array_by :
      {U : Type 0} (as_ptr : U → ℕ) (transform : ℕ → U) → List ℕ → List (D × V) → Outcome (List U)
  get_mut_array_by as_ptr transform keys m =
      split_mut_array as_ptr (λ index. ok (slot_in m index)) (λ _ slot. ok (transform slot))
        (λ _. Panic.missing_key) keys

  -- `iter().enumerate().map(|(key, (discrim, value))| (key, *discrim, value))`
  abbrev pub iter_mapped_from : ℕ → List (D × V) → List (ℕ × D × V)
  iter_mapped_from i [] = []
  iter_mapped_from i ((d, v) ∷ m) = (i, d, v) ∷ iter_mapped_from (suc i) m

  abbrev pub iter_mapped_mut : List (D × V) → List (D × ℕ)
  iter_mapped_mut m = slots_from 0 m

  abbrev pub into_iter_mapped : List (D × V) → List (D × V)
  into_iter_mapped m = m
