-- ===== src/Discrim.antt =====
-- Discriminants and the maps keyed by them, `src/comp/discrim.rs`. A reference to an element of a map is
-- the slot of the element, its index in the vector or the array that holds it.
pub mod Split
pub mod Full
pub mod Linear
pub mod Sorted
pub mod Bounded
pub mod Array
pub mod Pairs
pub mod Slots
pub mod Agree
pub mod Many
pub mod Faults
pub mod Examples
use dynec.Common.{
  ℕ, zero, suc, ◌≡◌, Bool, true, false, not, ◌&&◌, Option, none, some, List, [], ◌∷◌, ◌++◌, map,
  ◌==◌, Outcome, ok, panic, Panic, ◌>>=◌, ◌>>◌, expect, ensure, get_elem?,
}
use dynec.Util.{all}

-- What a discriminant type has: `==` and the conversions.
pub record Discrim (D : Type 0) : Type 0 where
  pub same : D → D → Bool
  pub into_usize : D → ℕ
  pub from_usize : ℕ → Outcome D

-- What the trait asks of its implementations.
pub record IsDiscrim {D : Type 0} (discrim : Discrim D) : Type 0 where
  pub same_lem : (a b : D) → discrim.same a b ≡ (discrim.into_usize a == discrim.into_usize b)
  pub from_usize-into_usize : (d : D) → discrim.from_usize (discrim.into_usize d) ≡ ok d

-- The loop of `split_mut_array`, after the keys `seen` gave the references `done`, which are compared by
-- the addresses that `as_ptr` gives.
module _ {U : Type 0} (as_ptr : U → ℕ) (getter : ℕ → Outcome (Option ℕ))
    (transform : ℕ → ℕ → Outcome U) (on_missing : ℕ → Panic) where
  -- `match getter(..) { Some(value) => transform(i, value), None => on_missing(i) }`
  abbrev pub fetch : ℕ → ℕ → Outcome U
  fetch i key = getter key >>= λ found. expect found (on_missing i) >>= transform i

  unfoldable pub split_from : List ℕ → List U → ℕ → List ℕ → Outcome (List U)
  unfolding all
  split_from seen done i [] = ok done
  split_from seen done i (key ∷ keys) =
      ensure (all (λ item. not (item == key)) seen) Panic.duplicate_key
      >> (fetch i key >>= λ value.
          ensure (all (λ prev. not (prev == as_ptr value)) (map as_ptr done)) Panic.duplicate_key
          >> split_from (seen ++ key ∷ []) (done ++ value ∷ []) (suc i) keys)

  unfoldable pub split_mut_array : List ℕ → Outcome (List U)
  unfolding split_from
  split_mut_array keys = split_from [] [] 0 keys

-- `keys.map(f)` of an array, where `f` may panic.
unfoldable pub map_array {ℓ κ} :
    {A : Type ℓ} {B : Type κ} → (A → Outcome B) → List A → Outcome (List B)
map_array f [] = ok []
map_array f (a ∷ as') = f a >>= λ b. map_array f as' >>= λ bs. ok (b ∷ bs)

-- The same, where `f` writes to a map.
unfoldable pub map_with :
    {A B M : Type 0} → (A → M → Outcome (B × M)) → List A → M → Outcome (List B × M)
map_with f [] m = ok ([], m)
map_with f (a ∷ as') m = f a m >>= λ (b, m'). map_with f as' m' >>= λ (bs, m''). ok (b ∷ bs, m'')

-- `slice.get_mut(index)`
unfoldable pub slot_in : {A : Type 0} → List A → ℕ → Option ℕ
slot_in xs index = elim (get_elem? xs index) [ none ↦ none | some _ ↦ some index ]

-- `slice.get_mut(index).and_then(Option::as_mut)`
unfoldable pub entry_in : {A : Type 0} → List (Option A) → ℕ → Option ℕ
entry_in xs index = elim (get_elem? xs index) [
  | none ↦ none
  | some o ↦ elim o [ none ↦ none | some _ ↦ some index ]
]

-- `iter_mut().map(|(discrim, value)| (*discrim, value))`, with the slots of the references.
unfoldable pub slots_from : {D V : Type 0} → ℕ → List (D × V) → List (D × ℕ)
slots_from i [] = []
slots_from i ((d, v) ∷ m) = (d, i) ∷ slots_from (suc i) m
