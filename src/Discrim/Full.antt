-- ===== src/Discrim/Full.antt =====
-- What `FullMap` of `src/comp/discrim.rs` promises of a map keyed by discriminants: it is a partial
-- function of the discriminants' numbers.
use dynec.Common.{ℕ, ◌≡◌, refl, Option, none, some, List, [], ◌∷◌, ◌==◌, if◌then◌else◌, Outcome, ok}
use dynec.Discrim.{Discrim}
use dynec.Discrim.Split.{IsDistinct}

-- `Option::unwrap_or`
abbrev pub unwrap_or {ℓ} : {A : Type ℓ} → Option A → A → A
unwrap_or none v = v
unwrap_or (some a) v = a

abbrev pub and_then {ℓ κ} : {A : Type ℓ} {B : Type κ} → Option A → (A → Option B) → Option B
and_then none f = none
and_then (some a) f = f a

abbrev pub or_else {ℓ} : {A : Type ℓ} → Option A → Option A → Option A
or_else none o = o
or_else (some a) o = some a

pub or_else-none {ℓ} : {A : Type ℓ} (o : Option A) → or_else o none ≡ o
or_else-none none = refl
or_else-none (some a) = refl

abbrev pub second {ℓ} : {D : Type 0} {V : Type ℓ} → D × V → V
second (d, v) = v

-- The operations; a mutable reference is a slot, which `read` reads. The value of an inserter is given.
pub record FullMap (D V M : Type 0) : Type 0 where
  pub from_iter : List (D × V) → Outcome M
  pub get_by : D → M → Option V
  pub get_mut_by : D → M → Option ℕ
  pub read : M → ℕ → Option V
  pub get_by_or_insert : D → V → M → Outcome (ℕ × M)
  pub iter_mapped : M → Outcome (List (D × V))

module _ {D V : Type 0} (discrim : Discrim D) where
  -- The abstract view of a list of entries: the value of the first one with a number.
  unfoldable pub lookup : ℕ → List (D × V) → Option V
  lookup i [] = none
  lookup i ((d, v) ∷ xs) = if discrim.into_usize d == i then some v else lookup i xs

  -- The numbers of the entries' discriminants.
  abbrev pub keys : List (D × V) → List ℕ
  keys [] = []
  keys ((d, v) ∷ xs) = discrim.into_usize d ∷ keys xs

  abbrev pub AllKeys : (D → Type 0) → List (D × V) → Type 0
  AllKeys P [] = Unit {0}
  AllKeys P ((d, v) ∷ xs) = P d × AllKeys P xs

  pub record IsFullMap {M : Type 0} (full : FullMap D V M) : Type 1 where
    pub IsValid : M → Type 0
    pub IsSupported : D → Type 0
    pub from_iter_lem :
        (xs : List (D × V))
        → IsDistinct (keys xs)
        → AllKeys IsSupported xs
        → (m : M) × (full.from_iter xs ≡ ok m)
          × IsValid m
          × ((d : D) → full.get_by d m ≡ lookup (discrim.into_usize d) xs)
    pub get_mut_by_lem :
        (d : D) (m : M) → IsValid m → and_then (full.get_mut_by d m) (full.read m) ≡ full.get_by d m
    pub get_by_or_insert_lem :
        (d : D) (v : V) (m : M)
        → IsValid m
        → IsSupported d
        → (slot : ℕ) × (m' : M) × (full.get_by_or_insert d v m ≡ ok (slot, m'))
          × IsValid m'
          × (full.read m' slot ≡ some (unwrap_or (full.get_by d m) v))
          × ((d' : D)
              → full.get_by d' m' ≡ (
                  if discrim.into_usize d == discrim.into_usize d'
                  then some (unwrap_or (full.get_by d m) v)
                  else full.get_by d' m))
    pub iter_mapped_lem :
        (m : M)
        → IsValid m
        → (xs : List (D × V)) × (full.iter_mapped m ≡ ok xs)
          × IsDistinct (keys xs)
          × ((d : D) → lookup (discrim.into_usize d) xs ≡ full.get_by d m)
