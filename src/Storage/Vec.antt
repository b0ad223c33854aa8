-- ===== src/Storage/Vec.antt =====
-- `VecStorage` of `src/storage/vec.rs`. `none` in `data` is memory that is not initialised; reading it
-- is undefined behaviour, which shows here as a panic of its own. An identifier stands for its index.
pub mod Access
pub mod Iterate
pub mod Partition
use dynec.Common.{
  ℕ, zero, suc, ◌+◌, ◌-◌, ◌<◌, ◌≡◌, Bool, true, false, Option, none, some, List, [], ◌∷◌, ◌++◌,
  ◌==◌, ltb, leb, if◌then◌else◌, Outcome, ok, panic, Panic, ◌>>=◌, expect, length, get_elem?, set,
  replicate,
}

pub record VecStorage {ℓ} (A : Type ℓ) : Type ℓ where
  pub cardinality : ℕ
  pub bits : List Bool
  pub data_cells : List (Option A)

-- `Vec::resize` to `n` elements, where that makes the vector longer.
abbrev pub grow {ℓ} : {A : Type ℓ} → List A → ℕ → A → List A
grow xs n v = if leb (length xs) n then xs ++ replicate (n - length xs) v else xs

abbrev pub is_set : Option Bool → Bool
is_set none = false
is_set (some b) = b

abbrev pub bit_delta : Bool → ℕ
bit_delta true = 1
bit_delta false = 0

module _ {ℓ} {A : Type ℓ} where
  abbrev pub default : VecStorage A
  default = record { cardinality = 0; bits = []; data_cells = [] }

  unfoldable pub bit : VecStorage A → ℕ → Bool
  bit s index = is_set (get_elem? s.bits index)

  unfoldable pub set_bit : VecStorage A → ℕ → Bool → Outcome (VecStorage A)
  set_bit s index b =
      let bits = if leb (length s.bits) index then grow s.bits (index + 1) false else s.bits in
      expect (get_elem? bits index) Panic.bits_mismatch >>= λ old.
      if ltb s.cardinality (bit_delta old)
      then panic Panic.subtract_overflow
      else ok (record s {
        bits = set bits index b;
        cardinality = s.cardinality - bit_delta old + bit_delta b;
      })

  -- `assume_init_ref` and `assume_init_read`
  abbrev pub assume_init : Option A → Outcome A
  assume_init none = panic Panic.undefined_behaviour
  assume_init (some a) = ok a

  -- The element behind a set bit.
  unfoldable pub read_at : List (Option A) → ℕ → Outcome A
  read_at cells index = expect (get_elem? cells index) Panic.bits_mismatch >>= assume_init

  unfoldable pub get : VecStorage A → ℕ → Outcome (Option A)
  unfolding bit read_at
  get s index = if bit s index then (read_at s.data_cells index >>= λ a. ok (some a)) else ok none

  -- The write to `data` that follows `set_bit` when there is a new value.
  unfoldable pub write_at : VecStorage A → ℕ → A → VecStorage A
  write_at s index new =
      let cells =
        if leb (length s.data_cells) index
        then grow s.data_cells (index + 1) none
        else s.data_cells in
      record s { data_cells = set cells index (some new) }

  -- `set` of the `Storage` trait: the old value, and the storage.
  unfoldable pub store : VecStorage A → ℕ → Option A → Outcome (Option A × VecStorage A)
  unfolding get set_bit write_at
  store s index (some new) = do
    old ← get s index
    s' ← set_bit s index true
    ok (old, write_at s' index new)
  store s index none = do old ← get s index; s' ← set_bit s index false; ok (old, s')

  -- `iter`: the indices of the set bits, from `index` on, with their values.
  unfoldable pub iter_from : List (Option A) → ℕ → List Bool → Outcome (List (ℕ × A))
  unfolding read_at
  iter_from cells index [] = ok []
  iter_from cells index (false ∷ bits) = iter_from cells (suc index) bits
  iter_from cells index (true ∷ bits) = read_at cells index >>= λ a.
      iter_from cells (suc index) bits >>= λ rest. ok ((index, a) ∷ rest)

  unfoldable pub iter : VecStorage A → Outcome (List (ℕ × A))
  unfolding iter_from
  iter s = iter_from s.data_cells 0 s.bits
