-- ===== src/Common/Outcomes.antt =====
-- A computation that returns or panics; `expect` and `unwrap` of the standard library.
use mathlib.Core.Option.{Option, none, some}
use mathlib.Core.Bool.{Bool, true, false}

-- The panics of the modelled code, one constructor per message.
pub data Panic : Type 0 where
  invalid_node_index : Panic
  not_pending : Panic
  not_runnable : Panic
  partition_exclusive : Panic
  count_overflow : Panic
  count_underflow : Panic
  subtract_overflow : Panic
  started_exclusive : Panic
  not_started : Panic
  already_runnable : Panic
  not_blocked : Panic
  cyclic_dependency : Panic
  zero_dependency : Panic
  access_conflict : Panic
  system_conflict : Panic
  index_out_of_bounds : Panic
  shards_not_dropped : Panic
  bits_mismatch : Panic
  undefined_behaviour : Panic
  take_out_of_bounds : Panic
  out_of_partition : Panic
  assertion_failed : Panic
  nonexistent_id : Panic
  double_free : Panic
  unknown_archetype : Panic
  integer_overflow : Panic
  invalid_state : Panic
  duplicate_key : Panic
  missing_key : Panic
  unsupported_discrim : Panic
  duplicate_discrim : Panic
  unreachable : Panic
  deadlock : Panic
  out_of_fuel : Panic

pub data Outcome {ℓ} (A : Type ℓ) : Type ℓ where
  ok : A → Outcome A
  panic : Panic → Outcome A

infixl 5 ◌>>=◌ ◌>>◌
abbrev pub ◌>>=◌ {ℓ κ} : {A : Type ℓ} {B : Type κ} → Outcome A → (A → Outcome B) → Outcome B
ok a >>= f = f a
panic e >>= f = panic e

abbrev pub ◌>>◌ {ℓ κ} : {A : Type ℓ} {B : Type κ} → Outcome A → Outcome B → Outcome B
m >> k = m >>= λ _. k

abbrev pub expect {ℓ} : {A : Type ℓ} → Option A → Panic → Outcome A
expect none e = panic e
expect (some a) e = ok a

-- `assert!`
abbrev pub ensure : Bool → Panic → Outcome (Unit {0})
ensure true e = ok tt
ensure false e = panic e
