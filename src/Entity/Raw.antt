-- ===== src/Entity/Raw.antt =====
-- Raw entity identifiers, `src/entity/raw.rs`: a non-zero machine integer below `limit`, and the atomic
-- counter, which wraps around to zero.
use dynec.Common.{ℕ, ◌+◌, ◌-◌, ◌%◌, ◌==◌, ltb, if◌then◌else◌, Outcome, ok, panic, Panic}

-- `$base::new(v).expect(e)`
abbrev pub non_zero : ℕ → Panic → Outcome ℕ
non_zero v e = if v == 0 then panic e else ok v

unfoldable pub add : ℕ → ℕ → ℕ → Outcome ℕ
add limit self count =
    if ltb (self + count) limit
    then non_zero (self + count) Panic.integer_overflow
    else panic Panic.integer_overflow

unfoldable pub sub : ℕ → ℕ → Outcome ℕ
sub self other = if ltb self other then panic Panic.subtract_overflow else ok (self - other)

-- The identifier, and the counter after it.
unfoldable pub fetch_add : ℕ → ℕ → ℕ → Outcome (ℕ × ℕ)
fetch_add limit counter count =
    if counter == 0 then panic Panic.integer_overflow else ok (counter, (counter + count) % limit)

unfoldable pub load : ℕ → Outcome ℕ
load counter = non_zero counter Panic.invalid_state
