-- ===== src/Entity/Rctrack.antt =====
-- The strong references of live entities, `Store` of `src/entity/rctrack.rs`; `R` stands for the shared
-- pointers.
pub mod RoundTrip
use dynec.Common.{
  ℕ, suc, ◌+◌, ◌-◌, Bool, true, false, Option, none, some, List, [], ◌∷◌, ◌++◌, leb, if◌then◌else◌,
  Outcome, ok, panic, Panic, ◌>>=◌, expect, length, get_elem?, set as set_elem, replicate,
}
use dynec.Discrim.Full.{and_then}

abbrev pub Store : Type 0 → Type 0
Store R = List (Option R)

module _ {R : Type 0} where
  abbrev pub resize : ℕ → Store R → Store R
  resize id s = if leb (length s) id then s ++ replicate (id + 1 - length s) none else s

  -- `assert!(opt.is_none()); *opt = Some(rc)`
  abbrev pub put : Option R → R → Outcome (Option R)
  put none rc = ok (some rc)
  put (some _) rc = panic Panic.assertion_failed

  unfoldable pub set : ℕ → R → Store R → Outcome (Store R)
  set id rc s = expect (get_elem? (resize id s) id) Panic.unreachable >>= λ opt.
      put opt rc >>= λ opt'. ok (set_elem (resize id s) id opt')

  -- The reference, and the store without it.
  unfoldable pub remove : ℕ → Store R → Outcome (R × Store R)
  remove id s = expect (get_elem? s id) Panic.nonexistent_id >>= λ opt.
      expect opt Panic.double_free >>= λ rc. ok (rc, set_elem s id none)

  abbrev pub get : ℕ → Store R → Option R
  get id s = and_then (get_elem? s id) (λ opt. opt)
