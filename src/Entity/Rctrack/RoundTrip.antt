-- ===== src/Entity/Rctrack/RoundTrip.antt =====
-- `set` and `remove` of `src/entity/rctrack.rs` in turn.
use dynec.Common.{
  ℕ, ◌+◌, ◌<◌, ◌≡◌, refl, sym, ap, ◌∙◌, Bool-cases, inl, inr, none, some, arith, ◌==◌, ==_refl, leb,
  ok, panic, Panic, length, length-set, get_elem?, get_elem?_within, set as set_elem,
}
use dynec.Discrim.Full.{and_then}
use dynec.Discrim.Slots.{entry, entry-set, entry-resize, length-resize}
use dynec.Entity.Rctrack.{Store, resize, set, remove, get}

module _ {R : Type 0} where
  entry-grown : (id : ℕ) (s : Store R) (j : ℕ) → entry (resize id s) j ≡ entry s j
  entry-grown id s j = elim (Bool-cases (leb (length s) id)) [
    | inl short ↦ rw short (entry-resize (id + 1) s j)
    | inr long ↦ rw long refl
  ]

  index-grown : (id : ℕ) (s : Store R) → id < length (resize id s)
  index-grown id s = elim (Bool-cases (leb (length s) id)) [
    | inl short ↦ rw short (omega (arith, length-resize (id + 1) s (ground (arith, short))))
    | inr long ↦ rw long (ground (arith, long))
  ]

  -- The cell that a lookup reads.
  cell_of : (s : Store R) (id : ℕ) → id < length s → get_elem? s id ≡ some (entry s id)
  cell_of s id lt =
      let (o, got) = get_elem?_within s id lt in
      got ∙ ap some (sym (ap (λ e. and_then e (λ o. o)) got))

  set_free :
      (id : ℕ) (rc : R) (s : Store R)
      → get id s ≡ none
      → set id rc s ≡ ok (set_elem (resize id s) id (some rc))
  unfolding set
  set_free id rc s free =
      rw (set, cell_of (resize id s) id (index-grown id s), entry-grown id s id, free) refl

  set_taken :
      (id : ℕ) (rc old : R) (s : Store R)
      → get id s ≡ some old
      → set id rc s ≡ panic Panic.assertion_failed
  unfolding set
  set_taken id rc old s taken =
      rw (set, cell_of (resize id s) id (index-grown id s), entry-grown id s id, taken) refl

  remove_present :
      (id : ℕ) (rc : R) (s : Store R)
      → id < length s
      → get id s ≡ some rc
      → remove id s ≡ ok (rc, set_elem s id none)
  unfolding remove
  remove_present id rc s lt there = rw (remove, cell_of s id lt, there) refl

  remove_absent :
      (id : ℕ) (s : Store R)
      → id < length s
      → get id s ≡ none
      → remove id s ≡ panic Panic.double_free
  unfolding remove
  remove_absent id s lt free = rw (remove, cell_of s id lt, free) refl

  -- A reference set for an identifier that has none is read back, a second one is refused; removing
  -- returns it and leaves every identifier with what it had before, and removing again is refused.
  pub remove-set :
      (id : ℕ) (rc other : R) (s : Store R)
      → get id s ≡ none
      → (s' : Store R) × (set id rc s ≡ ok s')
        × (get id s' ≡ some rc)
        × (set id other s' ≡ panic Panic.assertion_failed)
        × (s'' : Store R) × (remove id s' ≡ ok (rc, s''))
        × ((j : ℕ) → get j s'' ≡ get j s)
        × (remove id s'' ≡ panic Panic.double_free)
  remove-set id rc other s free =
      let s' : Store R = set_elem (resize id s) id (some rc) in
      let s'' : Store R = set_elem s' id none in
      let lt : id < length s' =
        omega (arith, index-grown id s, length-set (resize id s) id (some rc)) in
      let there : get id s' ≡ some rc =
        entry-set (resize id s) id id (some rc) (index-grown id s) ∙ rw (==_refl id) refl in
      let gone : get id s'' ≡ none = entry-set s' id id none lt ∙ rw (==_refl id) refl in
      (
        s',
        set_free id rc s free,
        there,
        set_taken id other rc s' there,
        s'',
        remove_present id rc s' lt there,
        λ j. entry-set s' id j none lt ∙ elim (Bool-cases (id == j)) [
          | inl same ↦
              let index : id ≡ j = ground (arith, same) in
              rw same (sym free ∙ ap (λ n. get n s) index)
          | inr differ ↦
              rw (differ, entry-set (resize id s) id j (some rc) (index-grown id s))
                (rw differ (entry-grown id s j))
        ],
        remove_absent id s'' (omega (arith, lt, length-set s' id none)) gone,
      )
