-- ===== src/Entity/Snapshot/Split.antt =====
-- `iter_chunks` agrees with `iter_allocated_chunks` on a slice that was not split, and loses
-- identifiers on the right part of one that was.
use dynec.Common.{
  ℕ, ◌+◌, ◌≤◌, ◌<◌, ◌≡◌, refl, sym, ap, ◌∙◌, true, false, ◌&&◌, List, [], ◌∷◌, ◌++◌, arith, leb,
  ltb, ==_refl, Bool-cases, inl, inr,
}
use dynec.Common.OrdSet.{contains}
use dynec.Entity.Snapshot.{
  first_id, breakpoint, initial, gaps, iter_gaps, covers, Snapshot, iter_allocated_chunks, as_slice,
  iter_chunks, chunks_from, range, windows, all_windows, split_at,
}
use dynec.Entity.Snapshot.Gaps.{IsWithin, covers_filter, covers-iter_allocated_chunks}

range_all : (lo low hi : ℕ) (bs : List ℕ) → lo ≤ low → IsWithin low hi bs → range lo hi bs ≡ bs
unfolding range
range_all lo low hi [] le h = refl
range_all lo low hi (b ∷ bs) le h = ground (arith, range_all lo (b + 1) hi bs (omega arith) h.2)

windows-gaps :
    (gauge p : ℕ) (bs : List ℕ) → windows p (bs ++ gauge ∷ []) ≡ gaps gauge (breakpoint p) bs
unfolding windows gaps
windows-gaps gauge p [] = refl
windows-gaps gauge p (b ∷ bs) =
    ap (◌∷◌ (record { start = p + 1; end = b })) (windows-gaps gauge b bs)

whole_slice :
    (gauge : ℕ) (bs : List ℕ) (x : ℕ)
    → IsWithin first_id gauge bs
    → covers (chunks_from (record { start = first_id; end = gauge; recyclable = bs }) bs) x
      ≡ covers (iter_gaps gauge bs) x
unfolding chunks_from iter_gaps gaps
whole_slice gauge [] x h = sym (covers_filter (gaps gauge initial []) x)
whole_slice gauge (b ∷ bs) x h =
    rw (range_all first_id first_id gauge (b ∷ bs) (omega arith) h, windows-gaps gauge b bs) refl

-- When the recyclable identifiers are in increasing order and below the gauge: on the slice of the
-- whole snapshot, `iter_chunks` covers the same identifiers as `iter_allocated_chunks`.
pub iter_chunks-as_slice :
    (s : Snapshot) (x : ℕ)
    → IsWithin first_id s.gauge s.recyclable
    → covers (iter_chunks (as_slice s)) x ≡ covers (iter_allocated_chunks s) x
unfolding iter_chunks as_slice iter_allocated_chunks
iter_chunks-as_slice s x h = whole_slice s.gauge s.recyclable x h

IsWithin-lower : (a b gauge : ℕ) (bs : List ℕ) → a ≤ b → IsWithin b gauge bs → IsWithin a gauge bs
IsWithin-lower a b gauge [] le h = omega arith
IsWithin-lower a b gauge (c ∷ bs) le h = (omega arith, h.1, h.2)

windows_late :
    (midpt gauge x p : ℕ) (bs : List ℕ)
    → x ≤ p
    → IsWithin (p + 1) gauge bs
    → covers (windows p (range midpt gauge bs ++ gauge ∷ [])) x ≡ false
unfolding windows range
windows_late midpt gauge x p [] le h = ground arith
windows_late midpt gauge x p (b ∷ bs) le h = elim (Bool-cases (leb midpt b && ltb b gauge)) [
  | inl kept ↦ rw kept (ground (arith, windows_late midpt gauge x b bs (omega arith) h.2))
  | inr dropped ↦ rw dropped (
      windows_late midpt gauge x p bs le
        (IsWithin-lower (p + 1) (b + 1) gauge bs (omega arith) h.2))
]

windows_missing :
    (midpt gauge x low : ℕ) (bs : List ℕ)
    → IsWithin low gauge bs
    → ((h : ℕ) → contains h bs ≡ true → midpt ≤ h → x < h)
    → covers (all_windows (range midpt gauge bs ++ gauge ∷ [])) x ≡ false
unfolding all_windows windows range contains
windows_missing midpt gauge x low [] h late = refl
windows_missing midpt gauge x low (b ∷ bs) h late = elim (Bool-cases (leb midpt b && ltb b gauge)) [
  | inl kept ↦
      rw kept (windows_late midpt gauge x b bs (ground (arith, late b, ==_refl b, kept)) h.2)
  | inr dropped ↦
      rw dropped (windows_missing midpt gauge x (b + 1) bs h.2 (λ k e. late k (ground (arith, e))))
]

-- The right part of a split slice loses identifiers: with a hole below the split point, `iter_chunks`
-- covers no identifier from the split point up to the next hole, though these are allocated.
pub iter_chunks_loses :
    (gauge first midpt x : ℕ) (rest : List ℕ)
    → IsWithin first_id gauge (first ∷ rest)
    → first < midpt
    → midpt ≤ x
    → x < gauge
    → ((h : ℕ) → contains h (first ∷ rest) ≡ true → midpt ≤ h → x < h)
    → let s : Snapshot = record { gauge = gauge; recyclable = first ∷ rest } in
      (covers (iter_chunks (split_at (as_slice s) midpt).1) x ≡ false)
      × (covers (iter_allocated_chunks s) x ≡ true)
unfolding iter_chunks chunks_from split_at as_slice
iter_chunks_loses gauge first midpt x rest h below from lt late =
    let s : Snapshot = record { gauge = gauge; recyclable = first ∷ rest } in
    (
      covers_filter
            (record { start = midpt; end = first }
              ∷ all_windows (range midpt gauge (first ∷ rest) ++ gauge ∷ []))
            x
          ∙ ground (arith, windows_missing midpt gauge x first_id (first ∷ rest) h late),
      covers-iter_allocated_chunks s x h
          ∙ ground (arith, Bool-cases (contains x (first ∷ rest)), late x, h),
    )
