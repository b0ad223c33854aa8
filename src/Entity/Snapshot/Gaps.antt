-- ===== src/Entity/Snapshot/Gaps.antt =====
-- `iter_gaps` yields exactly the allocated identifiers, in increasing disjoint ranges.
use dynec.Common.{
  ℕ, ◌+◌, ◌≤◌, ◌<◌, ◌≡◌, refl, ◌∙◌, false, not, ◌&&◌, List, [], ◌∷◌, arith, leb, ltb,
}
use dynec.Common.OrdSet.{contains}
use dynec.Entity.Snapshot.{
  Range, first_id, initial, breakpoint, gaps, filter_ranges, iter_gaps, covers, Snapshot,
  iter_allocated_chunks,
}

-- Increasing identifiers from `low` on, all below `gauge`.
abbrev pub IsWithin : ℕ → ℕ → List ℕ → Type 0
IsWithin low gauge [] = low ≤ gauge
IsWithin low gauge (b ∷ bs) = (low ≤ b) × (b < gauge) × IsWithin (b + 1) gauge bs

-- Non-empty ranges, each from the end of the one before or later.
abbrev pub IsAscending : ℕ → List Range → Type 0
IsAscending low [] = Unit {0}
IsAscending low (r ∷ rs) = (low ≤ r.start) × (r.start < r.end) × IsAscending r.end rs

pub covers_filter : (rs : List Range) (x : ℕ) → covers (filter_ranges rs) x ≡ covers rs x
unfolding filter_ranges
covers_filter [] x = refl
covers_filter (r ∷ rs) x = ground (arith, covers_filter rs x)

contains_within :
    (low gauge x : ℕ) (bs : List ℕ) → IsWithin low gauge bs → x < low → contains x bs ≡ false
unfolding contains
contains_within low gauge x [] h lt = refl
contains_within low gauge x (b ∷ bs) h lt = ground (arith, contains_within (b + 1) gauge x bs h.2)

-- The holes at and after `low` are left out, the rest up to the gauge is covered.
covers-gaps :
    (gauge p : ℕ) (bs : List ℕ) (x : ℕ)
    → IsWithin (p + 1) gauge bs
    → covers (gaps gauge (breakpoint p) bs) x
      ≡ (leb (p + 1) x && (ltb x gauge && not (contains x bs)))
unfolding gaps contains
covers-gaps gauge p [] x h = ground arith
covers-gaps gauge p (b ∷ bs) x h =
    ground (arith, covers-gaps gauge b bs x h.2, contains_within (b + 1) gauge x bs h.2)

from_start :
    (gauge : ℕ) (bs : List ℕ) (x : ℕ)
    → IsWithin first_id gauge bs
    → covers (gaps gauge initial bs) x ≡ (leb first_id x && (ltb x gauge && not (contains x bs)))
unfolding gaps contains
from_start gauge [] x h = ground arith
from_start gauge (b ∷ bs) x h =
    ground (arith, covers-gaps gauge b bs x h.2, contains_within (b + 1) gauge x bs h.2)

IsAscending-lower : (a b : ℕ) (rs : List Range) → a ≤ b → IsAscending b rs → IsAscending a rs
IsAscending-lower a b [] le h = tt
IsAscending-lower a b (r ∷ rs) le h = (omega arith, h.1, h.2)

ascending_gaps :
    (gauge p : ℕ) (bs : List ℕ)
    → IsWithin (p + 1) gauge bs
    → IsAscending (p + 1) (filter_ranges (gaps gauge (breakpoint p) bs))
unfolding gaps filter_ranges
ascending_gaps gauge p [] h = ground arith
ascending_gaps gauge p (b ∷ bs) h =
    let rest = filter_ranges (gaps gauge (breakpoint b) bs) in
    let ih : IsAscending (b + 1) rest = ascending_gaps gauge b bs h.2 in
    ground (
      arith,
      IsAscending-lower b (b + 1) rest (omega arith) ih,
      IsAscending-lower (p + 1) (b + 1) rest (omega arith) ih,
    )

start :
    (gauge : ℕ) (bs : List ℕ)
    → IsWithin first_id gauge bs
    → IsAscending first_id (iter_gaps gauge bs)
unfolding iter_gaps gaps filter_ranges
start gauge [] h = ground arith
start gauge (b ∷ bs) h =
    let rest = filter_ranges (gaps gauge (breakpoint b) bs) in
    let ih : IsAscending (b + 1) rest = ascending_gaps gauge b bs h.2 in
    ground (
      arith,
      IsAscending-lower b (b + 1) rest (omega arith) ih,
      IsAscending-lower first_id (b + 1) rest (omega arith) ih,
    )

-- The ranges of `iter_allocated_chunks` cover exactly the identifiers below the gauge that are not
-- recyclable, when the recyclable ones are in increasing order and below the gauge.
pub covers-iter_allocated_chunks :
    (s : Snapshot) (x : ℕ)
    → IsWithin first_id s.gauge s.recyclable
    → covers (iter_allocated_chunks s) x
      ≡ (leb first_id x && (ltb x s.gauge && not (contains x s.recyclable)))
unfolding iter_allocated_chunks
covers-iter_allocated_chunks s x h = covers_filter _ x ∙ from_start s.gauge s.recyclable x h

-- When the recyclable identifiers are in increasing order and below the gauge, the ranges of
-- `iter_allocated_chunks` are not empty, do not overlap, and come in increasing order.
pub iter_allocated_chunks-IsAscending :
    (s : Snapshot)
    → IsWithin first_id s.gauge s.recyclable
    → IsAscending first_id (iter_allocated_chunks s)
unfolding iter_allocated_chunks
iter_allocated_chunks-IsAscending s h = start s.gauge s.recyclable h
