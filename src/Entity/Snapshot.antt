-- ===== src/Entity/Snapshot.antt =====
-- Snapshots of allocated identifiers: `iter_gaps` of `src/entity/ealloc.rs` and
-- `src/entity/ealloc/snapshot.rs`. Identifiers are numbers from 1 on, and do not wrap here.
pub mod Gaps
pub mod Split
use dynec.Common.{
  ℕ, ◌+◌, ◌-◌, ◌/◌, ◌≤◌, ◌<◌, ◌≡◌, Bool, true, false, not, ◌&&◌, ◌||◌, Option, none, some, List, [],
  ◌∷◌, ◌++◌, ◌==◌, leb, ltb, if◌then◌else◌,
}

-- `start..end`
pub record Range : Type 0 where
  pub start : ℕ
  pub end : ℕ

-- The smallest identifier, `E::new()`.
abbrev pub first_id : ℕ
first_id = 1

pub data Previous : Type 0 where
  initial : Previous
  breakpoint : ℕ → Previous
  finalized : Previous

-- The ranges that `next` gives from a state of the iterator on.
unfoldable pub gaps : ℕ → Previous → List ℕ → List Range
gaps gauge finalized bs = []
gaps gauge initial [] = record { start = first_id; end = gauge } ∷ []
gaps gauge initial (b ∷ bs) = record { start = first_id; end = b } ∷ gaps gauge (breakpoint b) bs
gaps gauge (breakpoint p) [] = record { start = p + 1; end = gauge } ∷ []
gaps gauge (breakpoint p) (b ∷ bs) =
    record { start = p + 1; end = b } ∷ gaps gauge (breakpoint b) bs

-- `filter(|range| range.start != range.end)`
unfoldable pub filter_ranges : List Range → List Range
filter_ranges [] = []
filter_ranges (r ∷ rs) = if not (r.start == r.end) then r ∷ filter_ranges rs else filter_ranges rs

unfoldable pub iter_gaps : ℕ → List ℕ → List Range
unfolding gaps filter_ranges
iter_gaps gauge breakpoints = filter_ranges (gaps gauge initial breakpoints)

pub record Snapshot : Type 0 where
  pub gauge : ℕ
  pub recyclable : List ℕ

unfoldable pub iter_allocated_chunks : Snapshot → List Range
unfolding iter_gaps
iter_allocated_chunks s = iter_gaps s.gauge s.recyclable

pub record Slice : Type 0 where
  pub start : ℕ
  pub end : ℕ
  pub recyclable : List ℕ

unfoldable pub as_slice : Snapshot → Slice
as_slice s = record { start = first_id; end = s.gauge; recyclable = s.recyclable }

unfoldable pub midpoint_for_split : Slice → Option ℕ
midpoint_for_split s =
    let midpt = (s.start + s.end) / 2 in if leb 8 (s.end - midpt) then some midpt else none

unfoldable pub split_at : Slice → ℕ → Slice × Slice
split_at s midpt = (record s { end = midpt }, record s { start = midpt })

unfoldable pub split : Slice → Slice × Option Slice
unfolding midpoint_for_split split_at
split s = elim (midpoint_for_split s) [
  | none ↦ (s, none)
  | some midpt ↦ ((split_at s midpt).0, some (split_at s midpt).1)
]

-- `recyclable.range(lo..hi)`
unfoldable pub range : ℕ → ℕ → List ℕ → List ℕ
range lo hi [] = []
range lo hi (x ∷ xs) = if leb lo x && ltb x hi then x ∷ range lo hi xs else range lo hi xs

-- `tuple_windows` with the ranges between consecutive values, from `p` on.
unfoldable pub windows : ℕ → List ℕ → List Range
windows p [] = []
windows p (x ∷ xs) = record { start = p + 1; end = x } ∷ windows x xs

unfoldable pub all_windows : List ℕ → List Range
unfolding windows
all_windows [] = []
all_windows (x ∷ xs) = windows x xs

unfoldable pub chunks_from : Slice → List ℕ → List Range
unfolding range all_windows filter_ranges
chunks_from s [] = record { start = s.start; end = s.end } ∷ []
chunks_from s (first ∷ _) = filter_ranges (
    record { start = s.start; end = first }
    ∷ all_windows (range s.start s.end s.recyclable ++ s.end ∷ []))

unfoldable pub iter_chunks : Slice → List Range
unfolding chunks_from
iter_chunks s = chunks_from s s.recyclable

-- Whether an identifier is in one of the ranges.
abbrev pub covers : List Range → ℕ → Bool
covers [] x = false
covers (r ∷ rs) x = (leb r.start x && ltb x r.end) || covers rs x
