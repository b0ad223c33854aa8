-- ===== src/Entity/Examples.antt =====
-- The theorems on shards and snapshots at concrete inputs.
use dynec.Common.{ℕ, ◌+◌, ◌<◌, ◌≤◌, ◌≡◌, true, false, not, ◌&&◌, List, [], ◌∷◌, arith, leb, ltb, ok}
use dynec.Common.OrdSet.{contains}
use dynec.Entity.Distribute.{distribute_sorted}
use dynec.Entity.Distribute.Scan.{sum}
use dynec.Entity.Distribute.Even.{IsEven, distribute_sorted_lem}
use dynec.Entity.Snapshot.{
  Snapshot, first_id, iter_allocated_chunks, as_slice, split_at, iter_chunks, covers,
}
use dynec.Entity.Snapshot.Gaps.{
  IsWithin, IsAscending, covers-iter_allocated_chunks, iter_allocated_chunks-IsAscending,
}
use dynec.Entity.Snapshot.Split.{iter_chunks-as_slice, iter_chunks_loses}
use dynec.Common.{◌≢◌, ◌^◌, none, some, panic, Panic, refl}
use dynec.Entity.Generation.{get}
use dynec.Entity.Generation.Order.{nexts, nexts_order}
use dynec.Entity.Rctrack.{Store, set, remove, get as tracked}
use dynec.Entity.Rctrack.RoundTrip.{remove-set}

abbrev three_shards : List ℕ
three_shards = 1 ∷ 2 ∷ 6 ∷ []

distribute_sorted_lem_example :
    (out : List ℕ) × (distribute_sorted three_shards 4 ≡ ok out)
    × (sum out ≡ sum three_shards + 4)
    × ((t : ℕ) × IsEven t three_shards out)
distribute_sorted_lem_example =
    distribute_sorted_lem three_shards 4 (omega arith)
      (omega arith, (omega arith, (omega arith, tt)))

-- Identifiers 1 to 9, of which 3 and 7 are free.
abbrev two_free : Snapshot
two_free = record { gauge = 10; recyclable = 3 ∷ 7 ∷ [] }

within : IsWithin first_id two_free.gauge two_free.recyclable
within = (omega arith, omega arith, (omega arith, omega arith, omega arith))

covers-iter_allocated_chunks_example :
    covers (iter_allocated_chunks two_free) 5
    ≡ (leb first_id 5 && (ltb 5 two_free.gauge && not (contains 5 two_free.recyclable)))
covers-iter_allocated_chunks_example = covers-iter_allocated_chunks two_free 5 within

iter_allocated_chunks-IsAscending_example : IsAscending first_id (iter_allocated_chunks two_free)
iter_allocated_chunks-IsAscending_example = iter_allocated_chunks-IsAscending two_free within

iter_chunks-as_slice_example :
    covers (iter_chunks (as_slice two_free)) 5 ≡ covers (iter_allocated_chunks two_free) 5
iter_chunks-as_slice_example = iter_chunks-as_slice two_free 5 within

no_hole : (h : ℕ) → contains h (3 ∷ 7 ∷ []) ≡ true → 5 ≤ h → 6 < h
unfolding contains
no_hole h e le = ground (arith, e)

iter_chunks_loses_example :
    (covers (iter_chunks (split_at (as_slice two_free) 5).1) 6 ≡ false)
    × (covers (iter_allocated_chunks two_free) 6 ≡ true)
iter_chunks_loses_example =
    iter_chunks_loses 10 3 5 6 (7 ∷ []) within (omega arith) (omega arith) (omega arith) no_hole

-- The second identifier is at the last generation before the wrap.
abbrev last_used : List ℕ
last_used = 3 ∷ 4294967295 ∷ []

small : get 1 last_used < 2 ^ 32
unfolding get
small = omega arith

nexts_order_example :
    (2 < 2 ^ 32
      → (get 1 (nexts 2 1 last_used) ≢ get 1 last_used)
        × (ltb (get 1 last_used) (get 1 (nexts 2 1 last_used))
            ≡ ltb (get 1 last_used + 2) (2 ^ 32)))
    × (get 1 (nexts (2 ^ 32) 1 last_used) ≡ get 1 last_used)
    × ((j : ℕ) → 1 ≢ j → get j (nexts 2 1 last_used) ≡ get j last_used)
nexts_order_example = nexts_order 2 1 last_used small (omega arith)

abbrev tracking : Store ℕ
tracking = none ∷ some 6 ∷ []

remove-set_example :
    (s' : Store ℕ) × (set 3 8 tracking ≡ ok s')
    × (tracked 3 s' ≡ some 8)
    × (set 3 9 s' ≡ panic Panic.assertion_failed)
    × (s'' : Store ℕ) × (remove 3 s' ≡ ok (8, s''))
    × ((j : ℕ) → tracked j s'' ≡ tracked j tracking)
    × (remove 3 s'' ≡ panic Panic.double_free)
remove-set_example = remove-set 3 8 9 tracking refl
