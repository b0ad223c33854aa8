-- ===== src/Entity/Recycling/Listing.antt =====
-- The snapshot taken after a flush.
use dynec.Common.{
  ℕ, ◌+◌, ◌<◌, ◌≤◌, ◌≡◌, ◌≢◌, refl, sym, ap, ◌∙◌, true, false, List, [], ◌∷◌, arith, ◌==◌, ltb, ok,
  sum_of, length,
}
use dynec.Common.OrdSet.{contains, IsOrdered, Above}
use dynec.Common.Bags.{tally, tally_nil}
use dynec.Entity.Raw.{load}
use dynec.Entity.Snapshot.{Snapshot, first_id, iter_allocated_chunks, covers}
use dynec.Entity.Snapshot.Gaps.{IsWithin, covers-iter_allocated_chunks}
use dynec.Entity.Recycler.{Recycler}
use dynec.Entity.Recycler.Laws.{IsRecycler}
use dynec.Entity.Recycling.{Recycling, flush, snapshot}
use dynec.Entity.Recycling.Sound.{free, IsSound, IsSynced}
use dynec.Entity.Recycling.Flush.{flush_lem}

Above-IsWithin :
    (low gauge : ℕ) (s : List ℕ)
    → low < gauge
    → Above low s
    → ((x : ℕ) → contains x s ≡ true → x < gauge)
    → IsWithin (low + 1) gauge s
unfolding contains
Above-IsWithin low gauge [] lt a below = omega (arith, lt)
Above-IsWithin low gauge (y ∷ s) lt a below =
    let inside : y < gauge = below y (ground arith) in
    (
      omega (arith, a.0),
      inside,
      Above-IsWithin y gauge s inside a.1 (λ x m. below x (ground (arith, m))),
    )

IsOrdered-IsWithin :
    (gauge : ℕ) (s : List ℕ)
    → 0 < gauge
    → IsOrdered s
    → ((x : ℕ) → contains x s ≡ true → (first_id ≤ x) × (x < gauge))
    → IsWithin first_id gauge s
unfolding contains
IsOrdered-IsWithin gauge [] pos a below = omega (arith, pos)
IsOrdered-IsWithin gauge (y ∷ s) pos a below =
    let inside : (first_id ≤ y) × (y < gauge) = below y (ground arith) in
    (
      inside.0,
      inside.1,
      Above-IsWithin y gauge s inside.1 a (λ x m. (below x (ground (arith, m))).1),
    )

module _ {R Hint : Type 0} {recycler : Recycler R Hint} (laws : IsRecycler recycler)
    (limit : ℕ) where
  snapshot_lem :
      (live : List ℕ) (s : Recycling R)
      → IsSound laws limit live s
      → IsSynced laws s
      → s.dealloc_queue ≡ []
      → ((x : ℕ) → sum_of (tally x) s.reuse_queue_shards ≡ 0)
      → s.global_gauge ≢ 0
      → (snap : Snapshot) × (snapshot s ≡ ok snap)
        × ((x : ℕ) → covers (iter_allocated_chunks snap) x ≡ ltb 0 (tally x live))
  unfolding snapshot load
  snapshot_lem live s h k empty idle more =
      let none_queued : (x : ℕ) → tally x s.dealloc_queue ≡ 0 =
        λ x. ap (tally x) empty ∙ tally_nil x in
      let unused : s.global_gauge == 0 ≡ false = ground (arith, more) in
      let snap : Snapshot = record { gauge = s.global_gauge; recyclable = s.recyclable } in
      let inside : IsWithin first_id s.global_gauge s.recyclable =
        IsOrdered-IsWithin s.global_gauge s.recyclable (omega (arith, more)) k.ordered
          (λ x m. ground (arith, m, more, k.listed x, idle x, h.accounted x)) in
      (
        snap,
        rw unused refl,
        λ x.
            covers-iter_allocated_chunks snap x inside
            ∙ ground (arith, more, k.listed x, idle x, h.accounted x, none_queued x, h.bounded),
      )

  -- Offline, with at least one shard, on a sound allocator that has an identifier left to issue, whose
  -- set of recyclable identifiers is in step with the reuse queues, and where no identifier is both in a
  -- reuse queue and deallocated: `flush` returns, and the snapshot then taken covers exactly the
  -- identifiers in use.
  pub flush-snapshot :
      (live : List ℕ) (s : Recycling R)
      → IsSound laws limit live s
      → IsSynced laws s
      → ((x : ℕ) → 0 < sum_of (tally x) s.reuse_queue_shards → tally x s.dealloc_queue ≡ 0)
      → s.exposed ≡ false
      → 0 < length s.recycler_shards
      → s.global_gauge ≢ 0
      → (s' : Recycling R) × (flush recycler s ≡ ok s')
        × (snap : Snapshot) × (snapshot s' ≡ ok snap)
        × ((x : ℕ) → covers (iter_allocated_chunks snap) x ≡ ltb 0 (tally x live))
  flush-snapshot live s h k apart offline some_shard more =
      let (s', run, f) = flush_lem laws limit live s h offline some_shard in
      let (snap, taken, same) =
        snapshot_lem live s' f.sound (f.synced k apart) f.emptied f.reusable
          (λ e. more (sym f.gauge ∙ e)) in
      (s', run, snap, taken, same)

  -- Offline, with at least one shard, on a sound allocator: an identifier that was allocated from a
  -- recycler and deallocated again since the last flush is free after `flush`, in one of the recyclers,
  -- yet it is not in the set of recyclable identifiers, so that the next snapshot takes it as in use.
  pub flush_drops :
      (live : List ℕ) (s : Recycling R) (x : ℕ)
      → IsSound laws limit live s
      → IsOrdered s.recyclable
      → s.exposed ≡ false
      → 0 < length s.recycler_shards
      → 0 < sum_of (tally x) s.reuse_queue_shards
      → 0 < tally x s.dealloc_queue
      → (s' : Recycling R) × (flush recycler s ≡ ok s')
        × (tally x live ≡ 0)
        × (free laws s'.recycler_shards x ≡ 1)
        × (contains x s'.recyclable ≡ false)
  flush_drops live s x h v offline some_shard reused freed =
      let (s', run, f) = flush_lem laws limit live s h offline some_shard in
      (
        s',
        run,
        ground (arith, h.accounted x, freed),
        ground (arith, f.moved x, h.accounted x, freed),
        ground (arith, f.listed v x, reused),
      )
