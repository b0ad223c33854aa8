-- ===== src/Entity/Recycling/Examples.antt =====
-- The theorems on the recycling allocator at concrete states.
use dynec.Common.{ℕ, ◌<◌, ◌≤◌, ◌≡◌, refl, true, false, some, List, [], ◌∷◌, arith, ltb, ok, sum_of}
use dynec.Common.OrdSet.{contains}
use dynec.Common.Bags.{tally}
use dynec.Entity.Snapshot.{Snapshot, iter_allocated_chunks, covers}
use dynec.Common.OrdSet.{remove}
use dynec.Entity.Recycler.{vec_recycler, btree_recycler, btree_poll}
use dynec.Entity.Recycler.Near.{distance, btree_poll-nearest}
use dynec.Entity.Recycler.Laws.{vec_recycler-IsRecycler, btree_recycler-IsRecycler}
use dynec.Entity.Recycling.{Recycling, allocate, flush, snapshot}
use dynec.Entity.Recycling.Sound.{free, IsSound, IsSynced}
use dynec.Entity.Recycling.Allocate.{Allots, allocate_lem}
use dynec.Entity.Recycling.Flush.{IsFlushed, flush_lem}
use dynec.Entity.Recycling.Listing.{flush-snapshot, flush_drops}

-- Identifiers 1 and 4 are in use, 2 is in the first shard, 3 and 5 are deallocated.
abbrev busy : Recycling (List ℕ)
busy = record {
  flush_mark = true;
  global_gauge = 6;
  recyclable = 1 ∷ 2 ∷ [];
  recycler_shards = (2 ∷ []) ∷ [] ∷ [];
  dealloc_queue = 3 ∷ 5 ∷ [];
  reuse_queue_shards = [] ∷ (1 ∷ []) ∷ [];
  exposed = false;
}

abbrev in_use : List ℕ
in_use = 1 ∷ 4 ∷ []

busy-IsSound : IsSound vec_recycler-IsRecycler 16 in_use busy
unfolding tally sum_of
busy-IsSound = record {
  valid = (tt, (tt, tt));
  accounted = λ x. ground arith;
  bounded = omega arith;
  queues = refl;
}

busy_btree-IsSound : IsSound btree_recycler-IsRecycler 16 in_use busy
unfolding tally sum_of
busy_btree-IsSound = record {
  valid = (tt, (tt, tt));
  accounted = λ x. ground arith;
  bounded = omega arith;
  queues = refl;
}

busy-IsSynced : IsSynced btree_recycler-IsRecycler busy
unfolding tally sum_of contains
busy-IsSynced = record {
  ordered = (omega arith, tt);
  listed = λ x. ground arith;
  apart = λ x pos. ground (arith, pos);
}

busy_apart : (x : ℕ) → 0 < sum_of (tally x) busy.reuse_queue_shards → tally x busy.dealloc_queue ≡ 0
unfolding tally sum_of
busy_apart x pos = ground (arith, pos)

allocate_lem_example :
    Allots btree_recycler-IsRecycler 16 in_use busy (allocate btree_recycler 16 0 (some 3) busy)
allocate_lem_example =
    allocate_lem btree_recycler-IsRecycler 16 in_use busy 0 (some 3) busy_btree-IsSound refl
      (omega arith)

flush_lem_example :
    (s' : Recycling (List ℕ)) × (flush vec_recycler busy ≡ ok s')
    × IsFlushed vec_recycler-IsRecycler 16 in_use busy s'
flush_lem_example = flush_lem vec_recycler-IsRecycler 16 in_use busy busy-IsSound refl (omega arith)

flush-snapshot_example :
    (s' : Recycling (List ℕ)) × (flush btree_recycler busy ≡ ok s')
    × (snap : Snapshot) × (snapshot s' ≡ ok snap)
    × ((x : ℕ) → covers (iter_allocated_chunks snap) x ≡ ltb 0 (tally x in_use))
flush-snapshot_example =
    flush-snapshot btree_recycler-IsRecycler 16 in_use busy busy_btree-IsSound busy-IsSynced
      busy_apart refl (omega arith) (λ e. omega (arith, e))

-- Identifier 1 was allocated from the second shard and deallocated again.
abbrev bounced : Recycling (List ℕ)
bounced = record {
  flush_mark = true;
  global_gauge = 3;
  recyclable = 1 ∷ [];
  recycler_shards = [] ∷ [] ∷ [];
  dealloc_queue = 1 ∷ [];
  reuse_queue_shards = [] ∷ (1 ∷ []) ∷ [];
  exposed = false;
}

bounced-IsSound : IsSound vec_recycler-IsRecycler 16 (2 ∷ []) bounced
unfolding tally sum_of
bounced-IsSound = record {
  valid = (tt, (tt, tt));
  accounted = λ x. ground arith;
  bounded = omega arith;
  queues = refl;
}

bounced_reused : 0 < sum_of (tally 1) bounced.reuse_queue_shards
unfolding tally sum_of
bounced_reused = omega arith

bounced_freed : 0 < tally 1 bounced.dealloc_queue
unfolding tally
bounced_freed = omega arith

flush_drops_example :
    (s' : Recycling (List ℕ)) × (flush vec_recycler bounced ≡ ok s')
    × (tally 1 (2 ∷ []) ≡ 0)
    × (free vec_recycler-IsRecycler s'.recycler_shards 1 ≡ 1)
    × (contains 1 s'.recyclable ≡ false)
flush_drops_example =
    flush_drops vec_recycler-IsRecycler 16 (2 ∷ []) bounced 1 bounced-IsSound tt refl (omega arith)
      bounced_reused bounced_freed

nine_in : contains 9 (2 ∷ 6 ∷ 9 ∷ []) ≡ true
unfolding contains
nine_in = refl

btree_poll-nearest_example :
    (id : ℕ) × (btree_poll (some 7) (2 ∷ 6 ∷ 9 ∷ []) ≡ ok (some id, remove id (2 ∷ 6 ∷ 9 ∷ [])))
    × (contains id (2 ∷ 6 ∷ 9 ∷ []) ≡ true)
    × (distance 7 id ≤ distance 7 9)
btree_poll-nearest_example =
    btree_poll-nearest 7 (2 ∷ 6 ∷ 9 ∷ []) 9 (omega arith, (omega arith, tt)) nine_in
