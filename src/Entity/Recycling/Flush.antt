-- ===== src/Entity/Recycling/Flush.antt =====
-- What `flush` does to the recyclers, the queues and the set of recyclable identifiers.
pub mod Listed
use mathlib.Core.List.{map}
use dynec.Common.{
  ℕ, zero, suc, ◌+◌, ◌<◌, ◌≤◌, ◌≡◌, refl, sym, ap, ◌∙◌, Bool, true, false, not, ◌&&◌, ◌||◌, List,
  [], ◌∷◌, ◌++◌, arith, ltb, if◌then◌else◌, Outcome, ok, ◌>>=◌, All, subst, sum_of, length,
  length-append,
}
use dynec.Common.OrdSet.{contains, IsOrdered}
use dynec.Common.Bags.{tally, tally_nil}
use dynec.Entity.Distribute.{distribute_sorted}
use dynec.Entity.Distribute.Scan.{sum}
use dynec.Entity.Distribute.Even.{IsEven, distribute_sorted_lem}
use dynec.Entity.Snapshot.{Snapshot, first_id, iter_allocated_chunks, covers}
use dynec.Entity.Snapshot.Gaps.{IsWithin, covers-iter_allocated_chunks}
use dynec.Entity.Recycler.{Recycler, insert_all}
use dynec.Entity.Recycler.Laws.{IsRecycler, insert_all-IsOrdered}
use dynec.Entity.Recycling.{
  Recycling, len_at, flush, fill, insert_by, sort_by_key, positions, drain, snapshot,
}
use dynec.Entity.Recycling.Sound.{issued, free, IsSound, IsSynced}
use dynec.Entity.Recycling.Fill.{
  tally-sort_by_key, IsSortedFrom-sort_by_key, tally-positions, IsEven-Grows, IsFilled, fill_lem,
}
use dynec.Entity.Recycling.Flush.Listed.{listed_lem, drain-IsOrdered}

length-insert_by :
    (key : ℕ → ℕ) (p : ℕ) (qs : List ℕ) → length (insert_by key p qs) ≡ suc (length qs)
unfolding insert_by
length-insert_by key p [] = refl
length-insert_by key p (q ∷ qs) = ground (arith, length-insert_by key p qs)

length-sort_by_key : (key : ℕ → ℕ) (ps : List ℕ) → length (sort_by_key key ps) ≡ length ps
unfolding sort_by_key
length-sort_by_key key [] = refl
length-sort_by_key key (p ∷ ps) =
    omega (arith, length-insert_by key p (sort_by_key key ps), length-sort_by_key key ps)

length-positions : (n : ℕ) → length (positions n) ≡ n
unfolding positions
length-positions zero = refl
length-positions (suc n) = omega (arith, length-append (positions n) (n ∷ []), length-positions n)

length-map : {A B : Type 0} (f : A → B) (xs : List A) → length (map f xs) ≡ length xs
length-map f [] = refl
length-map f (x ∷ xs) = ap suc (length-map f xs)

sum-map : (f : ℕ → ℕ) (xs : List ℕ) → sum (map f xs) ≡ sum_of f xs
unfolding sum sum_of
sum-map f [] = refl
sum-map f (x ∷ xs) = omega (arith, sum-map f xs)

length-IsEven : (t : ℕ) (xs ys : List ℕ) → IsEven t xs ys → length xs ≡ length ys
length-IsEven t [] [] h = refl
length-IsEven t [] (y ∷ ys) h = absurd h
length-IsEven t (x ∷ xs) [] h = absurd h
length-IsEven t (x ∷ xs) (y ∷ ys) h = ap suc (length-IsEven t xs ys h.1)

no_queues : (x : ℕ) (queues : List (List ℕ)) → sum_of (tally x) (map (λ _. []) queues) ≡ 0
unfolding sum_of
no_queues x [] = refl
no_queues x (q ∷ queues) = omega (arith, tally_nil x, no_queues x queues)

module _ {R Hint : Type 0} {recycler : Recycler R Hint} (laws : IsRecycler recycler)
    (limit : ℕ) where
  -- Everything queued is in the recyclers, and nothing is left in a queue.
  pub record IsFlushed (live : List ℕ) (s s' : Recycling R) : Type 0 where
    pub sound : IsSound laws limit live s'
    pub unmarked : s'.flush_mark ≡ false
    pub gauge : s'.global_gauge ≡ s.global_gauge
    pub emptied : s'.dealloc_queue ≡ []
    pub offline : s'.exposed ≡ false
    pub moved :
        (x : ℕ)
        → free laws s'.recycler_shards x ≡ free laws s.recycler_shards x + tally x s.dealloc_queue
    pub reusable : (x : ℕ) → sum_of (tally x) s'.reuse_queue_shards ≡ 0
    pub listed :
        IsOrdered s.recyclable
        → (x : ℕ)
        → contains x s'.recyclable ≡ (
            not (ltb 0 (sum_of (tally x) s.reuse_queue_shards))
            && (ltb 0 (tally x s.dealloc_queue) || contains x s.recyclable))
    pub synced :
        IsSynced laws s
        → ((x : ℕ) → 0 < sum_of (tally x) s.reuse_queue_shards → tally x s.dealloc_queue ≡ 0)
        → IsSynced laws s'

  -- The shards from the one with the fewest identifiers on.
  abbrev shard_order : Recycling R → List ℕ
  shard_order s =
      sort_by_key (len_at recycler s.recycler_shards) (positions (length s.recycler_shards))

  filled_lem :
      (live : List ℕ) (s : Recycling R)
      → IsSound laws limit live s
      → 0 < length s.recycler_shards
      → (targets : List ℕ) × (shards' : List R) × (distribute_sorted
            (map (len_at recycler s.recycler_shards) (shard_order s))
            (length s.dealloc_queue)
          ≡ ok targets)
        × (fill recycler (shard_order s) targets s.dealloc_queue s.recycler_shards ≡ ok shards')
        × IsFilled laws s.dealloc_queue s.recycler_shards shards'
  filled_lem live s h some_shard =
      let key : ℕ → ℕ = len_at recycler s.recycler_shards in
      let all : List ℕ = positions (length s.recycler_shards) in
      let order : List ℕ = sort_by_key key all in
      let size : length (map key order) ≡ length s.recycler_shards =
        length-map key order
        ∙ length-sort_by_key key all
        ∙ length-positions (length s.recycler_shards) in
      let (targets, e, total, (t, even)) =
        distribute_sorted_lem (map key order) (length s.dealloc_queue)
          (omega (arith, some_shard, size)) (IsSortedFrom-sort_by_key key all) in
      let known : (p : ℕ) → tally p order ≡ (if ltb p (length s.recycler_shards) then 1 else 0) =
        λ p. tally-sort_by_key key p all ∙ tally-positions (length s.recycler_shards) p in
      let (shards', run, filled) =
        fill_lem laws order targets s.dealloc_queue s.recycler_shards (λ p. ground (arith, known p))
          (λ p m. ground (arith, m, known p))
          (IsEven-Grows laws s.recycler_shards t order targets even)
          (omega (arith, total, sum-map key order))
          (omega (arith, length-map key order, length-IsEven t (map key order) targets even))
          h.valid (λ x. ground (arith, h.accounted x)) in
      (targets, shards', e, run, filled)

  flushed :
      (live : List ℕ) (s : Recycling R) (shards' : List R)
      → IsSound laws limit live s
      → s.exposed ≡ false
      → IsFilled laws s.dealloc_queue s.recycler_shards shards'
      → IsFlushed live s (record s {
        flush_mark = false;
        recyclable = drain s.reuse_queue_shards (insert_all s.dealloc_queue s.recyclable);
        recycler_shards = shards';
        dealloc_queue = [];
        reuse_queue_shards = map (λ _. []) s.reuse_queue_shards;
      })
  flushed live s shards' h offline filled = record {
    sound = record {
      valid = filled.valid;
      accounted = λ x. omega (arith, h.accounted x, filled.filled x, tally_nil x);
      bounded = h.bounded;
      queues =
          omega (arith, length-map (λ _. []) s.reuse_queue_shards, h.queues, filled.same_length);
    };
    unmarked = refl;
    gauge = refl;
    emptied = refl;
    offline = offline;
    moved = filled.filled;
    reusable = λ x. no_queues x s.reuse_queue_shards;
    listed = λ v x. listed_lem x s.dealloc_queue s.reuse_queue_shards s.recyclable v;
    synced = λ k apart. record {
      ordered =
          drain-IsOrdered s.reuse_queue_shards (insert_all s.dealloc_queue s.recyclable)
            (insert_all-IsOrdered s.dealloc_queue s.recyclable k.ordered);
      listed = λ x. ground (
        arith,
        listed_lem x s.dealloc_queue s.reuse_queue_shards s.recyclable k.ordered,
        no_queues x s.reuse_queue_shards,
        filled.filled x,
        k.listed x,
        k.apart x,
        apart x,
      );
      apart = λ x pos. absurd (omega (arith, pos, no_queues x s.reuse_queue_shards));
    };
  }

  -- Offline, with at least one shard, `flush` of a sound allocator returns a sound allocator with the
  -- same identifiers in use: the deallocated identifiers are in the recyclers, and the queues are
  -- empty. If the set of recyclable identifiers was in step with the reuse queues, and no identifier is
  -- both in a reuse queue and deallocated, the set now has the identifiers in the recyclers.
  pub flush_lem :
      (live : List ℕ) (s : Recycling R)
      → IsSound laws limit live s
      → s.exposed ≡ false
      → 0 < length s.recycler_shards
      → (s' : Recycling R) × (flush recycler s ≡ ok s') × IsFlushed live s s'
  unfolding flush
  flush_lem live s h offline some_shard =
      let (targets, shards', e, run, filled) = filled_lem live s h some_shard in
      let s' : Recycling R = record s {
        flush_mark = false;
        recyclable = drain s.reuse_queue_shards (insert_all s.dealloc_queue s.recyclable);
        recycler_shards = shards';
        dealloc_queue = [];
        reuse_queue_shards = map (λ _. []) s.reuse_queue_shards;
      } in
      (s', rw (offline, e, run) refl, flushed live s shards' h offline filled)
