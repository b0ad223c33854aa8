-- ===== src/Entity/Recycling.antt =====
-- The recycling allocator of `src/entity/ealloc/recycling.rs`. `exposed` says that shards are out with
-- the worker threads, which hold their `Arc`s; the choice of a shard by the assigner is an argument. Snapshots,
-- which hold the set `recyclable` too, are taken to be dropped before a flush.
pub mod Sound
pub mod Allocate
pub mod Fill
pub mod Flush
pub mod Listing
pub mod Examples
use mathlib.Core.List.{map}
use dynec.Common.{
  ℕ, zero, suc, ◌+◌, ◌-◌, Bool, true, false, Option, none, some, List, [], ◌∷◌, ◌++◌, ltb, leb,
  if◌then◌else◌, Outcome, ok, panic, Panic, ◌>>=◌, expect, length, get_elem?, set, take, drop,
}
use dynec.Common.OrdSet.{remove}
use dynec.Entity.Raw.{fetch_add, load}
use dynec.Entity.Recycler.{Recycler, insert_all}
use dynec.Entity.Distribute.{distribute_sorted}
use dynec.Entity.Snapshot.{Snapshot, first_id}

pub record Recycling (R : Type 0) : Type 0 where
  pub flush_mark : Bool
  pub global_gauge : ℕ
  pub recyclable : List ℕ
  pub recycler_shards : List R
  pub dealloc_queue : List ℕ
  pub reuse_queue_shards : List (List ℕ)
  pub exposed : Bool

-- `(0..n).map(|_| v).collect()`
abbrev pub fill_with {ℓ} : {A : Type ℓ} → ℕ → A → List A
fill_with zero v = []
fill_with (suc n) v = v ∷ fill_with n v

unfoldable pub remove_all : List ℕ → List ℕ → List ℕ
remove_all [] s = s
remove_all (id ∷ ids) s = remove_all ids (remove id s)

-- `queue.drain(..)` of every shard's queue
unfoldable pub drain : List (List ℕ) → List ℕ → List ℕ
unfolding remove_all
drain [] s = s
drain (queue ∷ queues) s = drain queues (remove_all queue s)

-- `sort_by_key`, on the positions of the shards.
unfoldable pub insert_by : (ℕ → ℕ) → ℕ → List ℕ → List ℕ
insert_by key p [] = p ∷ []
insert_by key p (q ∷ qs) = if leb (key p) (key q) then p ∷ q ∷ qs else q ∷ insert_by key p qs

unfoldable pub sort_by_key : (ℕ → ℕ) → List ℕ → List ℕ
unfolding insert_by
sort_by_key key [] = []
sort_by_key key (p ∷ ps) = insert_by key p (sort_by_key key ps)

unfoldable pub positions : ℕ → List ℕ
positions zero = []
positions (suc n) = positions n ++ n ∷ []

-- What an allocation on one shard returns: the identifier, the gauge, the recycler and the queue.
abbrev pub Allocated : Type 0 → Type 0
Allocated R = ℕ × ℕ × R × List ℕ

module _ {R Hint : Type 0} (recycler : Recycler R Hint) where
  abbrev pub len_at : List R → ℕ → ℕ
  len_at shards p = elim (get_elem? shards p) [ none ↦ 0 | some r ↦ recycler.len r ]

  abbrev pub new_with_shard_assigner : ℕ → Recycling R
  new_with_shard_assigner num_shards = record {
    flush_mark = false;
    global_gauge = first_id;
    recyclable = [];
    recycler_shards = fill_with num_shards recycler.empty;
    dealloc_queue = [];
    reuse_queue_shards = fill_with num_shards [];
    exposed = false;
  }

  -- What follows the poll of `RecyclingShard::allocate`, with the push to the queue of the inherent one.
  unfoldable pub after_poll : ℕ → ℕ → R → List ℕ → Option ℕ → Outcome (Allocated R)
  after_poll limit gauge r queue (some id) = ok (id, gauge, r, queue ++ id ∷ [])
  after_poll limit gauge r queue none =
      fetch_add limit gauge 1 >>= λ (id, gauge'). ok (id, gauge', r, queue)

  unfoldable pub shard_allocate : ℕ → Hint → ℕ → R → List ℕ → Outcome (Allocated R)
  unfolding after_poll
  shard_allocate limit hint gauge r queue =
      recycler.poll hint r >>= λ (o, r'). after_poll limit gauge r' queue o

  -- The `allocate` of the trait `Shard`, which leaves the queue alone.
  unfoldable pub after_poll_online : ℕ → ℕ → R → List ℕ → Option ℕ → Outcome (Allocated R)
  after_poll_online limit gauge r queue (some id) = ok (id, gauge, r, queue)
  after_poll_online limit gauge r queue none =
      fetch_add limit gauge 1 >>= λ (id, gauge'). ok (id, gauge', r, queue)

  unfoldable pub shard_allocate_online : ℕ → Hint → ℕ → R → List ℕ → Outcome (Allocated R)
  unfolding after_poll_online
  shard_allocate_online limit hint gauge r queue =
      recycler.poll hint r >>= λ (o, r'). after_poll_online limit gauge r' queue o

  abbrev pub put_back : ℕ → Recycling R → Allocated R → ℕ × Recycling R
  put_back shard_id s (id, gauge, r, queue) = (
    id,
    record s {
      global_gauge = gauge;
      recycler_shards = set s.recycler_shards shard_id r;
      reuse_queue_shards = set s.reuse_queue_shards shard_id queue;
    },
  )

  -- An allocation on the shard at a position.
  unfoldable pub on_shard :
      (ℕ → R → List ℕ → Outcome (Allocated R)) → ℕ → Recycling R → Outcome (ℕ × Recycling R)
  on_shard alloc shard_id s = do
    r ← expect (get_elem? s.recycler_shards shard_id) Panic.index_out_of_bounds
    queue ← expect (get_elem? s.reuse_queue_shards shard_id) Panic.index_out_of_bounds
    allocated ← alloc s.global_gauge r queue
    ok (put_back shard_id s allocated)

  unfoldable pub allocate : ℕ → ℕ → Hint → Recycling R → Outcome (ℕ × Recycling R)
  unfolding on_shard shard_allocate
  allocate limit shard_id hint s =
      if s.exposed
      then panic Panic.shards_not_dropped
      else on_shard (shard_allocate limit hint) shard_id s

  unfoldable pub allocate_online : ℕ → ℕ → Hint → Recycling R → Outcome (ℕ × Recycling R)
  unfolding on_shard shard_allocate_online
  allocate_online limit shard_id hint s = on_shard (shard_allocate_online limit hint) shard_id s

  abbrev pub queue_deallocate : ℕ → Recycling R → Recycling R
  queue_deallocate id s = record s { dealloc_queue = s.dealloc_queue ++ id ∷ [] }

  unfoldable pub fill : List ℕ → List ℕ → List ℕ → List R → Outcome (List R)
  fill [] targets ids shards = ok shards
  fill (p ∷ order) [] ids shards = panic Panic.index_out_of_bounds
  fill (p ∷ order) (target ∷ targets) ids shards =
      expect (get_elem? shards p) Panic.index_out_of_bounds >>= λ r.
      if ltb target (recycler.len r)
      then panic Panic.subtract_overflow
      else if ltb (length ids) (target - recycler.len r)
      then panic Panic.take_out_of_bounds
      else fill order targets (drop (target - recycler.len r) ids)
          (set shards p (recycler.extend (take (target - recycler.len r) ids) r))

  unfoldable pub flush : Recycling R → Outcome (Recycling R)
  unfolding fill drain
  flush s =
      let order = sort_by_key (len_at s.recycler_shards) (positions (length s.recycler_shards)) in
      if s.exposed
      then panic Panic.shards_not_dropped
      else (distribute_sorted (map (len_at s.recycler_shards) order) (length s.dealloc_queue)
          >>= λ targets. fill order targets s.dealloc_queue s.recycler_shards >>= λ shards.
              ok (record s {
                flush_mark = false;
                recyclable = drain s.reuse_queue_shards (insert_all s.dealloc_queue s.recyclable);
                recycler_shards = shards;
                dealloc_queue = [];
                reuse_queue_shards = map (λ _. []) s.reuse_queue_shards;
              }))

  abbrev pub mark_need_flush : Recycling R → Recycling R
  mark_need_flush s = record s { flush_mark = true }

  unfoldable pub flush_if_marked : Recycling R → Outcome (Recycling R)
  unfolding flush
  flush_if_marked s = if s.flush_mark then flush s else ok s

unfoldable pub snapshot : {R : Type 0} → Recycling R → Outcome Snapshot
unfolding load
snapshot s =
    load s.global_gauge >>= λ gauge. ok (record { gauge = gauge; recyclable = s.recyclable })
