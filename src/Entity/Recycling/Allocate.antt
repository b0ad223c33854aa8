-- ===== src/Entity/Recycling/Allocate.antt =====
-- `allocate` of `src/entity/ealloc/recycling.rs`.
use dynec.Common.{
  ℕ, ◌+◌, ◌%◌, ◌<◌, ◌≡◌, ◌≢◌, ◌⊎◌, refl, sym, false, Option, none, some, List, [], ◌∷◌, ◌++◌, arith,
  ◌==◌, if◌then◌else◌, Bool-cases, inl, inr, Outcome, ok, panic, Panic, ◌>>=◌, subst, length,
  get_elem?, set, length-set, get_elem?_within,
}
use native.Mathlib.Nat.{mod-eq_of_lt, mod-eq-sub-mod}
use dynec.Common.Bags.{tally, tally_nil, tally-cons, tally-append}
use dynec.Entity.Raw.{fetch_add}
use dynec.Entity.Recycler.{Recycler}
use dynec.Entity.Recycler.Laws.{IsRecycler, given}
use dynec.Entity.Recycling.{Recycling, allocate, on_shard, shard_allocate, after_poll, put_back}
use dynec.Entity.Recycling.Sound.{IsSound, IsSynced, sum_of-set, All-set, All-get_elem?}

-- The counter gives out the next identifier, and is zero after the last.
pub fetch_add_lem :
    (limit gauge : ℕ)
    → gauge ≢ 0
    → gauge < limit
    → fetch_add limit gauge 1 ≡ ok (gauge, if gauge + 1 == limit then 0 else gauge + 1)
unfolding fetch_add
fetch_add_lem limit gauge pos lt = elim (Bool-cases (gauge + 1 == limit)) [
  | inl last ↦
      let none_left : (gauge + 1) % limit ≡ 0 = grind (arith, mod-eq-sub-mod, mod-eq_of_lt) in
      let used : gauge == 0 ≡ false = ground arith in rw (last, used, none_left) refl
  | inr more ↦
      let next : (gauge + 1) % limit ≡ gauge + 1 = mod-eq_of_lt (ground (arith, more)) in
      let used : gauge == 0 ≡ false = ground arith in rw (more, used, next) refl
]

pub fetch_add_zero :
    (limit gauge : ℕ) → gauge ≡ 0 → fetch_add limit gauge 1 ≡ panic Panic.integer_overflow
unfolding fetch_add
fetch_add_zero limit gauge e = rw e refl

module _ {R Hint : Type 0} {recycler : Recycler R Hint} (laws : IsRecycler recycler)
    (limit : ℕ) where
  -- What an allocation from `s` may do.
  pub record IsAllocated (live : List ℕ) (s : Recycling R) (id : ℕ) (s' : Recycling R)
      : Type 0 where
    pub fresh : tally id live ≡ 0
    pub sound : IsSound laws limit (id ∷ live) s'
    pub synced : IsSynced laws s → IsSynced laws s'

  polled-IsAllocated :
      (live : List ℕ) (s : Recycling R) (shard_id id : ℕ) (r r' : R) (queue : List ℕ)
      → IsSound laws limit live s
      → get_elem? s.recycler_shards shard_id ≡ some r
      → get_elem? s.reuse_queue_shards shard_id ≡ some queue
      → laws.IsValid r'
      → ((x : ℕ) → laws.holds x r ≡ laws.holds x r' + given x (some id))
      → IsAllocated live s id (record s {
        recycler_shards = set s.recycler_shards shard_id r';
        reuse_queue_shards = set s.reuse_queue_shards shard_id (queue ++ id ∷ []);
      })
  polled-IsAllocated live s shard_id id r r' queue h er eq v moved =
      let shards = λ (x : ℕ). sum_of-set (laws.holds x) s.recycler_shards shard_id r r' er in
      let queues =
        λ (x : ℕ). sum_of-set (tally x) s.reuse_queue_shards shard_id queue (queue ++ id ∷ []) eq in
      record {
        fresh = ground (arith, h.accounted id, shards id, moved id);
        sound = record {
          valid = All-set laws.IsValid s.recycler_shards shard_id r' h.valid v;
          accounted = λ x. ground (arith, h.accounted x, shards x, moved x, tally-cons x id live);
          bounded = h.bounded;
          queues = omega (
            arith,
            h.queues,
            length-set s.recycler_shards shard_id r',
            length-set s.reuse_queue_shards shard_id (queue ++ id ∷ []),
          );
        };
        synced = λ k. record {
          ordered = k.ordered;
          listed = λ x. ground (
            arith,
            k.listed x,
            shards x,
            queues x,
            moved x,
            tally-append x queue (id ∷ []),
            tally-cons x id [],
            tally_nil x,
          );
          apart = λ x pos. ground (
            arith,
            pos,
            k.apart x,
            h.accounted x,
            shards x,
            queues x,
            moved x,
            tally-append x queue (id ∷ []),
            tally-cons x id [],
            tally_nil x,
          );
        };
      }

  issued-IsAllocated :
      (live : List ℕ) (s : Recycling R) (shard_id : ℕ) (r r' : R) (queue : List ℕ)
      → IsSound laws limit live s
      → get_elem? s.recycler_shards shard_id ≡ some r
      → get_elem? s.reuse_queue_shards shard_id ≡ some queue
      → laws.IsValid r'
      → ((x : ℕ) → laws.holds x r ≡ laws.holds x r' + given x none)
      → s.global_gauge ≢ 0
      → IsAllocated live s s.global_gauge (record s {
        global_gauge = if s.global_gauge + 1 == limit then 0 else s.global_gauge + 1;
        recycler_shards = set s.recycler_shards shard_id r';
        reuse_queue_shards = set s.reuse_queue_shards shard_id queue;
      })
  issued-IsAllocated live s shard_id r r' queue h er eq v moved pos =
      let shards = λ (x : ℕ). sum_of-set (laws.holds x) s.recycler_shards shard_id r r' er in
      let queues = λ (x : ℕ). sum_of-set (tally x) s.reuse_queue_shards shard_id queue queue eq in
      record {
        fresh = ground (arith, h.accounted s.global_gauge);
        sound = record {
          valid = All-set laws.IsValid s.recycler_shards shard_id r' h.valid v;
          accounted = λ x. ground (
            arith,
            h.accounted x,
            h.bounded,
            shards x,
            moved x,
            tally-cons x s.global_gauge live,
          );
          bounded = ground (arith, h.bounded);
          queues = omega (
            arith,
            h.queues,
            length-set s.recycler_shards shard_id r',
            length-set s.reuse_queue_shards shard_id queue,
          );
        };
        synced = λ k. record {
          ordered = k.ordered;
          listed = λ x. ground (arith, k.listed x, shards x, queues x, moved x);
          apart = λ x p. ground (arith, p, k.apart x, shards x, queues x, moved x);
        };
      }

  -- An identifier that is not in use and a sound allocator, or the overflow of the identifiers.
  abbrev pub Allots : List ℕ → Recycling R → Outcome (ℕ × Recycling R) → Type 0
  Allots live s out =
      ((id : ℕ) × (s' : Recycling R) × (out ≡ ok (id, s')) × IsAllocated live s id s')
      ⊎ ((out ≡ panic Panic.integer_overflow) × (s.global_gauge ≡ 0))

  after_poll-Allots :
      (live : List ℕ) (s : Recycling R) (shard_id : ℕ) (r r' : R) (queue : List ℕ) (o : Option ℕ)
      → IsSound laws limit live s
      → get_elem? s.recycler_shards shard_id ≡ some r
      → get_elem? s.reuse_queue_shards shard_id ≡ some queue
      → laws.IsValid r'
      → ((x : ℕ) → laws.holds x r ≡ laws.holds x r' + given x o)
      → Allots live s (
          after_poll recycler limit s.global_gauge r' queue o >>= λ a.
          ok (put_back recycler shard_id s a))
  unfolding after_poll
  after_poll-Allots live s shard_id r r' queue (some id) h er eq v moved =
      inl (id, _, refl, polled-IsAllocated live s shard_id id r r' queue h er eq v moved)
  after_poll-Allots live s shard_id r r' queue none h er eq v moved =
      elim (Bool-cases (s.global_gauge == 0)) [
        | inl used ↦
            inr (ground (arith, used, fetch_add_zero limit s.global_gauge), ground (arith, used))
        | inr more ↦
            let pos : s.global_gauge ≢ 0 = ground (arith, more) in
            inl (
              s.global_gauge,
              _,
              rw (fetch_add_lem limit s.global_gauge pos h.bounded) refl,
              issued-IsAllocated live s shard_id r r' queue h er eq v moved pos,
            )
      ]

  on_shard-Allots :
      (live : List ℕ) (s : Recycling R) (shard_id : ℕ) (hint : Hint)
      → IsSound laws limit live s
      → shard_id < length s.recycler_shards
      → Allots live s (on_shard recycler (shard_allocate recycler limit hint) shard_id s)
  unfolding on_shard shard_allocate
  on_shard-Allots live s shard_id hint h known =
      let (r, er) = get_elem?_within s.recycler_shards shard_id known in
      let (queue, eq) =
        get_elem?_within s.reuse_queue_shards shard_id (omega (arith, known, h.queues)) in
      let (o, r', e, v, p) =
        laws.poll_lem hint r (All-get_elem? laws.IsValid s.recycler_shards shard_id r h.valid er) in
      rw (er, eq, e) (after_poll-Allots live s shard_id r r' queue o h er eq v p.moved)

  -- Offline, on a sound allocator and one of its shards, `allocate` returns an identifier that is not in
  -- use, and leaves a sound allocator with that one in use as well; where the set of recyclable
  -- identifiers was in step with the reuse queues, it stays so. It fails, by the overflow of the
  -- identifiers, only when the gauge is zero, all below the limit having been issued.
  pub allocate_lem :
      (live : List ℕ) (s : Recycling R) (shard_id : ℕ) (hint : Hint)
      → IsSound laws limit live s
      → s.exposed ≡ false
      → shard_id < length s.recycler_shards
      → Allots live s (allocate recycler limit shard_id hint s)
  unfolding allocate
  allocate_lem live s shard_id hint h offline known =
      let inside : allocate recycler limit shard_id hint s
          ≡ on_shard recycler (shard_allocate recycler limit hint) shard_id s =
        rw offline refl in
      subst (Allots live s) (sym inside) (on_shard-Allots live s shard_id hint h known)
