-- ===== src/Scheduler/Planner/Safety.antt =====
-- What the invariant means for running systems: exclusion, order, progress and completion.
use dynec.Common.{ℕ, zero, suc, ◌<◌, ◌≡◌, false, some, List, arith, ◌⊎◌, inl, inr, Outcome, ok}
use dynec.Scheduler.Defs.{
  Node, send_system, unsend_system, partition, started, completed, count, count_nil,
}
use dynec.Scheduler.Planner.{
  Topology, Planner, StealResult, ready, pending_result, cycle_complete, steal_send, steal_unsend,
  send_pool, unsend_pool,
}
use dynec.Scheduler.Planner.Blocks.{
  deps_of, excl_of, live_weight, dep_weight, excl_weight, dep_blocks, excl_blocks, remaining,
  weigh_member, weigh_zero,
}
use dynec.Scheduler.Planner.Invariant.{IsTopology, IsRanked, Inv, is_pending}
use dynec.Scheduler.Planner.Steal.{is_started}
use dynec.Scheduler.Planner.StealLaws.{Steals, steal_send_lem, steal_unsend_lem}

-- A steal that hands out a system.
abbrev pub Hands : Outcome (StealResult × Planner) → Type 0
Hands out = (i : ℕ) × (q : Planner) × (out ≡ ok (ready i, q))

module _ {t : Topology} {nodes : List Node} (wf : IsTopology t nodes) where
  -- Over a well-formed topology, under the planner's invariant, of two started nodes the first does
  -- not exclude the second.
  pub exclusion_safe :
      (p : Planner) (k n : Node)
      → Inv t nodes p
      → p.wakeup_state k ≡ some started
      → p.wakeup_state n ≡ some started
      → count n (excl_of t k) ≡ 0
  unfolding excl_blocks
  exclusion_safe p k n inv ek en = ground (
    arith,
    inv.balanced.each k,
    inv.pooled.domain k,
    inv.pooled.domain n,
    wf.symmetric k n,
    weigh_member (excl_weight t k) p.wakeup_state n nodes,
    count_nil k,
  )

  -- A system that runs has all nodes that it depends on completed.
  pub dependencies_done :
      (p : Planner) (m k : Node)
      → Inv t nodes p
      → p.wakeup_state k ≡ some started
      → 0 < count m nodes
      → 0 < count k (deps_of t m)
      → p.wakeup_state m ≡ some completed
  unfolding dep_blocks
  dependencies_done p m k inv e known dep = ground (
    arith,
    inv.balanced.each k,
    inv.pooled.domain k,
    inv.pooled.domain m,
    weigh_member (dep_weight t k) p.wakeup_state m nodes,
    count_nil k,
  )

module _ {t : Topology} {nodes : List Node} (wf : IsTopology t nodes) (rank : Node → ℕ)
    (ranked : IsRanked t rank) (p : Planner) (inv : Inv t nodes p) where
  -- A node of rank `b` at most waits for no node, once those below it are completed.
  earlier :
      (n : Node) (b : ℕ)
      → rank n < suc b
      → ((m : Node) → rank m < b → 0 < count m nodes → p.wakeup_state m ≡ some completed)
      → (m : Node) → 0 < count m nodes
      → dep_weight t n (p.wakeup_state m) m ≡ 0
  earlier n b lt below m h = ground (arith, ranked m n, below m)

  -- Where nothing runs and nothing is pending, every node is completed: by induction on the rank.
  settled :
      ((n : Node) → is_started (p.wakeup_state n) ≡ false)
      → ((n : Node) → is_pending (p.wakeup_state n) ≡ false)
      → (b : ℕ) (n : Node) → rank n < b
      → 0 < count n nodes
      → p.wakeup_state n ≡ some completed
  unfolding dep_blocks excl_blocks
  settled idle none_pending zero n lt known = absurd (omega arith)
  settled idle none_pending (suc b) n lt known = ground (
    arith,
    inv.balanced.each n known,
    idle n,
    none_pending n,
    count_nil n,
    weigh_zero (excl_weight t n) p.wakeup_state nodes (λ m h. ground (arith, idle m)),
    weigh_zero (dep_weight t n) p.wakeup_state nodes (earlier n b lt (settled idle none_pending b)),
  )

  -- Over a well-formed topology whose dependencies ascend along a rank, and under the planner's
  -- invariant: when no system remains, every node is completed, partitions included.
  pub all_completed :
      p.remaining_systems ≡ 0 → (n : Node) → 0 < count n nodes → p.wakeup_state n ≡ some completed
  unfolding remaining
  all_completed done n known = settled idle none_pending (suc (rank n)) n (omega arith) known
    where
      live_zero : (m : Node) → 0 < count m nodes → live_weight (p.wakeup_state m) m ≡ 0
      live_zero m h =
          omega (arith, inv.counted, done, weigh_member live_weight p.wakeup_state m nodes)

      idle : (m : Node) → is_started (p.wakeup_state m) ≡ false
      idle m = ground (arith, live_zero m, inv.balanced.each m, inv.pooled.domain m)

      none_pending : (m : Node) → is_pending (p.wakeup_state m) ≡ false
      none_pending m = ground (arith, live_zero m, inv.balanced.each m, inv.pooled.domain m)

  module _ (idle : (n : Node) → is_started (p.wakeup_state n) ≡ false)
      (left : 0 < p.remaining_systems) where
    -- A system that is left, with none running, is pending.
    pub some_pending :
        ((i : ℕ) → is_pending (p.wakeup_state (send_system i)) ≡ false)
        → ((i : ℕ) → is_pending (p.wakeup_state (unsend_system i)) ≡ false)
        → ⊥
    unfolding remaining
    some_pending sends unsends = omega (
      arith,
      inv.counted,
      weigh_zero live_weight p.wakeup_state nodes (λ m h. ground (arith, done m h)),
      left,
    )
      where
        none_pending : (n : Node) → is_pending (p.wakeup_state n) ≡ false
        none_pending (send_system i) = sends i
        none_pending (unsend_system i) = unsends i
        none_pending (partition i) =
            ground (arith, inv.balanced.each (partition i), inv.pooled.domain (partition i))

        done : (m : Node) → 0 < count m nodes → p.wakeup_state m ≡ some completed
        done m h = settled idle none_pending (suc (rank m)) m (omega arith) h

    one_ready :
        Steals t nodes send_pool p (steal_send t p)
        → Steals t nodes unsend_pool p (steal_unsend t p)
        → Hands (steal_send t p) ⊎ Hands (steal_unsend t p)
    one_ready (ready i, q, e, inv', st) _ = inl (i, q, e)
    one_ready (cycle_complete, q, e, inv', (same, none_left)) _ =
        absurd (omega (arith, none_left, left))
    one_ready _ (ready i, q, e, inv', st) = inr (i, q, e)
    one_ready _ (cycle_complete, q, e, inv', (same, none_left)) =
        absurd (omega (arith, none_left, left))
    one_ready (pending_result, q, e, inv', (same, pos, sends))
          (pending_result, q', e', inv'', (same', pos', unsends)) =
        absurd (some_pending sends unsends)

    -- No deadlock: over a well-formed topology whose dependencies ascend along a rank, and under the
    -- planner's invariant, while systems remain and none runs, one of the two steals hands out a system.
    pub no_deadlock : Hands (steal_send t p) ⊎ Hands (steal_unsend t p)
    no_deadlock = one_ready (steal_send_lem wf p inv) (steal_unsend_lem wf p inv)
