-- ===== src/Scheduler/Topology/Initials/Ready.antt =====
-- The planner of a new cycle satisfies the planner's invariant, and nothing runs in it.
use dynec.Common.{
  ℕ, ◌+◌, ◌<◌, ◌≤◌, ◌≡◌, refl, sym, ap, ◌∙◌, true, false, some, List, [], arith, if◌then◌else◌, ok,
  sum_of, length,
}
use dynec.Scheduler.Defs.{
  Node, send_system, unsend_system, partition, is_system, Order, NodeMap, count, count_nil,
}
use dynec.Scheduler.Planner.{Topology, Planner}
use dynec.Scheduler.Planner.Blocks.{
  deps_of, dep_weight, excl_weight, live_weight, dep_blocks, excl_blocks, remaining, weigh,
  weigh_zero,
}
use dynec.Scheduler.Planner.Invariant.{IsTopology, IsBalanced, IsPooled, Inv}
use dynec.Scheduler.Planner.Steal.{is_started, is_completed}
use dynec.Scheduler.Topology.{
  depless, trim, runnable, send_index, unsend_index, initial_wakeup, build_initials, collect,
}
use dynec.Scheduler.Topology.Dependents.{
  IsSchedule, IsMap, collect-IsMap, count_dependencies_lem, in_edges, edges, edges_total,
  edges_bipartite,
}
use dynec.Scheduler.Topology.Initials.{
  freed_by, trim_lem, is_depless, kept_by, split_blocks, runnable_send, runnable_unsend,
  runnable-IsOrdered, sum_ext, All-of_count, depless-All, length-depless, freed_zero,
}

-- The topology's dependents are those of the orders.
abbrev pub HasOrders : Topology → List Node → List Order → Type 0
HasOrders t nodes orders =
    (m n : Node) → 0 < count m nodes → count n (deps_of t m) ≡ edges orders m n

initial_idle : (c : NodeMap ℕ) (k : Node) → is_started (initial_wakeup c k) ≡ false
initial_idle c (send_system i) = ground arith
initial_idle c (unsend_system i) = ground arith
initial_idle c (partition i) = ground arith

initial_left :
    (c : NodeMap ℕ) (k : Node) → is_system k ≡ true → is_completed (initial_wakeup c k) ≡ false
initial_left c (send_system i) h = ground arith
initial_left c (unsend_system i) h = ground arith
initial_left c (partition i) h = ground arith

module _ {t : Topology} {nodes : List Node} {orders : List Order} (wf : IsTopology t nodes)
    (sched : IsSchedule nodes orders) (has : HasOrders t nodes orders) where
  total_in : (n : Node) → in_edges orders n ≡ sum_of (λ m. count n (deps_of t m)) nodes
  total_in n =
      sym (edges_total nodes orders sched.distinct sched.befores n)
      ∙ sum_ext _ _ nodes (λ m h. sym (has m n h))

  -- The counts before the trimming.
  counted :
      (c : NodeMap ℕ)
      → IsMap nodes c (λ n. 0 + in_edges orders n)
      → IsMap nodes c
          (λ n. kept_by (deps_of t) c nodes n + freed_by nodes (deps_of t) (depless c nodes) n)
  counted c m = record {
    at = λ n h.
        m.at n h ∙ ap some (omega (arith, total_in n, split_blocks (deps_of t) c nodes nodes n));
    off = m.off;
  }

  -- A partition is blocked by no other partition.
  freed_partition :
      (c : NodeMap ℕ) (n : Node)
      → is_system n ≡ false
      → freed_by nodes (deps_of t) (depless c nodes) n ≡ 0
  freed_partition c n par = freed_zero nodes (deps_of t) n (depless c nodes) (
      depless-All (λ i. count n (deps_of t (partition i)) ≡ 0) c nodes
        λ i h. ground (
          arith,
          has (partition i) n h,
          edges_bipartite orders (partition i) n sched.bipartite refl,
          par,
        ))

  trimmed :
      (fuel : ℕ) (c : NodeMap ℕ)
      → length nodes ≤ fuel
      → IsMap nodes c (λ n. 0 + in_edges orders n)
      → (c' : NodeMap ℕ) × (trim fuel t.dependents (depless c nodes) c ≡ ok c')
        × IsMap nodes c' (kept_by (deps_of t) c nodes)
  trimmed fuel c le m =
      trim_lem nodes (deps_of t) fuel t.dependents (depless c nodes) c (kept_by (deps_of t) c nodes)
        (omega (arith, le, length-depless c nodes))
        (depless-All _ c nodes λ i h.
          let (l, e) = wf.dependents_known (partition i) h in
          (
            ground (arith, e),
            All-of_count _ (deps_of t (partition i)) λ n k. (
              wf.dependents_nodes (partition i) n k,
              edges_bipartite orders (partition i) n sched.bipartite refl
                  (omega (arith, has (partition i) n h, k)),
            ),
          ))
        (counted c m)

  module _ (c c' : NodeMap ℕ) (m : IsMap nodes c (λ n. 0 + in_edges orders n))
      (m' : IsMap nodes c' (kept_by (deps_of t) c nodes)) where
    -- A node is completed at the start exactly when it was trimmed.
    weight_at :
        (n k : Node)
        → 0 < count k nodes
        → dep_weight t n (initial_wakeup c' k) k
          ≡ (if is_depless c k then 0 else count n (deps_of t k))
    weight_at n (send_system i) h = ground (arith, m'.at (send_system i) h)
    weight_at n (unsend_system i) h = ground (arith, m'.at (unsend_system i) h)
    weight_at n (partition i) h = ground (
      arith,
      m'.at (partition i) h,
      (counted c m).at (partition i) h,
      freed_partition c (partition i) refl,
    )

    start-IsBalanced : IsBalanced t nodes [] [] (initial_wakeup c')
    unfolding dep_blocks excl_blocks weigh kept_by
    start-IsBalanced = record {
      each = λ n h. ground (
        arith,
        m'.at n h,
        sum_ext _ _ nodes (weight_at n),
        weigh_zero (excl_weight t n) (initial_wakeup c') nodes
            (λ k _. ground (arith, initial_idle c' k)),
        count_nil n,
      );
    }

    start-IsPooled :
        (r : ℕ)
        → IsPooled nodes (record {
          wakeup_state = initial_wakeup c';
          send_runnable = runnable send_index c' nodes;
          unsend_runnable = runnable unsend_index c' nodes;
          remaining_systems = r;
        })
    start-IsPooled r = record {
      sends = λ i. ground (arith, runnable_send c' nodes i, m'.off (send_system i));
      unsends = λ i. ground (arith, runnable_unsend c' nodes i, m'.off (unsend_system i));
      send_ordered = runnable-IsOrdered send_index c' nodes;
      unsend_ordered = runnable-IsOrdered unsend_index c' nodes;
      domain = λ n h. ground (arith, m'.off n h);
    }

    start_remaining :
        sum_of (λ n. if is_system n then 1 else 0) nodes
        ≡ weigh live_weight (initial_wakeup c') nodes
    unfolding weigh
    start_remaining = sum_ext _ _ nodes live_at
      where
        live_at :
            (k : Node)
            → 0 < count k nodes
            → (if is_system k then 1 else 0) ≡ live_weight (initial_wakeup c' k) k
        live_at (send_system i) h = ground (arith, m'.at (send_system i) h)
        live_at (unsend_system i) h = ground (arith, m'.at (unsend_system i) h)
        live_at (partition i) h = ground (arith, m'.at (partition i) h)

  -- The new planner has no system completed either.
  pub build_initials_fresh :
      (fuel : ℕ)
      → length nodes ≤ fuel
      → (p : Planner) × (build_initials fuel nodes orders t.dependents ≡ ok (p, []))
        × Inv t nodes p
        × ((n : Node) → is_started (p.wakeup_state n) ≡ false)
        × ((n : Node) → is_system n ≡ true → is_completed (p.wakeup_state n) ≡ false)
  unfolding build_initials remaining
  build_initials_fresh fuel le =
      let (c, e, m) =
        count_dependencies_lem nodes orders (collect 0 nodes) (λ _. 0) sched.afters
          (collect-IsMap 0 nodes) in
      let (c', e', m') = trimmed fuel c le m in
      (
        _,
        rw (e, e') refl,
        record {
          balanced = start-IsBalanced c c' m m';
          pooled = start-IsPooled c c' m m' _;
          counted = start_remaining c c' m m';
        },
        initial_idle c',
        initial_left c',
      )

  -- For a schedule of orders that no two partitions share, and a well-formed topology with their
  -- dependents: with fuel for as many rounds as there are nodes, `build_initials` returns, with no partition
  -- left in its list; its planner satisfies the planner's invariant, and nothing runs in it.
  pub build_initials_lem :
      (fuel : ℕ)
      → length nodes ≤ fuel
      → (p : Planner) × (build_initials fuel nodes orders t.dependents ≡ ok (p, []))
        × Inv t nodes p
        × ((n : Node) → is_started (p.wakeup_state n) ≡ false)
  build_initials_lem fuel le =
      let (p, e, inv, idle, left) = build_initials_fresh fuel le in (p, e, inv, idle)
