-- ===== src/Scheduler/Planner/Wake.antt =====
-- What taking one block off a node does, when it is the last one or not.
use dynec.Common.{
  ℕ, ◌+◌, ◌-◌, ◌<◌, ◌≡◌, refl, ap, ◌∙◌, true, false, some, List, [], ◌∷◌, ◌++◌, arith, ◌⊎◌, inl,
  Outcome, ok, length, length-append, length-reverse, append_assoc,
}
use mathlib.Core.List.{reverse}
use dynec.Common.OrdSet.{insert, contains-insert, insert-IsOrdered}
use dynec.Scheduler.Defs.{
  Node, send_system, unsend_system, partition, node_eq, node_eq_iff, is_system, WakeupState,
  blocked, pending, completed, NodeMap, update, count, count-append, count-reverse,
}
use dynec.Scheduler.Planner.{Topology, Planner, wake, dependents_of}
use dynec.Scheduler.Planner.Blocks.{
  deps_of, live_weight, fan_weight, fan_out, remaining, weigh-update,
}
use dynec.Scheduler.Planner.Invariant.{IsTopology, IsBalanced, IsPooled}
use dynec.Scheduler.Planner.Moves.{wake_system-IsBalanced, wake_partition-IsBalanced}
use dynec.Scheduler.Planner.Steal.{is_started, is_completed}

-- From `p` to `q` only blocks are taken off: nodes that ran run on, what was completed stays so, and
-- the systems left are the same.
pub record IsFreed (nodes : List Node) (p q : Planner) : Type 0 where
  pub same_started : (n : Node) → is_started (q.wakeup_state n) ≡ is_started (p.wakeup_state n)
  pub still_completed :
      (n : Node) → is_completed (p.wakeup_state n) ≡ true → is_completed (q.wakeup_state n) ≡ true
  pub same_systems :
      (n : Node)
      → is_system n ≡ true
      → is_completed (q.wakeup_state n) ≡ is_completed (p.wakeup_state n)
  pub same_live : remaining nodes q.wakeup_state ≡ remaining nodes p.wakeup_state
  pub same_counter : q.remaining_systems ≡ p.remaining_systems

pub IsFreed-refl : (nodes : List Node) (p : Planner) → IsFreed nodes p p
IsFreed-refl nodes p = record {
  same_started = λ n. refl;
  still_completed = λ n h. h;
  same_systems = λ n h. refl;
  same_live = refl;
  same_counter = refl;
}

pub IsFreed-trans :
    {nodes : List Node} {p q r : Planner}
    → IsFreed nodes p q
    → IsFreed nodes q r
    → IsFreed nodes p r
IsFreed-trans a b = record {
  same_started = λ n. b.same_started n ∙ a.same_started n;
  still_completed = λ n h. b.still_completed n (a.still_completed n h);
  same_systems = λ n h. b.same_systems n h ∙ a.same_systems n h;
  same_live = b.same_live ∙ a.same_live;
  same_counter = b.same_counter ∙ a.same_counter;
}

module _ {t : Topology} {nodes : List Node} (wf : IsTopology t nodes) where
  -- A new state for a node that is neither running nor a system that completes.
  pub relabel-IsFreed :
      (p q : Planner) (k : Node) (s : WakeupState)
      → 0 < count k nodes
      → is_started (p.wakeup_state k) ≡ false
      → is_completed (p.wakeup_state k) ≡ false
      → is_started (some s) ≡ false
      → live_weight (some s) k ≡ live_weight (p.wakeup_state k) k
      → q.wakeup_state ≡ update p.wakeup_state k s
      → q.remaining_systems ≡ p.remaining_systems
      → IsFreed nodes p q
  unfolding remaining
  relabel-IsFreed p q k s known s1 c1 s2 same e r = record {
    same_started = λ n. rw e (ground (arith, node_eq_iff k n));
    still_completed = λ n h. rw e (ground (arith, node_eq_iff k n));
    same_systems = λ n h. rw e (ground (arith, node_eq_iff k n, same));
    same_live = rw e (
        ground (
          arith,
          weigh-update live_weight p.wakeup_state k s nodes (omega (arith, wf.distinct k)),
        ));
    same_counter = r;
  }

  -- What one round of the loop leaves: the queue, the invariant's parts, and a smaller measure.
  abbrev pub Unblocks : List Node → List Node → Planner → Outcome (List Node × Planner) → Type 0
  Unblocks queue rest p out =
      (queue' : List Node) × (q : Planner) × (out ≡ ok (queue', q))
      × IsPooled nodes q
      × IsBalanced t nodes [] (queue' ++ rest) q.wakeup_state
      × IsFreed nodes p q
      × (length queue' + fan_out t nodes q.wakeup_state
          ≡ length queue + fan_out t nodes p.wakeup_state)
      × ((n : Node) → 0 < count n queue' → (0 < count n queue) ⊎ (0 < count n nodes))

  pub fan_out_same :
      (w : NodeMap WakeupState) (k : Node) (s : WakeupState)
      → 0 < count k nodes
      → fan_weight t (some s) k ≡ fan_weight t (w k) k
      → fan_out t nodes (update w k s) ≡ fan_out t nodes w
  unfolding fan_out
  fan_out_same w k s known e =
      omega (arith, weigh-update (fan_weight t) w k s nodes (omega (arith, wf.distinct k)))

  pub fan_out_completed :
      (w : NodeMap WakeupState) (k : Node) (c : ℕ)
      → 0 < count k nodes
      → w k ≡ some (blocked c)
      → fan_out t nodes (update w k completed) + length (deps_of t k) ≡ fan_out t nodes w
  unfolding fan_out
  fan_out_completed w k c known e =
      ground (arith, weigh-update (fan_weight t) w k completed nodes (omega (arith, wf.distinct k)))

  pub wake-Unblocks :
      (k : Node) (queue rest : List Node) (p : Planner)
      → 0 < count k nodes
      → p.wakeup_state k ≡ some (blocked 1)
      → IsPooled nodes p
      → IsBalanced t nodes [] (k ∷ (queue ++ rest)) p.wakeup_state
      → Unblocks queue rest p (wake t k queue p)
  unfolding wake node_eq dependents_of
  wake-Unblocks (send_system i) queue rest p known e v b = (
    queue,
    record p {
      wakeup_state = update p.wakeup_state (send_system i) pending;
      send_runnable = insert i p.send_runnable;
    },
    ground (arith, v.sends i),
    record {
      sends = λ j. ground (arith, v.sends j, contains-insert i j p.send_runnable);
      unsends = v.unsends;
      send_ordered = insert-IsOrdered i p.send_runnable v.send_ordered;
      unsend_ordered = v.unsend_ordered;
      domain = λ n h. ground (arith, v.domain n h, node_eq_iff (send_system i) n);
    },
    wake_system-IsBalanced wf p.wakeup_state (send_system i) known (queue ++ rest) e refl b,
    relabel-IsFreed p _ (send_system i) pending known (rw e) (rw e) refl (rw e) refl refl,
    ap (λ (x : ℕ). length queue + x)
        (fan_out_same p.wakeup_state (send_system i) pending known (rw e)),
    λ n h. inl h,
  )
  wake-Unblocks (unsend_system i) queue rest p known e v b = (
    queue,
    record p {
      wakeup_state = update p.wakeup_state (unsend_system i) pending;
      unsend_runnable = insert i p.unsend_runnable;
    },
    ground (arith, v.unsends i),
    record {
      sends = v.sends;
      unsends = λ j. ground (arith, v.unsends j, contains-insert i j p.unsend_runnable);
      send_ordered = v.send_ordered;
      unsend_ordered = insert-IsOrdered i p.unsend_runnable v.unsend_ordered;
      domain = λ n h. ground (arith, v.domain n h, node_eq_iff (unsend_system i) n);
    },
    wake_system-IsBalanced wf p.wakeup_state (unsend_system i) known (queue ++ rest) e refl b,
    relabel-IsFreed p _ (unsend_system i) pending known (rw e) (rw e) refl (rw e) refl refl,
    ap (λ (x : ℕ). length queue + x)
        (fan_out_same p.wakeup_state (unsend_system i) pending known (rw e)),
    λ n h. inl h,
  )
  wake-Unblocks (partition i) queue rest p known e v b =
      let k = partition i in
      let (x, ex) = wf.partitions_known i known in
      let (l, el) = wf.dependents_known k known in
      (
        reverse (deps_of t k) ++ queue,
        record p { wakeup_state = update p.wakeup_state k completed },
        ground (arith, ex, el),
        record {
          sends = λ j. ground (arith, v.sends j, node_eq_iff k (send_system j));
          unsends = λ j. ground (arith, v.unsends j, node_eq_iff k (unsend_system j));
          send_ordered = v.send_ordered;
          unsend_ordered = v.unsend_ordered;
          domain = λ n h. ground (arith, v.domain n h, node_eq_iff k n);
        },
        rw append_assoc (wake_partition-IsBalanced wf p.wakeup_state k known (queue ++ rest) e b),
        relabel-IsFreed p _ k completed known (rw e) (rw e) refl (rw e) refl refl,
        omega (
          arith,
          length-append (reverse (deps_of t k)) queue,
          length-reverse (deps_of t k),
          fan_out_completed p.wakeup_state k 1 known e,
        ),
        λ n h. ground (
          arith,
          count-append n (reverse (deps_of t k)) queue,
          count-reverse n (deps_of t k),
          wf.dependents_nodes k n,
        ),
      )

  pub lower-IsPooled :
      (p : Planner) (k : Node) (c : ℕ)
      → 0 < count k nodes
      → p.wakeup_state k ≡ some (blocked c)
      → IsPooled nodes p
      → IsPooled nodes (record p { wakeup_state = update p.wakeup_state k (blocked (c - 1)) })
  lower-IsPooled p k c known e v = record {
    sends = λ j. ground (arith, v.sends j, node_eq_iff k (send_system j));
    unsends = λ j. ground (arith, v.unsends j, node_eq_iff k (unsend_system j));
    send_ordered = v.send_ordered;
    unsend_ordered = v.unsend_ordered;
    domain = λ n h. ground (arith, v.domain n h, node_eq_iff k n);
  }
