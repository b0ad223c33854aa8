-- ===== src/Scheduler/Planner/Complete.antt =====
-- `complete` and the removal of blocks: with enough fuel they never panic, and keep the invariant.
use dynec.Common.{
  ℕ, zero, suc, ◌+◌, ◌-◌, ◌<◌, ◌≤◌, ◌≡◌, refl, ap, ◌∙◌, true, some, List, [], ◌∷◌, ◌++◌, arith, ◌≢◌,
  inl, inr, ok, ltb, Bool-cases, length, append-nil, length-reverse,
}
use mathlib.Core.List.{reverse}
use dynec.Scheduler.Defs.{
  Node, send_system, unsend_system, node_eq_iff, node_eq_refl, is_system, WakeupState, blocked,
  pending, started, completed, NodeMap, update, count, count_self, count_nil, count_cons,
  count-reverse,
}
use dynec.Scheduler.Planner.{
  Topology, Planner, unblock_state, remove_one_block_no_recursion, remove_one_block, finish_state,
  complete, dependents_of, exclusions_of,
}
use dynec.Scheduler.Planner.Blocks.{
  deps_of, excl_of, live_weight, fan_weight, fan_out, fuel_bound, fuel_bound-le, remaining, weigh,
  weigh-update,
}
use dynec.Scheduler.Planner.Invariant.{IsTopology, IsBalanced, IsPooled, Inv}
use dynec.Scheduler.Planner.Moves.{
  unblock_some-IsBalanced, unblock_completed-IsBalanced, finish-IsBalanced,
}
use dynec.Scheduler.Planner.Steal.{is_started, is_completed}
use dynec.Scheduler.Planner.Wake.{
  IsFreed, IsFreed-refl, IsFreed-trans, relabel-IsFreed, Unblocks, fan_out_same, wake-Unblocks,
  lower-IsPooled,
}

-- What completing `k` did: `k` is completed, every other node runs as before, what was completed
-- stays completed, no other system completes, and the count of remaining systems falls by one.
pub record IsFinished (p q : Planner) (k : Node) : Type 0 where
  pub finished : is_completed (q.wakeup_state k) ≡ true
  pub others : (n : Node) → n ≢ k → is_started (q.wakeup_state n) ≡ is_started (p.wakeup_state n)
  pub still_completed :
      (n : Node) → is_completed (p.wakeup_state n) ≡ true → is_completed (q.wakeup_state n) ≡ true
  pub same_systems :
      (n : Node)
      → n ≢ k
      → is_system n ≡ true
      → is_completed (q.wakeup_state n) ≡ is_completed (p.wakeup_state n)
  pub fewer : q.remaining_systems + 1 ≡ p.remaining_systems

module _ {t : Topology} {nodes : List Node} (wf : IsTopology t nodes) where
  unblock-Unblocks :
      (s : WakeupState) (k : Node) (queue rest : List Node) (p : Planner)
      → 0 < count k nodes
      → p.wakeup_state k ≡ some s
      → IsPooled nodes p
      → IsBalanced t nodes [] (k ∷ (queue ++ rest)) p.wakeup_state
      → Unblocks wf queue rest p (unblock_state s t k queue p)
  unfolding unblock_state
  unblock-Unblocks (blocked c) k queue rest p known e v b = elim (Bool-cases (ltb 1 c)) [
    | inl many ↦ (
      queue,
      record p { wakeup_state = update p.wakeup_state k (blocked (c - 1)) },
      rw many,
      lower-IsPooled wf p k c known e v,
      unblock_some-IsBalanced wf p.wakeup_state k known (queue ++ rest) c e (ground arith) b,
      relabel-IsFreed wf p _ k (blocked (c - 1)) known (rw e) (rw e) refl (rw e) refl refl,
      ap (λ (x : ℕ). length queue + x)
          (fan_out_same wf p.wakeup_state k (blocked (c - 1)) known (rw e)),
      λ n h. inl h,
    )
    | inr few ↦
        let one : c ≡ 1 = ground (arith, b.each k known) in
        let e1 : p.wakeup_state k ≡ some (blocked 1) = e ∙ ap (λ (x : ℕ). some (blocked x)) one in
        rw one (wake-Unblocks wf k queue rest p known e1 v b)
  ]
  unblock-Unblocks completed k queue rest p known e v b = (
    queue,
    p,
    refl,
    v,
    unblock_completed-IsBalanced wf p.wakeup_state k known (queue ++ rest) e b,
    IsFreed-refl nodes p,
    refl,
    λ n h. inl h,
  )
  unblock-Unblocks pending k queue rest p known e v b =
      absurd (ground (arith, b.each k known, count_self k (queue ++ rest), count_nil k))
  unblock-Unblocks started k queue rest p known e v b =
      absurd (ground (arith, b.each k known, count_self k (queue ++ rest), count_nil k))

  -- The whole loop, with fuel for the queue and what partitions may still add to it.
  pub remove_one_block_lem :
      (fuel : ℕ) (queue rest : List Node) (p : Planner)
      → length queue + fan_out t nodes p.wakeup_state ≤ fuel
      → ((n : Node) → 0 < count n queue → 0 < count n nodes)
      → IsPooled nodes p
      → IsBalanced t nodes [] (queue ++ rest) p.wakeup_state
      → (q : Planner) × (remove_one_block fuel t queue p ≡ ok q)
        × IsPooled nodes q
        × IsBalanced t nodes [] rest q.wakeup_state
        × IsFreed nodes p q
  unfolding remove_one_block remove_one_block_no_recursion
  remove_one_block_lem fuel [] rest p m known v b = (p, refl, v, b, IsFreed-refl nodes p)
  remove_one_block_lem zero (k ∷ queue) rest p m known v b = absurd (omega arith)
  remove_one_block_lem (suc fuel) (k ∷ queue) rest p m known v b =
      let here : 0 < count k nodes = known k (omega (arith, count_self k queue)) in
      let (s, e) = known_state p k here b in
      let (queue', q, e1, v1, b1, r1, m1, known1) = unblock-Unblocks s k queue rest p here e v b in
      let (q', e2, v2, b2, r2) =
        remove_one_block_lem fuel queue' rest q (omega (arith, m1, m))
          (λ n h. ground (arith, known1 n h, known n, count_cons n k queue)) v1 b1 in
      (q', ground (arith, e, e1, e2), v2, b2, IsFreed-trans r1 r2)
    where
      known_state :
          (p : Planner) (k : Node)
          → 0 < count k nodes
          → IsBalanced t nodes [] (k ∷ (queue ++ rest)) p.wakeup_state
          → (s : WakeupState) × (p.wakeup_state k ≡ some s)
      known_state p k h b = ground (arith, b.each k h)

  finish-IsPooled :
      (p : Planner) (k : Node)
      → 0 < count k nodes
      → p.wakeup_state k ≡ some started
      → IsPooled nodes p
      → IsPooled nodes (record p { wakeup_state = update p.wakeup_state k completed })
  finish-IsPooled p k known e v = record {
    sends = λ j. ground (arith, v.sends j, node_eq_iff k (send_system j));
    unsends = λ j. ground (arith, v.unsends j, node_eq_iff k (unsend_system j));
    send_ordered = v.send_ordered;
    unsend_ordered = v.unsend_ordered;
    domain = λ n h. ground (arith, v.domain n h, node_eq_iff k n);
  }

  -- The two loops of `complete`, after node `k` is marked completed.
  complete_loops :
      (fuel : ℕ) (p : Planner) (k : Node)
      → fuel_bound t nodes ≤ fuel
      → 0 < count k nodes
      → Inv t nodes p
      → p.wakeup_state k ≡ some started
      → (q1 q2 : Planner) × (remove_one_block fuel t
            (reverse (deps_of t k))
            (record p { wakeup_state = update p.wakeup_state k completed })
          ≡ ok q1)
        × (remove_one_block fuel t (reverse (excl_of t k)) q1 ≡ ok q2)
        × IsPooled nodes q2
        × IsBalanced t nodes [] [] q2.wakeup_state
        × IsFreed nodes (record p { wakeup_state = update p.wakeup_state k completed }) q2
  unfolding fan_out
  complete_loops fuel p k enough known inv e =
      let once : count k nodes ≡ 1 = omega (arith, wf.distinct k) in
      let fan = weigh-update (fan_weight t) p.wakeup_state k completed nodes once in
      let bound = λ (w : NodeMap WakeupState). fuel_bound-le t nodes w k known in
      let (q1, e1, v1, b1, r1) =
        remove_one_block_lem fuel (reverse (deps_of t k)) (reverse (excl_of t k)) _
          (ground (arith, enough, fan, bound p.wakeup_state, length-reverse (deps_of t k)))
          (λ n h. wf.dependents_nodes k n (omega (arith, count-reverse n (deps_of t k), h)))
          (finish-IsPooled p k known e inv.pooled)
          (finish-IsBalanced wf p.wakeup_state k known e inv.balanced) in
      let (q2, e2, v2, b2, r2) =
        remove_one_block_lem fuel (reverse (excl_of t k)) [] q1
          (omega (arith, enough, bound q1.wakeup_state, length-reverse (excl_of t k)))
          (λ n h. wf.exclusions_nodes k n (omega (arith, count-reverse n (excl_of t k), h))) v1
          (rw append-nil b1) in
      (q1, q2, e1, e2, v2, b2, IsFreed-trans r1 r2)

  -- Over a well-formed topology, under the invariant, `complete` on a started system returns when its fuel is at least the
  -- fan-out of the topology, keeps the invariant, marks the system completed, starts and stops no
  -- other node, and lowers the count of remaining systems by one.
  pub complete_lem :
      (fuel : ℕ) (p : Planner) (k : Node)
      → fuel_bound t nodes ≤ fuel
      → Inv t nodes p
      → p.wakeup_state k ≡ some started
      → (q : Planner) × (complete fuel t k p ≡ ok q) × Inv t nodes q × IsFinished p q k
  unfolding complete finish_state dependents_of exclusions_of remaining
  complete_lem fuel p k enough inv e =
      let known : 0 < count k nodes = ground (arith, inv.pooled.domain k) in
      let (l, el) = wf.dependents_known k known in
      let (x, ex) = wf.exclusions_known k known in
      let (q1, q, e1, e2, v, b, r) = complete_loops fuel p k enough known inv e in
      let live : weigh live_weight (update p.wakeup_state k completed) nodes + 1
          ≡ weigh live_weight p.wakeup_state nodes =
        ground (
          arith,
          weigh-update live_weight p.wakeup_state k completed nodes (omega (arith, wf.distinct k)),
          inv.balanced.each k known,
        ) in
      (
        record q { remaining_systems = q.remaining_systems - 1 },
        ground (arith, e, el, ex, e1, e2, live, r.same_counter, inv.counted),
        record {
          balanced = b;
          pooled = record {
            sends = v.sends;
            unsends = v.unsends;
            send_ordered = v.send_ordered;
            unsend_ordered = v.unsend_ordered;
            domain = v.domain;
          };
          counted = omega (arith, live, r.same_counter, r.same_live, inv.counted);
        },
        record {
          finished = r.still_completed k (ground (arith, node_eq_refl k));
          others = λ n ne. ground (arith, r.same_started n, node_eq_iff k n);
          still_completed = λ n h. r.still_completed n (ground (arith, node_eq_iff k n));
          same_systems = λ n ne h. ground (arith, r.same_systems n h, node_eq_iff k n);
          fewer = omega (arith, live, r.same_counter, inv.counted);
        },
      )
