-- ===== src/Scheduler/Planner/Steal.antt =====
-- `steal` never panics under the invariant, and keeps it.
use dynec.Common.{
  ℕ, ◌+◌, ◌<◌, ◌≡◌, refl, sym, ap, ◌∙◌, Bool, true, false, Option, some, List, [], ◌∷◌, arith, ok,
}
use dynec.Common.OrdSet.{remove, contains-remove, remove-IsOrdered}
use dynec.Scheduler.Defs.{
  Node, send_system, unsend_system, partition, node_eq, node_eq_iff, is_system, WakeupState,
  blocked, pending, started, completed, update, count, count_self, count_nil, count_cons,
}
use dynec.Scheduler.Planner.{Topology, Planner, unmark_runnable, block_state, block_all}
use dynec.Scheduler.Planner.Blocks.{live_weight, remaining, weigh-update}
use dynec.Scheduler.Planner.Invariant.{IsTopology, IsBalanced, IsPooled, blocks-le}
use dynec.Scheduler.Planner.Moves.{
  block_pending-IsBalanced, block_again-IsBalanced, block_completed-IsBalanced,
}

abbrev pub is_started : Option WakeupState → Bool
is_started (some started) = true
is_started _ = false

abbrev pub is_completed : Option WakeupState → Bool
is_completed (some completed) = true
is_completed _ = false

-- `q` differs from `p` only in which nodes wait.
pub record IsSameRun (nodes : List Node) (p q : Planner) : Type 0 where
  pub same_started : (n : Node) → is_started (q.wakeup_state n) ≡ is_started (p.wakeup_state n)
  pub same_completed :
      (n : Node) → is_completed (q.wakeup_state n) ≡ is_completed (p.wakeup_state n)
  pub same_live : remaining nodes q.wakeup_state ≡ remaining nodes p.wakeup_state
  pub same_counter : q.remaining_systems ≡ p.remaining_systems

pub IsSameRun-refl : (nodes : List Node) (p : Planner) → IsSameRun nodes p p
IsSameRun-refl nodes p = record {
  same_started = λ n. refl;
  same_completed = λ n. refl;
  same_live = refl;
  same_counter = refl;
}

pub IsSameRun-trans :
    {nodes : List Node} {p q r : Planner}
    → IsSameRun nodes p q
    → IsSameRun nodes q r
    → IsSameRun nodes p r
IsSameRun-trans a b = record {
  same_started = λ n. b.same_started n ∙ a.same_started n;
  same_completed = λ n. b.same_completed n ∙ a.same_completed n;
  same_live = b.same_live ∙ a.same_live;
  same_counter = b.same_counter ∙ a.same_counter;
}

abbrev pub NoneStarted : List Node → Planner → Type 0
NoneStarted due p = (n : Node) → 0 < count n due → is_started (p.wakeup_state n) ≡ false

module _ {t : Topology} {nodes : List Node} (wf : IsTopology t nodes) where
  -- A pending system leaves its pool when it is blocked.
  unmark-IsPooled :
      (p : Planner) (k : Node)
      → 0 < count k nodes
      → is_system k ≡ true
      → p.wakeup_state k ≡ some pending
      → IsPooled nodes p
      → (q : Planner) × (block_state pending k p ≡ ok q)
        × (q.wakeup_state ≡ update p.wakeup_state k (blocked 1))
        × (q.remaining_systems ≡ p.remaining_systems)
        × IsPooled nodes q
  unfolding block_state unmark_runnable node_eq
  unmark-IsPooled p (send_system i) known sys e v = (
    record p {
      wakeup_state = update p.wakeup_state (send_system i) (blocked 1);
      send_runnable = remove i p.send_runnable;
    },
    ground (arith, v.sends i),
    refl,
    refl,
    record {
      sends = λ j. ground (arith, v.sends j, contains-remove i j p.send_runnable v.send_ordered);
      unsends = v.unsends;
      send_ordered = remove-IsOrdered i p.send_runnable v.send_ordered;
      unsend_ordered = v.unsend_ordered;
      domain = λ n h. ground (arith, v.domain n h, node_eq_iff (send_system i) n);
    },
  )
  unmark-IsPooled p (unsend_system i) known sys e v = (
    record p {
      wakeup_state = update p.wakeup_state (unsend_system i) (blocked 1);
      unsend_runnable = remove i p.unsend_runnable;
    },
    ground (arith, v.unsends i),
    refl,
    refl,
    record {
      sends = v.sends;
      unsends =
          λ j. ground (arith, v.unsends j, contains-remove i j p.unsend_runnable v.unsend_ordered);
      send_ordered = v.send_ordered;
      unsend_ordered = remove-IsOrdered i p.unsend_runnable v.unsend_ordered;
      domain = λ n h. ground (arith, v.domain n h, node_eq_iff (unsend_system i) n);
    },
  )
  unmark-IsPooled p (partition i) known sys e v = cc

  -- A blocked count, not yet at its bound, grows by one.
  blocked-IsPooled :
      (p : Planner) (k : Node) (c : ℕ)
      → 0 < count k nodes
      → p.wakeup_state k ≡ some (blocked c)
      → IsPooled nodes p
      → IsPooled nodes (record p { wakeup_state = update p.wakeup_state k (blocked (c + 1)) })
  blocked-IsPooled p k c known e v = record {
    sends = λ j. ground (arith, v.sends j, node_eq_iff k (send_system j));
    unsends = λ j. ground (arith, v.unsends j, node_eq_iff k (unsend_system j));
    send_ordered = v.send_ordered;
    unsend_ordered = v.unsend_ordered;
    domain = λ n h. ground (arith, v.domain n h, node_eq_iff k n);
  }

  -- A change between two states neither started nor completed.
  waiting-IsSameRun :
      (p q : Planner) (k : Node) (s : WakeupState)
      → 0 < count k nodes
      → is_started (p.wakeup_state k) ≡ false
      → is_completed (p.wakeup_state k) ≡ false
      → is_started (some s) ≡ false
      → is_completed (some s) ≡ false
      → q.wakeup_state ≡ update p.wakeup_state k s
      → q.remaining_systems ≡ p.remaining_systems
      → IsSameRun nodes p q
  unfolding remaining
  waiting-IsSameRun p q k s known s1 c1 s2 c2 e r = record {
    same_started = λ n. rw e (ground (arith, node_eq_iff k n));
    same_completed = λ n. rw e (ground (arith, node_eq_iff k n));
    same_live = rw e (
        ground (
          arith,
          weigh-update live_weight p.wakeup_state k s nodes (omega (arith, wf.distinct k)),
        ));
    same_counter = r;
  }

  -- One round of the loop over exclusive nodes.
  pub block_state_lem :
      (due : List Node) (p : Planner) (k : Node) (s : WakeupState)
      → 0 < count k nodes
      → is_system k ≡ true
      → p.wakeup_state k ≡ some s
      → is_started (some s) ≡ false
      → IsPooled nodes p
      → IsBalanced t nodes (k ∷ due) [] p.wakeup_state
      → (q : Planner) × (block_state s k p ≡ ok q)
        × IsPooled nodes q
        × IsBalanced t nodes due [] q.wakeup_state
        × IsSameRun nodes p q
  unfolding block_state
  block_state_lem due p k pending known sys e _ v b =
      let (q, e1, e2, e3, v') = unmark-IsPooled p k known sys e v in
      (
        q,
        e1,
        v',
        rw e2 (block_pending-IsBalanced wf p.wakeup_state k known due e b),
        waiting-IsSameRun p q k (blocked 1) known (rw e) (rw e) refl refl e2 e3,
      )
  block_state_lem due p k (blocked c) known sys e _ v b = (
    record p { wakeup_state = update p.wakeup_state k (blocked (c + 1)) },
    block_bound,
    blocked-IsPooled p k c known e v,
    block_again-IsBalanced wf p.wakeup_state k known due c e b,
    waiting-IsSameRun p _ k (blocked (c + 1)) known (rw e) (rw e) refl refl refl refl,
  )
    where
      block_bound :
          block_state (blocked c) k p
          ≡ ok (record p { wakeup_state = update p.wakeup_state k (blocked (c + 1)) })
      block_bound = ground (
        arith,
        b.each k known,
        blocks-le t nodes p.wakeup_state k,
        wf.small k,
        count_self k due,
        count_nil k,
      )
  block_state_lem due p k completed known sys e _ v b = (
    p,
    refl,
    v,
    block_completed-IsBalanced wf p.wakeup_state k known due e b,
    IsSameRun-refl nodes p,
  )
  block_state_lem due p k started known sys e h v b = cc

  known_state :
      (due freed : List Node) (p : Planner) (k : Node)
      → 0 < count k nodes
      → IsBalanced t nodes due freed p.wakeup_state
      → (s : WakeupState) × (p.wakeup_state k ≡ some s)
  known_state due freed p k known b = ground (arith, b.each k known)

  -- The whole loop over exclusive nodes.
  pub block_all_lem :
      (due : List Node) (p : Planner)
      → ((n : Node) → 0 < count n due → 0 < count n nodes)
      → ((n : Node) → 0 < count n due → is_system n ≡ true)
      → NoneStarted due p
      → IsPooled nodes p
      → IsBalanced t nodes due [] p.wakeup_state
      → (q : Planner) × (block_all due p ≡ ok q)
        × IsPooled nodes q
        × IsBalanced t nodes [] [] q.wakeup_state
        × IsSameRun nodes p q
  unfolding block_all
  block_all_lem [] p known sys idle v b = (p, refl, v, b, IsSameRun-refl nodes p)
  block_all_lem (k ∷ due) p known sys idle v b =
      let here : 0 < count k (k ∷ due) = omega (arith, count_self k due) in
      let (s, e) = known_state (k ∷ due) [] p k (known k here) b in
      let (q, e1, v1, b1, r1) =
        block_state_lem due p k s (known k here) (sys k here) e
          (ap is_started (sym e) ∙ idle k here) v b in
      let (q', e2, v2, b2, r2) =
        block_all_lem due q (λ n h. known n (later n h)) (λ n h. sys n (later n h))
          (λ n h. r1.same_started n ∙ idle n (later n h)) v1 b1 in
      (q', rw (e, e1, block_all) e2, v2, b2, IsSameRun-trans r1 r2)
    where
      later : (n : Node) → 0 < count n due → 0 < count n (k ∷ due)
      later n h = omega (arith, count_cons n k due)
