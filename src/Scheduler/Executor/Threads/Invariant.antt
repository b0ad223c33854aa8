-- ===== src/Scheduler/Executor/Threads/Invariant.antt =====
-- How the planner's states account for the systems that run and that have run, in every state that
-- the threads of an executor reach.
use dynec.Common.{
  ℕ, ◌+◌, ◌<◌, ◌≤◌, ◌≡◌, refl, sym, ◌&&◌, true, some, List, [], ◌∷◌, arith, inl, inr, Outcome, ok,
  Bool-cases, subst, if◌then◌else◌, length,
}
use dynec.Scheduler.Defs.{
  Node, node_eq, node_eq_iff, node_eq_refl, is_system, pending, started, Order, count, count_nil,
}
use dynec.Scheduler.Planner.{
  Topology, Planner, Pool, StealResult, ready, pending_result, cycle_complete, send_pool,
  unsend_pool,
}
use dynec.Scheduler.Planner.Blocks.{fuel_bound}
use dynec.Scheduler.Planner.Invariant.{IsTopology, Inv}
use dynec.Scheduler.Planner.Steal.{is_started, is_completed}
use dynec.Scheduler.Planner.StealLaws.{Steals, Stolen, steal_send_lem, steal_unsend_lem}
use dynec.Scheduler.Planner.Complete.{IsFinished, complete_lem}
use dynec.Scheduler.Topology.{build_initials}
use dynec.Scheduler.Topology.Dependents.{IsSchedule}
use dynec.Scheduler.Topology.Initials.Ready.{HasOrders, build_initials_fresh}
use dynec.Scheduler.Executor.Threads.{Threads, hand_out, take_off, Step, Reach}

pub count-take_off :
    (n k : Node) (ns : List Node)
    → 0 < count k ns
    → count n (take_off k ns) + (if node_eq n k then 1 else 0) ≡ count n ns
unfolding count take_off
count-take_off n k [] h = absurd (omega arith)
count-take_off n k (m ∷ ns) h = elim (Bool-cases (node_eq k m)) [
  | inl same ↦ rw same (ground (arith, node_eq_iff k m, same))
  | inr differ ↦ rw differ (ground (arith, differ, count-take_off n k ns))
]

-- The planner knows what runs and what has run.
pub record IsTracked (t : Topology) (nodes : List Node) (s : Threads) : Type 0 where
  pub inv : Inv t nodes s.planner
  pub runs :
      (n : Node) → count n s.running ≡ (if is_started (s.planner.wakeup_state n) then 1 else 0)
  pub has_run :
      (n : Node)
      → count n s.ran ≡ (if is_system n && is_completed (s.planner.wakeup_state n) then 1 else 0)

module _ {t : Topology} {nodes : List Node} (wf : IsTopology t nodes) where
  pub steal_at :
      (pool : Pool) (p q : Planner) (r : StealResult) (out : Outcome (StealResult × Planner))
      → Steals t nodes pool p out
      → out ≡ ok (r, q)
      → Inv t nodes q × Stolen pool p r q
  steal_at pool p q r out (r', q', e', inv, st) e =
      let same : (r', q') ≡ (r, q) = cc in
      subst (λ (x : StealResult × Planner). Inv t nodes x.1 × Stolen pool p x.0 x.1) same (inv, st)

  steal-IsTracked :
      (pool : Pool) (r : StealResult) (s : Threads) (q : Planner)
      → ((i : ℕ) → is_system (pool.to_node i) ≡ true)
      → IsTracked t nodes s
      → Inv t nodes q
      → Stolen pool s.planner r q
      → IsTracked t nodes
          (record { planner = q; running = hand_out pool.to_node r s.running; ran = s.ran })
  unfolding hand_out count
  steal-IsTracked pool cycle_complete s q sys tr inv (same, none_left) = record {
    inv = inv;
    runs = λ n. rw same (tr.runs n);
    has_run = λ n. rw same (tr.has_run n);
  }
  steal-IsTracked pool pending_result s q sys tr inv (same, left, none_pending) = record {
    inv = inv;
    runs = λ n. rw same (tr.runs n);
    has_run = λ n. rw same (tr.has_run n);
  }
  steal-IsTracked pool (ready i) s q sys tr inv st = record {
    inv = inv;
    runs = λ n. elim (Bool-cases (node_eq n (pool.to_node i))) [
      | inl same ↦
          let e : pool.to_node i ≡ n = sym ((node_eq_iff n (pool.to_node i)).0 same) in
          ground (
            arith,
            same,
            tr.runs n,
            subst (λ m. s.planner.wakeup_state m ≡ some pending) e st.was_pending,
            subst (λ m. is_started (q.wakeup_state m) ≡ true) e st.now_started,
          )
      | inr other ↦ ground (arith, other, tr.runs n, st.others n, node_eq_iff n (pool.to_node i))
    ];
    has_run = λ n. rw (st.same_completed n) (tr.has_run n);
  }

  -- What a thread runs is a system that the planner started.
  pub runs_started :
      (s : Threads) (k : Node)
      → IsTracked t nodes s
      → 0 < count k s.running
      → s.planner.wakeup_state k ≡ some started
  runs_started s k tr on = ground (arith, tr.runs k)

  runs_system :
      (s : Threads) (k : Node) → IsTracked t nodes s → 0 < count k s.running → is_system k ≡ true
  runs_system s k tr on =
      ground
        (arith, tr.inv.balanced.each k, tr.inv.pooled.domain k, runs_started s k tr on, count_nil k)

  finish-IsTracked :
      (s : Threads) (k : Node) (q : Planner)
      → 0 < count k s.running
      → IsTracked t nodes s
      → Inv t nodes q
      → IsFinished s.planner q k
      → IsTracked t nodes (record { planner = q; running = take_off k s.running; ran = k ∷ s.ran })
  unfolding count
  finish-IsTracked s k q on tr inv fin = record {
    inv = inv;
    runs = λ n. elim (Bool-cases (node_eq n k)) [
      | inl same ↦
          rw ((node_eq_iff n k).0 same) (
            ground
              (arith, node_eq_refl k, tr.runs k, fin.finished, count-take_off k k s.running on))
      | inr other ↦
          ground (
            arith,
            other,
            tr.runs n,
            fin.others n,
            node_eq_iff n k,
            count-take_off n k s.running on,
          )
    ];
    has_run = λ n. elim (Bool-cases (node_eq n k)) [
      | inl same ↦
          let e : k ≡ n = sym ((node_eq_iff n k).0 same) in
          ground (
            arith,
            same,
            tr.has_run n,
            subst (λ m. is_system m ≡ true) e (runs_system s k tr on),
            subst (λ m. s.planner.wakeup_state m ≡ some started) e (runs_started s k tr on),
            subst (λ m. is_completed (q.wakeup_state m) ≡ true) e fin.finished,
          )
      | inr other ↦ ground (arith, other, tr.has_run n, fin.same_systems n, node_eq_iff n k)
    ];
  }

module _ {t : Topology} {nodes : List Node} {orders : List Order} (wf : IsTopology t nodes)
    (sched : IsSchedule nodes orders) (has : HasOrders t nodes orders) (fuel : ℕ)
    (long : length nodes ≤ fuel) (enough : fuel_bound t nodes ≤ fuel) where
  begin-IsTracked :
      (p : Planner) (pars : List ℕ)
      → build_initials fuel nodes orders t.dependents ≡ ok (p, pars)
      → IsTracked t nodes (record { planner = p; running = []; ran = [] })
  unfolding count
  begin-IsTracked p pars e =
      let (p', e', inv, idle, left) = build_initials_fresh wf sched has fuel long in
      let same : p' ≡ p = cc in
      subst (λ p. IsTracked t nodes (record { planner = p; running = []; ran = [] })) same
        (record {
          inv = inv;
          runs = λ n. ground (arith, idle n);
          has_run = λ n. ground (arith, left n);
        })

  Step-IsTracked : (s s' : Threads) → IsTracked t nodes s → Step fuel t s s' → IsTracked t nodes s'
  Step-IsTracked s s' tr (Step.take_send {r} {q} e) =
      let (inv, st) =
        steal_at wf send_pool s.planner q r _ (steal_send_lem wf s.planner tr.inv) e in
      steal-IsTracked wf send_pool r s q (λ i. refl) tr inv st
  Step-IsTracked s s' tr (Step.take_unsend {r} {q} e) =
      let (inv, st) =
        steal_at wf unsend_pool s.planner q r _ (steal_unsend_lem wf s.planner tr.inv) e in
      steal-IsTracked wf unsend_pool r s q (λ i. refl) tr inv st
  Step-IsTracked s s' tr (Step.come_back {k} {q} on e) =
      let (q', e', inv, fin) =
        complete_lem wf fuel s.planner k enough tr.inv (runs_started wf s k tr on) in
      let same : q' ≡ q = cc in
      let (inv', fin') = subst (λ q. Inv t nodes q × IsFinished s.planner q k) same (inv, fin) in
      finish-IsTracked wf s k q on tr inv' fin'

  pub Reach-IsTracked : (s : Threads) → Reach fuel t nodes orders s → IsTracked t nodes s
  Reach-IsTracked s (Reach.begin {p} {pars} e) = begin-IsTracked p pars e
  Reach-IsTracked s' (Reach.later {s} reach step) =
      Step-IsTracked s s' (Reach-IsTracked s reach) step
