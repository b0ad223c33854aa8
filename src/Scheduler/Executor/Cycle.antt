-- ===== src/Scheduler/Executor/Cycle.antt =====
-- A whole cycle on the main thread alone: it ends, runs each system once, and respects the order.
use dynec.Common.{
  ℕ, zero, suc, ◌+◌, ◌<◌, ◌≤◌, ◌≡◌, refl, true, false, ◌||◌, some, List, [], ◌∷◌, arith, inl, inr,
  Outcome, ok, ◌>>=◌, Bool-cases,
}
use dynec.Scheduler.Defs.{
  Node, send_system, unsend_system, node_eq, node_eq_iff, is_system, started, count, count_nil,
}
use dynec.Scheduler.Planner.{
  Topology, Planner, ready, pending_result, cycle_complete, steal_send, steal_unsend, send_pool,
  unsend_pool, complete,
}
use dynec.Scheduler.Planner.Blocks.{
  deps_of, dep_weight, dep_blocks, live_weight, remaining, weigh_member, fuel_bound,
}
use dynec.Scheduler.Planner.Invariant.{IsTopology, IsRanked, Inv, is_pending}
use dynec.Scheduler.Planner.Steal.{is_started, is_completed}
use dynec.Scheduler.Planner.StealLaws.{Steals, IsStarted, steal_send_lem, steal_unsend_lem}
use dynec.Scheduler.Planner.Complete.{IsFinished, complete_lem}
use dynec.Scheduler.Planner.Safety.{some_pending}
use dynec.Scheduler.Executor.{finish_run, on_send, on_unsend, main_worker}

-- `k` depends on `m`, directly or through other nodes.
pub data PathTo (t : Topology) (nodes : List Node) (m : Node) : Node → Type 0 where
  direct : {k : Node} → 0 < count m nodes → 0 < count k (deps_of t m) → PathTo t nodes m k
  through :
      {n k : Node}
      → PathTo t nodes m n
      → 0 < count n nodes
      → 0 < count k (deps_of t n)
      → PathTo t nodes m k

path_known :
    {t : Topology} {nodes : List Node} {m k : Node} → PathTo t nodes m k → 0 < count m nodes
path_known (direct known dep) = known
path_known (through path known dep) = path_known path

abbrev pub IsIdle : Planner → Type 0
IsIdle p = (n : Node) → is_started (p.wakeup_state n) ≡ false

-- No system runs at or after one that depends on it.
abbrev pub IsInOrder : Topology → List Node → List Node → Type 0
IsInOrder t nodes [] = Unit {0}
IsInOrder t nodes (k ∷ ran) =
    ((m : Node) → PathTo t nodes m k → count m (k ∷ ran) ≡ 0) × IsInOrder t nodes ran

-- What a cycle from `p` leaves: nothing runs or remains, each system that was left ran once, and
-- they ran in order.
pub record IsRun (t : Topology) (nodes : List Node) (p q : Planner) (ran : List Node) : Type 0 where
  pub inv : Inv t nodes q
  pub idle : IsIdle q
  pub none_left : q.remaining_systems ≡ 0
  pub once : (n : Node) → 0 < count n nodes → count n ran ≡ live_weight (p.wakeup_state n) n
  pub in_order : IsInOrder t nodes ran

module _ {t : Topology} {nodes : List Node} (wf : IsTopology t nodes) where
  predecessor_done :
      (p : Planner) (m k : Node)
      → Inv t nodes p
      → (is_started (p.wakeup_state k) || is_completed (p.wakeup_state k)) ≡ true
      → 0 < count m nodes
      → 0 < count k (deps_of t m)
      → is_completed (p.wakeup_state m) ≡ true
  unfolding dep_blocks
  predecessor_done p m k inv e known dep = ground (
    arith,
    inv.balanced.each k,
    inv.pooled.domain k,
    weigh_member (dep_weight t k) p.wakeup_state m nodes,
    count_nil k,
  )

  -- Over a well-formed topology, under the planner's invariant, every node with a dependency path to a
  -- started or completed node is completed.
  pub ancestors_done :
      (p : Planner) (m : Node) {k : Node}
      → Inv t nodes p
      → PathTo t nodes m k
      → (is_started (p.wakeup_state k) || is_completed (p.wakeup_state k)) ≡ true
      → is_completed (p.wakeup_state m) ≡ true
  ancestors_done p m {k} inv (direct known dep) e = predecessor_done p m k inv e known dep
  ancestors_done p m {k} inv (through {n} path known dep) e =
      ancestors_done p m inv path (ground (arith, predecessor_done p n k inv e known dep))

  finish-IsIdle :
      (p p1 q : Planner) (k : Node) → IsIdle p → IsStarted p p1 k → IsFinished p1 q k → IsIdle q
  finish-IsIdle p p1 q k idle st fin n = elim (Bool-cases (node_eq n k)) [
    | inl same ↦ rw ((node_eq_iff n k).0 same) (ground (arith, fin.finished))
    | inr other ↦ ground (arith, idle n, st.others n, fin.others n, node_eq_iff n k)
  ]

  -- One system's run in front of a run of the rest.
  cons-IsRun :
      (p p1 q r : Planner) (k : Node) (ran : List Node)
      → is_system k ≡ true
      → 0 < count k nodes
      → Inv t nodes p1
      → IsStarted p p1 k
      → IsFinished p1 q k
      → IsRun t nodes q r ran
      → IsRun t nodes p r (k ∷ ran)
  unfolding count
  cons-IsRun p p1 q r k ran sys known inv1 st fin run = record {
    inv = run.inv;
    idle = run.idle;
    none_left = run.none_left;
    once = λ n h. ground (
      arith,
      run.once n h,
      sys,
      node_eq_iff n k,
      st.was_pending,
      fin.finished,
      st.same_completed n,
      fin.same_systems n,
    );
    in_order = (
      λ m path. ground (
        arith,
        ancestors_done p1 m inv1 path (ground (arith, st.now_started)),
        fin.still_completed m,
        run_done m (path_known path),
        node_eq_iff m k,
        st.now_started,
      ),
      run.in_order,
    );
  }
    where
      run_done :
          (m : Node) → 0 < count m nodes → is_completed (q.wakeup_state m) ≡ true → count m ran ≡ 0
      run_done m h e = ground (arith, run.once m h)

  -- A loop that ends in a run from `p`.
  abbrev pub Cycles : Planner → Outcome (Planner × List Node) → Type 0
  Cycles p out = (r : Planner) × (ran : List Node) × (out ≡ ok (r, ran)) × IsRun t nodes p r ran

  done-Cycles :
      (p : Planner) → Inv t nodes p → IsIdle p → p.remaining_systems ≡ 0 → Cycles p (ok (p, []))
  unfolding remaining
  done-Cycles p inv idle done = (
    p,
    [],
    refl,
    record {
      inv = inv;
      idle = idle;
      none_left = done;
      once = λ n h. omega (
        arith,
        weigh_member live_weight p.wakeup_state n nodes h,
        inv.counted,
        done,
        count_nil n,
      );
      in_order = tt;
    },
  )

  -- A started system completes, and the loop goes on.
  ready-Cycles :
      (fuel : ℕ) (p p1 : Planner) (k : Node) (rest : Planner → Outcome (Planner × List Node))
      → fuel_bound t nodes ≤ fuel
      → is_system k ≡ true
      → IsIdle p
      → Inv t nodes p1
      → IsStarted p p1 k
      → ((q : Planner)
          → Inv t nodes q
          → IsIdle q
          → q.remaining_systems + 1 ≡ p.remaining_systems
          → Cycles q (rest q))
      → Cycles p (finish_run k (complete fuel t k p1 >>= rest))
  ready-Cycles fuel p p1 k rest enough sys idle inv1 st go =
      let runs : p1.wakeup_state k ≡ some started = ground (arith, st.now_started) in
      let (q, e, inv, fin) = complete_lem wf fuel p1 k enough inv1 runs in
      let (r, ran, e', run) =
        go q inv (finish-IsIdle p p1 q k idle st fin) (omega (arith, fin.fewer, st.same_counter)) in
      let known : 0 < count k nodes = ground (arith, inv1.pooled.domain k) in
      (r, k ∷ ran, ground (arith, e, e'), cons-IsRun p p1 q r k ran sys known inv1 st fin run)

  module _ (rank : Node → ℕ) (ranked : IsRanked t rank) (fuel : ℕ)
      (enough : fuel_bound t nodes ≤ fuel) where
    -- A loop that runs from every planner with fewer systems left.
    abbrev Rest : Planner → (ℕ → Planner → Outcome (Planner × List Node)) → Type 0
    Rest p rest =
        (waiting : ℕ) (q : Planner)
        → Inv t nodes q
        → IsIdle q
        → q.remaining_systems + 1 ≡ p.remaining_systems
        → Cycles q (rest waiting q)

    send_cases :
        (waiting : ℕ) (p : Planner) (rest : ℕ → Planner → Outcome (Planner × List Node))
        → Inv t nodes p
        → IsIdle p
        → 0 < p.remaining_systems
        → ((i : ℕ) → is_pending (p.wakeup_state (unsend_system i)) ≡ false)
        → Rest p rest
        → Steals t nodes send_pool p (steal_send t p)
        → Cycles p (steal_send t p >>= on_send fuel t rest waiting)
    unfolding on_send
    send_cases waiting p rest inv idle pos unsends go
          (cycle_complete, q, e, inv', (same, zero_left)) =
        absurd (omega (arith, zero_left, pos))
    send_cases waiting p rest inv idle pos unsends go (ready i, p1, e, inv1, st) = rw e (
        ready-Cycles fuel p p1 (send_system i) (rest (waiting + 0)) enough refl idle inv1 st
          (go (waiting + 0)))
    send_cases waiting p rest inv idle pos unsends go
          (pending_result, q, e, inv', (same, pos', sends)) =
        absurd (some_pending wf rank ranked p inv idle pos sends unsends)

    unsend_cases :
        (waiting : ℕ) (p : Planner) (rest : ℕ → Planner → Outcome (Planner × List Node))
        → Inv t nodes p
        → IsIdle p
        → Rest p rest
        → Steals t nodes unsend_pool p (steal_unsend t p)
        → Cycles p (steal_unsend t p >>= on_unsend fuel t rest waiting)
    unfolding on_unsend
    unsend_cases waiting p rest inv idle go (cycle_complete, q, e, inv', (same, zero_left)) =
        rw (e, same) (done-Cycles p inv idle zero_left)
    unsend_cases waiting p rest inv idle go (ready i, p1, e, inv1, st) = rw e (
        ready-Cycles fuel p p1 (unsend_system i) (rest (waiting + 0)) enough refl idle inv1 st
          (go (waiting + 0)))
    unsend_cases waiting p rest inv idle go (pending_result, q, e, inv', (same, pos, unsends)) =
        rw (e, same) (send_cases waiting p rest inv idle pos unsends go (steal_send_lem wf p inv))

    -- Over a well-formed topology whose dependencies ascend along a rank, from a planner under the
    -- invariant in which nothing runs, with more rounds than systems left and enough fuel for `complete`,
    -- the loop returns: the invariant holds, nothing runs or remains, every system that was left has run
    -- exactly once, and none ran before a system that it depends on.
    pub main_worker_lem :
        (rounds waiting : ℕ) (p : Planner)
        → p.remaining_systems < rounds
        → Inv t nodes p
        → IsIdle p
        → Cycles p (main_worker rounds fuel t waiting p)
    unfolding main_worker
    main_worker_lem zero waiting p lt inv idle = absurd (omega arith)
    main_worker_lem (suc rounds) waiting p lt inv idle =
        unsend_cases waiting p (main_worker rounds fuel t) inv idle
          (λ w q inv' idle' fewer. main_worker_lem rounds w q (omega arith) inv' idle')
          (steal_unsend_lem wf p inv)
