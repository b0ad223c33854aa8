-- ===== src/Scheduler/Executor/Threads/Safety.antt =====
-- What holds in every state that the threads of an executor reach in a cycle.
use dynec.Common.{
  ℕ, ◌+◌, ◌<◌, ◌≤◌, ◌≡◌, refl, sym, ap, ◌∙◌, ◌||◌, true, false, some, List, [], ◌∷◌, arith, ◌==◌,
  ◌⊎◌, inl, inr, Outcome, ok, Bool-cases, if◌then◌else◌, length, All, subst,
}
use dynec.Scheduler.Defs.{Node, is_system, completed, Order, count, count_nil, count_self}
use dynec.Scheduler.Planner.{
  Topology, Planner, Pool, StealResult, cycle_complete, steal_send, steal, steal_unsend, send_pool,
  unsend_pool, complete,
}
use dynec.Scheduler.Planner.Blocks.{excl_of, fuel_bound}
use dynec.Scheduler.Planner.Invariant.{IsTopology, IsRanked}
use dynec.Scheduler.Planner.Steal.{is_started, is_completed}
use dynec.Scheduler.Planner.StealLaws.{Steals, steal_send_lem, steal_unsend_lem}
use dynec.Scheduler.Planner.Complete.{complete_lem}
use dynec.Scheduler.Planner.Safety.{exclusion_safe, all_completed, Hands, no_deadlock}
use dynec.Scheduler.Topology.{Accesses, build_exclusions}
use dynec.Scheduler.Topology.Dependents.{IsSchedule}
use dynec.Scheduler.Topology.Exclusions.{AreNodes, in_set, excludes, build_exclusions_lem}
use dynec.Scheduler.Topology.Initials.Ready.{HasOrders}
use dynec.Scheduler.Executor.Cycle.{PathTo, ancestors_done}
use dynec.Scheduler.Executor.Threads.Invariant.{IsTracked, runs_started, steal_at, Reach-IsTracked}
use dynec.Scheduler.Executor.Threads.{Threads, Reach}

-- The steals tell the thread that the cycle is complete.
abbrev pub IsOver : Topology → Planner → Type 0
IsOver t p =
    (q : Planner) × ((steal_send t p ≡ ok (cycle_complete, q))
      ⊎ (steal_unsend t p ≡ ok (cycle_complete, q)))

abbrev pub Returns {ℓ} : {A : Type ℓ} → Outcome A → Type ℓ
Returns out = (a : _) × (out ≡ ok a)

module _ {t : Topology} {nodes : List Node} {orders : List Order} (wf : IsTopology t nodes)
    (sched : IsSchedule nodes orders) (has : HasOrders t nodes orders) (fuel : ℕ)
    (long : length nodes ≤ fuel) (enough : fuel_bound t nodes ≤ fuel) where
  -- For orders that no two partitions share, a well-formed topology with their dependents, and enough
  -- fuel, in every state that the threads reach from the planner of `build_initials`, by any
  -- interleaving of steals and completions: a system that runs does so once at a time, and when the
  -- topology's exclusions are what `build_exclusions` makes of the nodes' accesses to the resources, no
  -- two systems that run have conflicting accesses to a resource.
  pub threads_exclusive :
      (resources : List (List Accesses)) (s : Threads) (k n : Node)
      → All (AreNodes nodes) resources
      → build_exclusions nodes resources ≡ ok t.exclusions
      → Reach fuel t nodes orders s
      → 0 < count k s.running
      → 0 < count n s.running
      → (count k s.running ≡ 1) × (excludes nodes resources k n ≡ false)
  threads_exclusive resources s k n known built reach on_k on_n =
      let tr = Reach-IsTracked wf sched has fuel long enough s reach in
      let (ex, e, keyed, exact) = build_exclusions_lem nodes resources known in
      let same : ex ≡ t.exclusions = cc in
      let excl : in_set t.exclusions k n ≡ excludes nodes resources k n =
        subst (λ ex. in_set ex k n ≡ excludes nodes resources k n) same (exact k n) in
      let alone : count n (excl_of t k) ≡ 0 =
        exclusion_safe wf s.planner k n tr.inv (runs_started wf s k tr on_k)
          (runs_started wf s n tr on_n) in
      (ground (arith, tr.runs k, on_k), sym excl ∙ ground (arith, alone))

  -- For orders that no two partitions share, a well-formed topology with their dependents, and enough
  -- fuel, in every state that the threads reach from the planner of `build_initials`, by any
  -- interleaving of steals and completions: a system `m` with a dependency path to a node `k` that runs
  -- or has run has itself run exactly once, and does not run; and `k` was begun only once.
  pub threads_ordered :
      (s : Threads) (m k : Node)
      → Reach fuel t nodes orders s
      → PathTo t nodes m k
      → is_system m ≡ true
      → 0 < count k s.running + count k s.ran
      → (count m s.running ≡ 0) × (count m s.ran ≡ 1) × (count k s.running + count k s.ran ≡ 1)
  threads_ordered s m k reach path sys seen =
      let tr = Reach-IsTracked wf sched has fuel long enough s reach in
      let begun : (is_started (s.planner.wakeup_state k) || is_completed (s.planner.wakeup_state k))
          ≡ true =
        ground (arith, tr.runs k, tr.has_run k) in
      let done = ancestors_done wf s.planner m tr.inv path begun in
      (
        ground (arith, tr.runs m, done),
        ground (arith, tr.has_run m, sys, done),
        ground (arith, tr.runs k, tr.has_run k, begun, seen),
      )

  over_left :
      (s : Threads) → IsTracked t nodes s → IsOver t s.planner → s.planner.remaining_systems ≡ 0
  over_left s tr (q, inl e) =
      let (inv, st) =
        steal_at wf send_pool s.planner q cycle_complete _ (steal_send_lem wf s.planner tr.inv) e in
      st.1
  over_left s tr (q, inr e) =
      let (inv, st) =
        steal_at wf unsend_pool s.planner q cycle_complete _ (steal_unsend_lem wf s.planner tr.inv)
          e in
      st.1

  -- For orders that no two partitions share, a well-formed topology with their dependents, and enough
  -- fuel, and dependencies that ascend along a rank, in every state that the threads reach from the
  -- planner of `build_initials`, by any interleaving of steals and completions: when a steal says that the
  -- cycle is complete, every node is completed and none runs, and each system has run exactly once.
  pub threads_complete :
      (rank : Node → ℕ) (s : Threads) (n : Node)
      → IsRanked t rank
      → Reach fuel t nodes orders s
      → IsOver t s.planner
      → 0 < count n nodes
      → (s.planner.wakeup_state n ≡ some completed)
        × (count n s.running ≡ 0)
        × (count n s.ran ≡ (if is_system n then 1 else 0))
  threads_complete rank s n ranked reach over known =
      let tr = Reach-IsTracked wf sched has fuel long enough s reach in
      let done = all_completed wf rank ranked s.planner tr.inv (over_left s tr over) n known in
      (done, ground (arith, tr.runs n, done), ground (arith, tr.has_run n, done))

  -- A steal finds that the cycle is complete as soon as no system remains.
  none_left-IsOver : (p : Planner) → (p.remaining_systems == 0) ≡ true → IsOver t p
  unfolding steal_send steal
  none_left-IsOver p none_left = (p, inl (ground (arith, none_left)))

  steal_returns :
      (pool : Pool) (p : Planner) {out : Outcome (StealResult × Planner)}
      → Steals t nodes pool p out
      → Returns out
  steal_returns pool p (r, q, e, inv, st) = ((r, q), e)

  unused-IsIdle :
      (s : Threads)
      → IsTracked t nodes s
      → s.running ≡ []
      → (n : Node) → is_started (s.planner.wakeup_state n) ≡ false
  unused-IsIdle s tr e n = ground (arith, tr.runs n, ap (count n) e, count_nil n)

  -- Over a list of running systems that is empty or not.
  busy :
      (rank : Node → ℕ) (s : Threads) (running : List Node)
      → IsRanked t rank
      → IsTracked t nodes s
      → 0 < s.planner.remaining_systems
      → s.running ≡ running
      → ((k : Node) × (0 < count k s.running) × Returns (complete fuel t k s.planner))
        ⊎ (Hands (steal_send t s.planner) ⊎ Hands (steal_unsend t s.planner))
  busy rank s [] ranked tr left e =
      inr (no_deadlock wf rank ranked s.planner tr.inv (unused-IsIdle s tr e) left)
  busy rank s (k ∷ ks) ranked tr left e =
      let on : 0 < count k s.running = omega (arith, ap (count k) e, count_self k ks) in
      let (q, e', inv, fin) =
        complete_lem wf fuel s.planner k enough tr.inv (runs_started wf s k tr on) in
      inl (k, on, (q, e'))

  -- For orders that no two partitions share, a well-formed topology with their dependents, and enough
  -- fuel, and dependencies that ascend along a rank, in every state that the threads reach from the
  -- planner of `build_initials`, by any interleaving of steals and completions: both steals return, and
  -- the cycle is complete, or some system runs and its completion returns, or a steal hands out a system.
  pub threads_progress :
      (rank : Node → ℕ) (s : Threads)
      → IsRanked t rank
      → Reach fuel t nodes orders s
      → Returns (steal_send t s.planner)
        × Returns (steal_unsend t s.planner)
        × (IsOver t s.planner
            ⊎ (((k : Node) × (0 < count k s.running) × Returns (complete fuel t k s.planner))
                ⊎ (Hands (steal_send t s.planner) ⊎ Hands (steal_unsend t s.planner))))
  threads_progress rank s ranked reach =
      let tr = Reach-IsTracked wf sched has fuel long enough s reach in
      (
        steal_returns send_pool s.planner (steal_send_lem wf s.planner tr.inv),
        steal_returns unsend_pool s.planner (steal_unsend_lem wf s.planner tr.inv),
        elim (Bool-cases (s.planner.remaining_systems == 0)) [
          | inl over ↦ inl (none_left-IsOver s.planner over)
          | inr left ↦ inr (busy rank s s.running ranked tr (ground (arith, left)) refl)
        ],
      )
