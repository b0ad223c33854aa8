-- ===== src/Scheduler/Examples/Runs.antt =====
-- The planner's and the loop's theorems on the schedule of five nodes.
use dynec.Common.{◌<◌, ◌≤◌, ◌≡◌, refl, sym, some, arith, ok, subst, ◌⊎◌, sum_of}
use dynec.Common.OrdSet.{contains, remove, insert, pop_first}
use dynec.Scheduler.Defs.{send_system, started, node_eq}
use dynec.Scheduler.Planner.{
  Planner, StealResult, send_pool, unsend_pool, steal_send, steal_unsend, complete, block_all,
  block_state, exclusions_of, start_node, start_state, steal, unmark_runnable,
}
use dynec.Scheduler.Planner.Blocks.{fuel_bound}
use dynec.Scheduler.Planner.Invariant.{Inv}
use dynec.Scheduler.Planner.StealLaws.{Steals, steal_send_lem, steal_unsend_lem}
use dynec.Scheduler.Planner.Complete.{IsFinished, complete_lem}
use dynec.Scheduler.Planner.Safety.{Hands, no_deadlock}
use dynec.Scheduler.Executor.{main_worker}
use dynec.Scheduler.Topology.{build_initials}
use dynec.Scheduler.Executor.Cycle.{Cycles, main_worker_lem}
use dynec.Scheduler.Examples.{
  five_nodes, five_topology, five-IsTopology, five_rank, five-IsRanked, planner_of, start,
  start-Inv, start_idle,
}

-- The state after the first, then the second steal: systems 0 and 2 run.
abbrev pub one_running : Planner
one_running = planner_of (steal_send five_topology start) (λ r. r.1)

abbrev pub two_running : Planner
two_running = planner_of (steal_send five_topology one_running) (λ r. r.1)

Inv-steal_send :
    (p : Planner)
    → Inv five_topology five_nodes p
    → Inv five_topology five_nodes (planner_of (steal_send five_topology p) (λ r. r.1))
Inv-steal_send p inv =
    let (r, q, e, inv', st) = steal_send_lem five-IsTopology p inv in
    subst (λ o. Inv five_topology five_nodes (planner_of o (λ (r : StealResult × Planner). r.1)))
      (sym e) inv'

one_running-Inv : Inv five_topology five_nodes one_running
one_running-Inv = Inv-steal_send start start-Inv

two_running-Inv : Inv five_topology five_nodes two_running
two_running-Inv = Inv-steal_send one_running one_running-Inv

first_runs : two_running.wakeup_state (send_system 0) ≡ some started
unfolding steal_send build_initials steal node_eq pop_first insert start_node start_state
    exclusions_of block_all block_state unmark_runnable contains remove
first_runs = refl

-- The state after system 0 completes.
abbrev pub one_completed : Planner
one_completed = planner_of (complete 5 five_topology (send_system 0) two_running) (λ q. q)

pub bound : fuel_bound five_topology five_nodes ≤ 5
unfolding fuel_bound sum_of
bound = omega arith

one_completed-Inv : Inv five_topology five_nodes one_completed
one_completed-Inv =
    let (q, e, inv, fin) =
      complete_lem five-IsTopology 5 two_running (send_system 0) bound two_running-Inv first_runs in
    subst (λ o. Inv five_topology five_nodes (planner_of o (λ q. q))) (sym e) inv

four_left : start.remaining_systems ≡ 4
unfolding build_initials node_eq
four_left = refl

few : start.remaining_systems < 5
few = omega (arith, four_left)

main_worker_lem_example : Cycles five-IsTopology start (main_worker 5 5 five_topology 1 start)
main_worker_lem_example =
    main_worker_lem five-IsTopology five_rank five-IsRanked 5 bound 5 1 start few start-Inv
      start_idle

complete_lem_example :
    (q : Planner) × (complete 5 five_topology (send_system 0) two_running ≡ ok q)
    × Inv five_topology five_nodes q
    × IsFinished two_running q (send_system 0)
complete_lem_example =
    complete_lem five-IsTopology 5 two_running (send_system 0) bound two_running-Inv first_runs

steal_send_lem_example :
    Steals five_topology five_nodes send_pool one_running (steal_send five_topology one_running)
steal_send_lem_example = steal_send_lem five-IsTopology one_running one_running-Inv

steal_unsend_lem_example :
    Steals five_topology five_nodes unsend_pool one_completed
      (steal_unsend five_topology one_completed)
steal_unsend_lem_example = steal_unsend_lem five-IsTopology one_completed one_completed-Inv

no_deadlock_example :
    Hands (steal_send five_topology start) ⊎ Hands (steal_unsend five_topology start)
no_deadlock_example =
    no_deadlock five-IsTopology five_rank five-IsRanked start start-Inv start_idle
      (omega (arith, four_left))
