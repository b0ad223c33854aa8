-- ===== src/Scheduler/Examples/Threads.antt =====
-- A cycle of two threads on the schedule of five nodes: the first and the third system run side by
-- side, then the second one, then the thread-unsafe one behind the partition.
use mathlib.Core.Path.{fun_ext}
use dynec.Common.{
  ◌+◌, ◌<◌, ◌≤◌, ◌≡◌, refl, ap, ok, false, some, [], ◌∷◌, arith, ◌⊎◌, inl, if◌then◌else◌,
}
use dynec.Common.OrdSet.{contains, remove, insert, pop_first}
use dynec.Scheduler.Defs.{
  Node, send_system, unsend_system, partition, is_system, completed, count, node_eq,
}
use dynec.Scheduler.Access.{conflicts_with, check_conflicts_with, any, find, match_discrims, member}
use dynec.Scheduler.Planner.{
  ready, steal_send, steal_unsend, complete, block_all, block_state, dependents_of, exclusions_of,
  finish_state, remove_one_block, remove_one_block_no_recursion, start_node, start_state, steal,
  unblock_state, unmark_runnable, wake,
}
use dynec.Scheduler.Topology.{
  build_initials, conflicting, build_exclusions, exclude_resource, exclude_pair, for_each, collect,
  set_insert,
}
use dynec.Scheduler.Topology.Exclusions.{excludes}
use dynec.Scheduler.Planner.Safety.{Hands}
use dynec.Scheduler.Executor.Cycle.{PathTo, direct, through}
use dynec.Scheduler.Executor.Threads.{Threads, Step, Reach, hand_out, take_off}
use dynec.Scheduler.Executor.Threads.Safety.{
  IsOver, Returns, threads_exclusive, threads_ordered, threads_complete, threads_progress,
}
use dynec.Scheduler.Examples.{
  five_nodes, two_orders, five_topology, five-IsTopology, five-IsSchedule, five-HasOrders,
  five_rank, five-IsRanked, planner_of, start,
}
use dynec.Scheduler.Examples.Runs.{one_running, two_running, one_completed, bound}
use dynec.Scheduler.Examples.Topologies.{one_resource, known}

abbrev Reached : Threads → Type 0
Reached = Reach 5 five_topology five_nodes two_orders

abbrev s0 : Threads
s0 = record { planner = start; running = []; ran = [] }

abbrev s1 : Threads
s1 = record { planner = one_running; running = send_system 0 ∷ []; ran = [] }

abbrev s2 : Threads
s2 = record { planner = two_running; running = send_system 2 ∷ send_system 0 ∷ []; ran = [] }

abbrev s3 : Threads
s3 = record { planner = one_completed; running = send_system 2 ∷ []; ran = send_system 0 ∷ [] }

abbrev s4 : Threads
s4 = record {
  planner = planner_of (complete 5 five_topology (send_system 2) s3.planner) (λ q. q);
  running = [];
  ran = send_system 2 ∷ s3.ran;
}

abbrev s5 : Threads
s5 = record {
  planner = planner_of (steal_send five_topology s4.planner) (λ r. r.1);
  running = send_system 1 ∷ [];
  ran = s4.ran;
}

abbrev s6 : Threads
s6 = record {
  planner = planner_of (complete 5 five_topology (send_system 1) s5.planner) (λ q. q);
  running = [];
  ran = send_system 1 ∷ s5.ran;
}

abbrev s7 : Threads
s7 = record {
  planner = planner_of (steal_unsend five_topology s6.planner) (λ r. r.1);
  running = unsend_system 0 ∷ [];
  ran = s6.ran;
}

abbrev s8 : Threads
s8 = record {
  planner = planner_of (complete 5 five_topology (unsend_system 0) s7.planner) (λ q. q);
  running = [];
  ran = unsend_system 0 ∷ s7.ran;
}

r0 : Reached s0
unfolding build_initials node_eq
r0 = Reach.begin refl

r2 : Reached s2
unfolding steal_send build_initials steal node_eq pop_first insert start_node start_state
    exclusions_of block_all block_state unmark_runnable contains remove hand_out
r2 =
    Reach.later (Reach.later r0 (Step.take_send {r = ready 0} refl))
      (Step.take_send {r = ready 2} refl)

r4 : Reached s4
unfolding steal_send build_initials steal node_eq pop_first insert start_node start_state
    exclusions_of block_all block_state unmark_runnable contains remove hand_out complete
    finish_state dependents_of remove_one_block remove_one_block_no_recursion unblock_state wake
    take_off count
r4 =
    Reach.later (Reach.later r2 (Step.come_back {k = send_system 0} (omega arith) refl))
      (Step.come_back {k = send_system 2} (omega arith) refl)

r6 : Reached s6
unfolding steal_send build_initials steal node_eq pop_first insert start_node start_state
    exclusions_of block_all block_state unmark_runnable contains remove hand_out complete
    finish_state dependents_of remove_one_block remove_one_block_no_recursion unblock_state wake
    take_off count
r6 =
    Reach.later (Reach.later r4 (Step.take_send {r = ready 1} refl))
      (Step.come_back {k = send_system 1} (omega arith) refl)

r7 : Reached s7
unfolding steal_send steal_unsend build_initials steal node_eq pop_first insert start_node
    start_state exclusions_of block_all block_state unmark_runnable contains remove hand_out
    complete finish_state dependents_of remove_one_block remove_one_block_no_recursion unblock_state
    wake take_off count
r7 = Reach.later r6 (Step.take_unsend {r = ready 0} refl)

r8 : Reached s8
unfolding steal_send steal_unsend build_initials steal node_eq pop_first insert start_node
    start_state exclusions_of block_all block_state unmark_runnable contains remove hand_out
    complete finish_state dependents_of remove_one_block remove_one_block_no_recursion unblock_state
    wake take_off count
r8 = Reach.later r7 (Step.come_back {k = unsend_system 0} (omega arith) refl)

path : PathTo five_topology five_nodes (send_system 0) (unsend_system 0)
unfolding count node_eq
path = through (direct {k = partition 0} (omega arith) (omega arith)) (omega arith) (omega arith)

long : 5 ≤ 5
long = omega arith

over : IsOver five_topology s8.planner
unfolding steal_send steal_unsend build_initials steal node_eq pop_first insert start_node
    start_state exclusions_of block_all block_state unmark_runnable contains remove hand_out
    complete finish_state dependents_of remove_one_block remove_one_block_no_recursion unblock_state
    wake take_off count
over = (s8.planner, inl refl)

first_on : 0 < count (send_system 0) s2.running
unfolding count node_eq
first_on = omega arith

second_on : 0 < count (send_system 2) s2.running
unfolding count node_eq
second_on = omega arith

last_on : 0 < count (unsend_system 0) s7.running + count (unsend_system 0) s7.ran
unfolding count node_eq
last_on = omega arith

partition_known : 0 < count (partition 0) five_nodes
unfolding count node_eq
partition_known = omega arith

five_built : build_exclusions five_nodes (one_resource ∷ []) ≡ ok five_topology.exclusions
unfolding count node_eq any find match_discrims member check_conflicts_with conflicts_with
    conflicting build_exclusions exclude_resource exclude_pair for_each collect set_insert
five_built = ap ok (fun_ext λ n. ground arith)

threads_exclusive_example :
    (count (send_system 0) s2.running ≡ 1)
    × (excludes five_nodes (one_resource ∷ []) (send_system 0) (send_system 2) ≡ false)
threads_exclusive_example =
    threads_exclusive five-IsTopology five-IsSchedule five-HasOrders 5 long bound
      (one_resource ∷ []) s2 (send_system 0) (send_system 2) known five_built r2 first_on second_on

threads_ordered_example :
    (count (send_system 0) s7.running ≡ 0)
    × (count (send_system 0) s7.ran ≡ 1)
    × (count (unsend_system 0) s7.running + count (unsend_system 0) s7.ran ≡ 1)
threads_ordered_example =
    threads_ordered five-IsTopology five-IsSchedule five-HasOrders 5 long bound s7 (send_system 0)
      (unsend_system 0) r7 path refl last_on

threads_complete_example :
    (s8.planner.wakeup_state (partition 0) ≡ some completed)
    × (count (partition 0) s8.running ≡ 0)
    × (count (partition 0) s8.ran ≡ (if is_system (partition 0) then 1 else 0))
threads_complete_example =
    threads_complete five-IsTopology five-IsSchedule five-HasOrders 5 long bound five_rank s8
      (partition 0) five-IsRanked r8 over partition_known

threads_progress_example :
    Returns (steal_send five_topology s4.planner)
    × Returns (steal_unsend five_topology s4.planner)
    × (IsOver five_topology s4.planner
        ⊎ (((k : Node) × (0 < count k s4.running) × Returns (complete 5 five_topology k s4.planner))
            ⊎ (Hands (steal_send five_topology s4.planner)
                ⊎ Hands (steal_unsend five_topology s4.planner))))
threads_progress_example =
    threads_progress five-IsTopology five-IsSchedule five-HasOrders 5 long bound five_rank s4
      five-IsRanked r4
