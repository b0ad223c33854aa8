-- ===== src/Scheduler/Examples/Topologies.antt =====
-- The theorems on the topology's construction, on the schedule of five nodes.
use dynec.Common.{
  ℕ, panic, Panic, ◌⊎◌, ◌<◌, ◌≡◌, true, false, none, some, List, [], ◌∷◌, arith, ok, All,
}
use dynec.Scheduler.Defs.{Node, send_system, NodeMap, count, node_eq}
use dynec.Scheduler.Access.{ResourceAccess}
use dynec.Scheduler.Planner.{Planner}
use dynec.Scheduler.Planner.Invariant.{Inv}
use dynec.Scheduler.Planner.Steal.{is_started}
use dynec.Scheduler.Topology.{Accesses, build_initials, build_exclusions, build_dependents_map}
use dynec.Scheduler.Topology.Exclusions.{AreNodes, in_set, excludes, build_exclusions_lem}
use dynec.Scheduler.Topology.Dependents.{edges, build_dependents_map_lem}
use dynec.Scheduler.Topology.Cycles.{Scan, scan_cycles}
use dynec.Scheduler.Topology.Cycles.Search.{IsAcyclicBy}
use dynec.Scheduler.Topology.Cycles.Decides.{IsGraph, scan_cycles_lem}
use dynec.Scheduler.Topology.Initials.Ready.{build_initials_lem}
use dynec.Scheduler.Examples.{
  five_nodes, two_orders, two_dependents, five_topology, five-IsTopology, five-IsSchedule,
  five-HasOrders,
}

-- One resource that system 0 writes and system 1 reads in part.
abbrev writes : ResourceAccess
writes = record { mutable = true; discrim = none }

abbrev reads : ResourceAccess
reads = record { mutable = false; discrim = some (3 ∷ []) }

abbrev pub one_resource : List Accesses
one_resource = (send_system 0, writes ∷ []) ∷ (send_system 1, reads ∷ []) ∷ []

pub known : All (AreNodes five_nodes) (one_resource ∷ [])
unfolding count node_eq
known = ((omega arith, (omega arith, tt)), tt)

befores : All (λ o. 0 < count o.before five_nodes) two_orders
befores = five-IsSchedule.befores

build_initials_lem_example :
    (p : Planner) × (build_initials 5 five_nodes two_orders five_topology.dependents ≡ ok (p, []))
    × Inv five_topology five_nodes p
    × ((n : Node) → is_started (p.wakeup_state n) ≡ false)
build_initials_lem_example =
    build_initials_lem five-IsTopology five-IsSchedule five-HasOrders 5 (omega arith)

build_exclusions_lem_example :
    (ex : NodeMap (List Node)) × (build_exclusions five_nodes (one_resource ∷ []) ≡ ok ex)
    × ((n : Node) → 0 < count n five_nodes → (l : List Node) × (ex n ≡ some l))
    × ((n k : Node) → in_set ex n k ≡ excludes five_nodes (one_resource ∷ []) n k)
build_exclusions_lem_example = build_exclusions_lem five_nodes (one_resource ∷ []) known

build_dependents_map_lem_example :
    (d : NodeMap (List Node)) × (build_dependents_map five_nodes two_orders ≡ ok d)
    × ((m : Node)
        → 0 < count m five_nodes
        → (l : List Node) × (d m ≡ some l) × ((n : Node) → count n l ≡ edges two_orders m n))
    × ((m : Node) → count m five_nodes ≡ 0 → d m ≡ none)
build_dependents_map_lem_example = build_dependents_map_lem five_nodes two_orders befores

five-IsGraph : IsGraph two_dependents five_nodes
unfolding count node_eq
five-IsGraph = record {
  keys = λ n h.
      let (l, e) = five-IsTopology.dependents_known n h in
      (l, e, λ m k. five-IsTopology.dependents_nodes n m (ground (arith, e, k)));
  off = λ n h. ground (arith, h);
}

scan_cycles_lem_example :
    ((s' : Scan) × (scan_cycles 6 two_dependents five_nodes ≡ ok s')
      × ((rank : Node → ℕ) × IsAcyclicBy two_dependents rank))
    ⊎ ((scan_cycles 6 two_dependents five_nodes ≡ panic Panic.cyclic_dependency)
        × ((rank : Node → ℕ) → IsAcyclicBy two_dependents rank → ⊥))
scan_cycles_lem_example = scan_cycles_lem two_dependents five_nodes five-IsGraph 6 (omega arith)
