-- ===== src/Scheduler/Builder/Examples.antt =====
-- The registration of three systems.
use dynec.Common.{◌≡◌, List, [], ◌∷◌, ok}
use dynec.Scheduler.Defs.{Node, NodeMap}
use dynec.Scheduler.Topology.{build_dependents_map}
use dynec.Scheduler.Topology.Dependents.{IsSchedule}
use dynec.Scheduler.Builder.{run_before, run_after, new}
use dynec.Scheduler.Builder.Registered.{
  Registration, thread_safe, thread_unsafe, register_all, nodes_of, register_all-IsSchedule,
}

-- Two systems before partition 7, and a third after it.
abbrev three_systems : List Registration
three_systems =
    thread_safe (run_before 7 ∷ [])
    ∷ thread_unsafe (run_before 7 ∷ run_before 9 ∷ [])
    ∷ thread_safe (run_after 7 ∷ [])
    ∷ []

register_all-IsSchedule_example :
    IsSchedule
      (nodes_of (register_all three_systems (new 4)))
      (register_all three_systems (new 4)).orders
    × ((d : NodeMap (List Node)) × (build_dependents_map
            (nodes_of (register_all three_systems (new 4)))
            (register_all three_systems (new 4)).orders
          ≡ ok d))
register_all-IsSchedule_example = register_all-IsSchedule 4 three_systems
