-- ===== src/Scheduler/Builder/Build.antt =====
-- `Topology::init` of `src/scheduler/topology.rs` and `Builder::build` of `src/scheduler/builder.rs`. The fuel
-- is for the loops of the scan and of the initial planner.
use dynec.Common.{ℕ, List, [], ◌∷◌, Outcome, ok, ◌>>=◌, length}
use dynec.Scheduler.Defs.{Order}
use dynec.Scheduler.Planner.{Topology, Planner}
use dynec.Scheduler.Topology.{
  Accesses, node_list, build_dependents_map, build_initials, build_exclusions,
}
use dynec.Scheduler.Topology.Cycles.{scan_cycles}
use dynec.Scheduler.Builder.{Builder}

unfoldable pub init : ℕ → ℕ → ℕ → ℕ → List Order → List (List Accesses) → Outcome Topology
init fuel send_systems_count unsend_systems_count partitions_count orders resources =
    let nodes = node_list send_systems_count unsend_systems_count partitions_count in
    do
      dependents ← build_dependents_map nodes orders
      scanned ← scan_cycles fuel dependents nodes
      (initial_planner, depless_pars) ← build_initials fuel nodes orders dependents
      exclusions ← build_exclusions nodes resources
      ok (record {
        dependents = dependents;
        initial_planner = initial_planner;
        depless_pars = depless_pars;
        partitions = [];
        exclusions = exclusions;
      })

-- `resources.values()`
abbrev pub values : List (ℕ × List Accesses) → List (List Accesses)
values [] = []
values ((ty, entry) ∷ resources) = entry ∷ values resources

-- The topology and the planner of the first cycle.
unfoldable pub build : ℕ → Builder → Outcome (Topology × Planner)
unfolding init
build fuel b =
    init fuel b.send_systems b.unsend_systems (length b.partitions) b.orders (values b.resources)
    >>= λ topology. ok (record topology { partitions = b.partitions }, topology.initial_planner)
