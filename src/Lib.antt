-- ===== src/Lib.antt =====
-- A verification library for dynec, an entity-component-system framework: the scheduler that runs
-- systems in cycles, the identifiers of entities, and the storages of components.
--
-- The parts and how they interact:
-- - Scheduler/Defs.antt and Scheduler/Access.antt: `Node`, `WakeupState`, `Order` and
--   `ResourceAccess` of src/scheduler.rs. A hash map keyed by nodes is its lookup function.
-- - Scheduler/Topology.antt with its children: the functions of src/scheduler/topology.rs that
--   build dependents, exclusions and the planner of a new cycle, and in Topology/Cycles.antt the scan
--   for cycles, under their names.
-- - Scheduler/Planner.antt with its children: the planner of src/scheduler/planner.rs, which hands
--   out systems (`steal_send`, `steal_unsend`) and takes them back (`complete`), over a topology.
--   Planner/Invariant.antt states what a topology guarantees, and the invariant `Inv`: every wakeup
--   state counts exactly the uncompleted predecessors and the running exclusive nodes, and the pools
--   hold exactly the pending systems. The other children are about the operations and the invariant.
-- - Scheduler/Builder.antt with its children: the registration of systems, partitions, resources
--   and orders in src/scheduler/builder.rs, and in Builder/Build.antt the functions `Topology::init`
--   and `build` that put a topology together from them.
-- - Scheduler/Executor.antt: the loop `main_worker` of src/scheduler/executor.rs on the main
--   thread, which steals, runs and completes systems until none remains. Executor/Cycle.antt is about
--   its run. Executor/Threads.antt has the main thread and the workers (`main_worker`,
--   `threaded_worker`) as steps on one planner, interleaved in any order, from the planner that
--   `execute_full_cycle` starts with; its children are about the states that they reach.
-- - Entity/Distribute.antt with its children: `distribute_sorted` of
--   src/entity/ealloc/recycling.rs, which levels free identifiers over shards.
-- - Entity/Raw.antt: the raw identifiers of src/entity/raw.rs and their atomic counter, below the
--   limit of the integer type.
-- - Entity/Recycler.antt: the stack and the B-tree recycler of
--   src/entity/ealloc/recycling/recycler.rs; Recycler/Laws.antt has the interface that the allocator
--   relies on, and an instance for each.
-- - Entity/Recycling.antt with its children: the allocator of src/entity/ealloc/recycling.rs over
--   any recycler: allocation, deallocation, `flush` and `snapshot`. Recycling/Sound.antt states that
--   each issued identifier is in exactly one place.
-- - Discrim.antt with its children: the discriminants and the maps keyed by them of
--   src/comp/discrim.rs, one file for `LinearVecMap`, `SortedVecMap`, `BoundedVecMap` (Bounded.antt),
--   `ArrayMap` (Array.antt) and for the maps of a discriminant set (Pairs.antt). Discrim/Full.antt
--   has the interface `FullMap` and its laws; Discrim/Agree.antt is about `get_storage` of
--   src/world/rw/isotope/read/full.rs, over any such map. A mutable reference is the slot of its
--   element; elements have a size, so that slots have different addresses.
-- - Entity/Snapshot.antt: snapshots of allocated identifiers and their slices, from
--   src/entity/ealloc/snapshot.rs, with `iter_gaps` of src/entity/ealloc.rs.
-- - Storage/Vec.antt: `VecStorage` of src/storage/vec.rs, and in Storage/Vec/Partition.antt its
--   partitions.
-- - Storage/Tree.antt: `Tree` of src/storage/tree.rs and its partitions; Tree/Runs.antt is about
--   both storages.
-- - Entity/Generation.antt and Entity/Rctrack.antt: the generations of identifiers of
--   src/entity/generation.rs and the store of strong references of src/entity/rctrack.rs.
-- - Util.antt: `is_all_distinct_quadtime` of src/util.rs.
-- - Common.antt with its children: tests, lists, outcomes and sums. An operation that can panic
--   returns an `Outcome`; each panic of the source is a constructor of `Panic`. A `BTreeSet` is its
--   increasing list, in Common/OrdSet.antt.
-- - The modules called Examples hold one run of each theorem on concrete inputs.
--
-- Numbers: a `usize` is a natural number. The block count of a node is checked against its limit
-- where the source checks it. The counter of identifiers and the generations wrap around as in the
-- source. Other additions and products do not wrap here; a subtraction below zero is a panic, as in
-- a build with overflow checks.
--
-- Fuel: `remove_one_block` and `complete` take the number of rounds of their queue loop.
-- `fuel_bound`, the number of all edges, is enough: a queue starts with edges of one node, and a
-- partition adds its own at most once, when it completes. `build_initials` takes the rounds of its
-- trimming loop, and the number of nodes is enough. `scan_cycles` takes its rounds and its depth of
-- recursion, and one more than the number of nodes is enough for both. `main_worker` takes its
-- rounds, and one more than the number of remaining systems is enough. `init` and `build` take the
-- larger of the first two. Running out is a panic of its own.
--
-- Not modelled: tracer calls, which have no effect on the state; the messages of panics; locks and
-- condition variables, since an operation of the planner is one step of a thread; a system that
-- panics, with the flag that stops the other threads; the world, other accessors and the remaining
-- storages; the choice of a shard, which is random in the source; the locks that shards are handed
-- out with, of which only the flag `exposed` is left.
pub mod Common
pub mod Scheduler
pub mod Entity
pub mod Discrim
pub mod Storage
pub mod Util
