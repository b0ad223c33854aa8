-- ===== src/Scheduler/Builder/Registered.antt =====
-- The nodes and orders that a builder of `src/scheduler/builder.rs` has after registrations.
use dynec.Common.{ℕ, suc, ◌+◌, ◌≤◌, ◌<◌, ◌≡◌, refl, true, List, [], ◌∷◌, arith, length, ok}
use dynec.Scheduler.Defs.{Node, send_system, unsend_system, partition, is_system, NodeMap, count}
use dynec.Scheduler.Topology.{node_list, build_dependents_map}
use dynec.Scheduler.Topology.Dependents.{IsSchedule, build_dependents_map_lem}
use dynec.Scheduler.Builder.{
  Builder, Dependency, run_before, run_after, new, push_send_system, push_unsend_system,
  insert_full, push_partition, depend, add_dependencies,
}
use dynec.Scheduler.Builder.Nodes.{
  count-node_list, known_grows, node_list_distinct, IsSchedule-grow, IsSchedule-snoc,
}

abbrev pub nodes_of : Builder → List Node
nodes_of b = node_list b.send_systems b.unsend_systems (length b.partitions)

-- Where `insert_full` puts a partition.
insert_full_lem :
    (i par : ℕ) (pars : List ℕ)
    → (i ≤ (insert_full i par pars).0)
      × ((insert_full i par pars).0 < i + length (insert_full i par pars).1)
      × (length pars ≤ length (insert_full i par pars).1)
unfolding insert_full
insert_full_lem i par [] = (omega arith, omega arith, omega arith)
insert_full_lem i par (p ∷ pars) =
    let (low, high, grown) = insert_full_lem (suc i) par pars in ground (arith, low, high, grown)

-- A builder whose orders are a schedule of its nodes, one of which is the system `node`.
record IsBuilt (node : Node) (b : Builder) : Type 0 where
  pub schedule : IsSchedule (nodes_of b) b.orders
  pub known : 0 < count node (nodes_of b)

push_partition-IsBuilt :
    (par : ℕ) (node : Node) (b : Builder)
    → IsBuilt node b
    → IsBuilt node (push_partition par b).1
      × (0 < count (push_partition par b).0 (nodes_of (push_partition par b).1))
unfolding push_partition
push_partition-IsBuilt par node b h =
    let (low, high, grown) = insert_full_lem 0 par b.partitions in
    let old : ℕ = length b.partitions in
    let more : ℕ = length (insert_full 0 par b.partitions).1 in
    let place : ℕ = (insert_full 0 par b.partitions).0 in
    (
      record {
        schedule =
            IsSchedule-grow b.send_systems b.unsend_systems old b.send_systems b.unsend_systems more
              b.orders (omega arith) (omega arith) grown h.schedule;
        known =
            known_grows b.send_systems b.unsend_systems old b.send_systems b.unsend_systems more
              node (omega arith) (omega arith) grown h.known;
      },
      ground (arith, high, count-node_list b.send_systems b.unsend_systems more (partition place)),
    )

depend-IsBuilt :
    (dep : Dependency) (node : Node) (b : Builder)
    → is_system node ≡ true
    → IsBuilt node b
    → IsBuilt node (depend dep node b)
unfolding depend
depend-IsBuilt (run_before par) node b system h =
    let (h', there) = push_partition-IsBuilt par node b h in
    let b' : Builder = (push_partition par b).1 in
    record {
      schedule =
          IsSchedule-snoc (nodes_of b') b'.orders
            (record { before = node; after = (push_partition par b).0 }) h'.schedule h'.known there
            (λ e. absurd (ground (arith, e, system)));
      known = h'.known;
    }
depend-IsBuilt (run_after par) node b system h =
    let (h', there) = push_partition-IsBuilt par node b h in
    let b' : Builder = (push_partition par b).1 in
    record {
      schedule =
          IsSchedule-snoc (nodes_of b') b'.orders
            (record { before = (push_partition par b).0; after = node }) h'.schedule there h'.known
            (λ e. system);
      known = h'.known;
    }

add_dependencies-IsBuilt :
    (deps : List Dependency) (node : Node) (b : Builder)
    → is_system node ≡ true
    → IsBuilt node b
    → IsBuilt node (add_dependencies deps node b)
unfolding add_dependencies
add_dependencies-IsBuilt [] node b system h = h
add_dependencies-IsBuilt (dep ∷ deps) node b system h =
    add_dependencies-IsBuilt deps node (depend dep node b) system
      (depend-IsBuilt dep node b system h)

-- A system of either sort is pushed, and then its dependencies are added.
pub data Registration : Type 0 where
  thread_safe : List Dependency → Registration
  thread_unsafe : List Dependency → Registration

unfoldable pub register : Registration → Builder → Builder
register (thread_safe deps) b =
    let pushed = push_send_system b in add_dependencies deps pushed.0 pushed.1
register (thread_unsafe deps) b =
    let pushed = push_unsend_system b in add_dependencies deps pushed.0 pushed.1

unfoldable pub register_all : List Registration → Builder → Builder
unfolding register
register_all [] b = b
register_all (r ∷ rs) b = register_all rs (register r b)

register-IsSchedule :
    (r : Registration) (b : Builder)
    → IsSchedule (nodes_of b) b.orders
    → IsSchedule (nodes_of (register r b)) (register r b).orders
unfolding register
register-IsSchedule (thread_safe deps) b h =
    let b' : Builder = (push_send_system b).1 in
    (add_dependencies-IsBuilt deps (send_system b.send_systems) b' refl (record {
      schedule =
          IsSchedule-grow b.send_systems b.unsend_systems (length b.partitions) (b.send_systems + 1)
            b.unsend_systems (length b.partitions) b.orders (omega arith) (omega arith)
            (omega arith) h;
      known = ground (
        arith,
        count-node_list (b.send_systems + 1) b.unsend_systems (length b.partitions)
            (send_system b.send_systems),
      );
    })).schedule
register-IsSchedule (thread_unsafe deps) b h =
    let b' : Builder = (push_unsend_system b).1 in
    (add_dependencies-IsBuilt deps (unsend_system b.unsend_systems) b' refl (record {
      schedule =
          IsSchedule-grow b.send_systems b.unsend_systems (length b.partitions) b.send_systems
            (b.unsend_systems + 1) (length b.partitions) b.orders (omega arith) (omega arith)
            (omega arith) h;
      known = ground (
        arith,
        count-node_list b.send_systems (b.unsend_systems + 1) (length b.partitions)
            (unsend_system b.unsend_systems),
      );
    })).schedule

registrations :
    (rs : List Registration) (b : Builder)
    → IsSchedule (nodes_of b) b.orders
    → IsSchedule (nodes_of (register_all rs b)) (register_all rs b).orders
unfolding register_all
registrations [] b h = h
registrations (r ∷ rs) b h = registrations rs (register r b) (register-IsSchedule r b h)

-- After any registrations, from a new builder, the nodes of the topology are distinct, every order is
-- between two of them, and one of the two is a system; and `build_dependents_map` returns for these nodes
-- and orders.
pub register_all-IsSchedule :
    (concurrency : ℕ) (rs : List Registration)
    → IsSchedule
        (nodes_of (register_all rs (new concurrency)))
        (register_all rs (new concurrency)).orders
      × ((d : NodeMap (List Node)) × (build_dependents_map
              (nodes_of (register_all rs (new concurrency)))
              (register_all rs (new concurrency)).orders
            ≡ ok d))
register_all-IsSchedule concurrency rs =
    let h : IsSchedule (nodes_of (register_all rs (new concurrency)))
        (register_all rs (new concurrency)).orders =
      registrations rs (new concurrency) (record {
        distinct = node_list_distinct 0 0 0;
        befores = tt;
        afters = tt;
        bipartite = tt;
      }) in
    let (d, run, at, off) =
      build_dependents_map_lem (nodes_of (register_all rs (new concurrency)))
        (register_all rs (new concurrency)).orders h.befores in
    (h, (d, run))
