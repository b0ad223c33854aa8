-- ===== src/Scheduler/Examples.antt =====
-- A schedule of three thread-safe systems, one thread-unsafe system and one partition: the first
-- system comes before the partition, the partition before the thread-unsafe system, and the first
-- two systems access one resource.
pub mod Runs
pub mod Threads
pub mod Topologies
use dynec.Common.{
  ℕ, ◌+◌, ◌<◌, ◌≤◌, ◌≡◌, refl, sym, ap, Bool, true, false, Option, none, some, List, [], ◌∷◌, arith,
  ◌==◌, ltb, if◌then◌else◌, Outcome, ok, panic, subst, length, sum_of, get_elem?,
}
use dynec.Scheduler.Defs.{
  Node, send_system, unsend_system, partition, node_eq, is_system, Order, NodeMap, count,
}
use dynec.Scheduler.Access.{ResourceAccess}
use dynec.Scheduler.Planner.{Topology, Planner}
use dynec.Scheduler.Planner.Steal.{is_started}
use dynec.Scheduler.Planner.Blocks.{deps_of, excl_of}
use dynec.Scheduler.Planner.Invariant.{IsTopology, IsRanked, Inv}
use dynec.Scheduler.Topology.{Accesses, node_list, upto, build_initials}
use dynec.Scheduler.Topology.Dependents.{IsSchedule, edges}
use dynec.Scheduler.Topology.Initials.Ready.{HasOrders, build_initials_lem}

abbrev pub five_nodes : List Node
five_nodes = send_system 0 ∷ send_system 1 ∷ send_system 2 ∷ unsend_system 0 ∷ partition 0 ∷ []

abbrev pub two_orders : List Order
two_orders =
    record { before = send_system 0; after = partition 0 }
    ∷ record { before = partition 0; after = unsend_system 0 }
    ∷ []

abbrev pub two_dependents : NodeMap (List Node)
two_dependents (send_system i) =
    if ltb i 3 then some (if i == 0 then partition 0 ∷ [] else []) else none
two_dependents (unsend_system i) = if i == 0 then some [] else none
two_dependents (partition i) = if i == 0 then some (unsend_system 0 ∷ []) else none

abbrev pub one_exclusion : NodeMap (List Node)
one_exclusion (send_system i) =
    if ltb i 3
    then some (if i == 0 then send_system 1 ∷ [] else if i == 1 then send_system 0 ∷ [] else [])
    else none
one_exclusion (unsend_system i) = if i == 0 then some [] else none
one_exclusion (partition i) = if i == 0 then some [] else none

abbrev pub empty_planner : Planner
empty_planner = record {
  wakeup_state = λ _. none;
  send_runnable = [];
  unsend_runnable = [];
  remaining_systems = 0;
}

abbrev pub five_topology : Topology
five_topology = record {
  dependents = two_dependents;
  initial_planner = empty_planner;
  depless_pars = [];
  partitions = 7 ∷ [];
  exclusions = one_exclusion;
}

value_of {ℓ} : {A : Type ℓ} (o : Option A) → (o ≡ none → ⊥) → (a : A) × (o ≡ some a)
value_of none h = absurd (h refl)
value_of (some a) h = (a, refl)

pub five-IsTopology : IsTopology five_topology five_nodes
unfolding count node_eq sum_of
five-IsTopology = record {
  distinct = λ n. ground arith;
  dependents_known = λ n h. value_of (two_dependents n) (λ e. ground (arith, e));
  exclusions_known = λ n h. value_of (one_exclusion n) (λ e. ground (arith, e));
  dependents_nodes = λ n m h. ground arith;
  exclusions_nodes = λ n m h. ground arith;
  symmetric = λ n m h. ground arith;
  irreflexive = λ n. ground arith;
  exclusive_systems = λ n m h. ground arith;
  partitions_known =
      λ i h. value_of (get_elem? five_topology.partitions i) (λ e. ground (arith, e, index i h));
  small = λ n. ground arith;
}
  where
    index : (i : ℕ) → 0 < count (partition i) five_nodes → i ≡ 0
    index i h = ground arith

pub five-IsSchedule : IsSchedule five_nodes two_orders
unfolding count node_eq
five-IsSchedule = record {
  distinct = λ n. ground arith;
  befores = (omega arith, (omega arith, tt));
  afters = (omega arith, (omega arith, tt));
  bipartite = ((λ e. ground (arith, e)), ((λ e. refl), tt));
}

pub five-HasOrders : HasOrders five_topology five_nodes two_orders
unfolding count node_eq edges
five-HasOrders m n h = ground arith

abbrev pub five_rank : Node → ℕ
five_rank (send_system i) = 0
five_rank (partition i) = 1
five_rank (unsend_system i) = 2

pub five-IsRanked : IsRanked five_topology five_rank
unfolding count node_eq
five-IsRanked n m h = ground arith

-- The planner that an operation returned.
abbrev pub planner_of {ℓ} : {A : Type ℓ} → Outcome A → (A → Planner) → Planner
planner_of (ok a) get = get a
planner_of (panic e) get = empty_planner

abbrev pub start : Planner
start = planner_of (build_initials 5 five_nodes two_orders two_dependents) (λ r. r.0)

pub start-Inv : Inv five_topology five_nodes start
start-Inv =
    let (p, e, inv, idle) =
      build_initials_lem five-IsTopology five-IsSchedule five-HasOrders 5 (omega arith) in
    subst (Inv five_topology five_nodes)
      (sym (ap (λ o. planner_of o (λ (r : Planner × List ℕ). r.0)) e)) inv

pub start_idle : (n : Node) → is_started (start.wakeup_state n) ≡ false
start_idle =
    let (p, e, inv, idle) =
      build_initials_lem five-IsTopology five-IsSchedule five-HasOrders 5 (omega arith) in
    subst (λ (p : Planner). (n : Node) → is_started (p.wakeup_state n) ≡ false)
      (sym (ap (λ o. planner_of o (λ (r : Planner × List ℕ). r.0)) e)) idle
