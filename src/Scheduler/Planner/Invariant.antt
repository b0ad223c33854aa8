-- ===== src/Scheduler/Planner/Invariant.antt =====
-- What a topology guarantees, and what the planner keeps true of its wakeup states.
use dynec.Common.{
  ℕ, ◌+◌, ◌<◌, ◌≤◌, ◌≡◌, Bool, true, false, Option, none, some, List, sum_of, sum_of_le, arith,
  get_elem?,
}
use dynec.Common.OrdSet.{contains, IsOrdered}
use dynec.Scheduler.Defs.{
  Node, send_system, unsend_system, partition, is_system, WakeupState, blocked, pending, started,
  completed, NodeMap, count,
}
use dynec.Scheduler.Planner.{Topology, Planner, usize_limit}
use dynec.Scheduler.Planner.Blocks.{
  deps_of, excl_of, dep_weight, excl_weight, dep_blocks, excl_blocks, remaining, weigh,
}

abbrev pub total_blocks : Topology → List Node → Node → ℕ
total_blocks t nodes n =
    sum_of (λ m. count n (deps_of t m)) nodes + sum_of (λ m. count n (excl_of t m)) nodes

-- A topology over `nodes`: closed, with symmetric exclusions among systems.
pub record IsTopology (t : Topology) (nodes : List Node) : Type 0 where
  pub distinct : (n : Node) → count n nodes ≤ 1
  pub dependents_known :
      (n : Node) → 0 < count n nodes → (l : List Node) × (t.dependents n ≡ some l)
  pub exclusions_known :
      (n : Node) → 0 < count n nodes → (l : List Node) × (t.exclusions n ≡ some l)
  pub dependents_nodes : (n m : Node) → 0 < count m (deps_of t n) → 0 < count m nodes
  pub exclusions_nodes : (n m : Node) → 0 < count m (excl_of t n) → 0 < count m nodes
  pub symmetric : (n m : Node) → 0 < count m (excl_of t n) → 0 < count n (excl_of t m)
  pub irreflexive : (n : Node) → count n (excl_of t n) ≡ 0
  pub exclusive_systems : (n m : Node) → 0 < count m (excl_of t n) → is_system m ≡ true
  pub partitions_known :
      (i : ℕ) → 0 < count (partition i) nodes → (x : ℕ) × (get_elem? t.partitions i ≡ some x)
  pub small : (n : Node) → total_blocks t nodes n < usize_limit

-- The dependency relation descends along a rank: it has no cycle.
abbrev pub IsRanked : Topology → (Node → ℕ) → Type 0
IsRanked t rank = (n m : Node) → 0 < count m (deps_of t n) → rank n < rank m

-- How a node's state accounts for the `all` blocks on it, `dep` of them by dependencies, when
-- `due` of them are not counted yet.
abbrev pub Account : Option WakeupState → Bool → ℕ → ℕ → ℕ → Type 0
Account none sys dep all due = ⊥
Account (some completed) sys dep all due = dep ≡ 0
Account (some (blocked c)) sys dep all due = (0 < c) × (c + due ≡ all)
Account (some pending) sys dep all due = (sys ≡ true) × (due ≡ all)
Account (some started) sys dep all due = (sys ≡ true) × (due ≡ all)

-- `due` lists blocks that are still to be counted, `freed` blocks that are still to be taken off.
pub record IsBalanced (t : Topology) (nodes : List Node) (due freed : List Node)
    (w : NodeMap WakeupState) : Type 0 where
  pub each :
      (n : Node)
      → 0 < count n nodes
      → Account
          (w n)
          (is_system n)
          (dep_blocks t nodes w n)
          (dep_blocks t nodes w n + excl_blocks t nodes w n + count n freed)
          (count n due)

abbrev pub is_pending : Option WakeupState → Bool
is_pending (some pending) = true
is_pending _ = false

-- The pools hold exactly the pending systems.
pub record IsPooled (nodes : List Node) (p : Planner) : Type 0 where
  pub sends : (i : ℕ) → contains i p.send_runnable ≡ is_pending (p.wakeup_state (send_system i))
  pub unsends :
      (i : ℕ) → contains i p.unsend_runnable ≡ is_pending (p.wakeup_state (unsend_system i))
  pub send_ordered : IsOrdered p.send_runnable
  pub unsend_ordered : IsOrdered p.unsend_runnable
  pub domain : (n : Node) → count n nodes ≡ 0 → p.wakeup_state n ≡ none

-- The planner's invariant, between two of its operations.
pub record Inv (t : Topology) (nodes : List Node) (p : Planner) : Type 0 where
  pub balanced : IsBalanced t nodes List.[] List.[] p.wakeup_state
  pub pooled : IsPooled nodes p
  pub counted : p.remaining_systems ≡ remaining nodes p.wakeup_state

-- Blocks never exceed the number of edges.
pub blocks-le :
    (t : Topology) (nodes : List Node) (w : NodeMap WakeupState) (n : Node)
    → dep_blocks t nodes w n + excl_blocks t nodes w n ≤ total_blocks t nodes n
unfolding dep_blocks excl_blocks weigh
blocks-le t nodes w n = omega (
  arith,
  sum_of_le (λ m. dep_weight t n (w m) m) (λ m. count n (deps_of t m)) nodes (λ m. dep_le (w m) m),
  sum_of_le (λ m. excl_weight t n (w m) m) (λ m. count n (excl_of t m)) nodes
      (λ m. excl_le (w m) m),
)
  where
    dep_le : (s : Option WakeupState) (m : Node) → dep_weight t n s m ≤ count n (deps_of t m)
    dep_le s m = ground arith

    excl_le : (s : Option WakeupState) (m : Node) → excl_weight t n s m ≤ count n (excl_of t m)
    excl_le s m = ground arith
