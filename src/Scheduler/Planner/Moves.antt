-- ===== src/Scheduler/Planner/Moves.antt =====
-- One change of one node's state keeps the wakeup states balanced.
use dynec.Common.{ℕ, ◌+◌, ◌-◌, ◌<◌, ◌≡◌, true, some, List, [], ◌∷◌, ◌++◌, arith}
use mathlib.Core.List.{reverse}
use dynec.Scheduler.Defs.{
  count-reverse, Node, node_eq_iff, is_system, WakeupState, blocked, pending, started, completed,
  NodeMap, update, count, count-append,
}
use dynec.Scheduler.Planner.{Topology}
use dynec.Scheduler.Planner.Blocks.{
  deps_of, excl_of, dep_weight, excl_weight, dep_blocks, excl_blocks, weigh-update,
}
use dynec.Scheduler.Planner.Invariant.{IsTopology, IsBalanced}

module _ {t : Topology} {nodes : List Node} (wf : IsTopology t nodes) (w : NodeMap WakeupState)
    (k : Node) (known : 0 < count k nodes) where
  once : count k nodes ≡ 1
  once = omega (arith, wf.distinct k)

  -- The two sums after a change at `k`.
  dep-update :
      (s : WakeupState) (n : Node)
      → dep_blocks t nodes (update w k s) n + dep_weight t n (w k) k
        ≡ dep_blocks t nodes w n + dep_weight t n (some s) k
  unfolding dep_blocks
  dep-update s n = weigh-update (dep_weight t n) w k s nodes once

  excl-update :
      (s : WakeupState) (n : Node)
      → excl_blocks t nodes (update w k s) n + excl_weight t n (w k) k
        ≡ excl_blocks t nodes w n + excl_weight t n (some s) k
  unfolding excl_blocks
  excl-update s n = weigh-update (excl_weight t n) w k s nodes once

  pub block_pending-IsBalanced :
      (due : List Node)
      → w k ≡ some pending
      → IsBalanced t nodes (k ∷ due) [] w
      → IsBalanced t nodes due [] (update w k (blocked 1))
  unfolding count
  block_pending-IsBalanced due e b = record {
    each = λ n h. ground (
      arith,
      b.each n h,
      dep-update (blocked 1) n,
      excl-update (blocked 1) n,
      node_eq_iff k n,
      node_eq_iff n k,
    );
  }

  pub block_again-IsBalanced :
      (due : List Node) (c : ℕ)
      → w k ≡ some (blocked c)
      → IsBalanced t nodes (k ∷ due) [] w
      → IsBalanced t nodes due [] (update w k (blocked (c + 1)))
  unfolding count
  block_again-IsBalanced due c e b = record {
    each = λ n h. ground (
      arith,
      b.each n h,
      dep-update (blocked (c + 1)) n,
      excl-update (blocked (c + 1)) n,
      node_eq_iff k n,
      node_eq_iff n k,
    );
  }

  pub block_completed-IsBalanced :
      (due : List Node)
      → w k ≡ some completed
      → IsBalanced t nodes (k ∷ due) [] w
      → IsBalanced t nodes due [] w
  unfolding count
  block_completed-IsBalanced due e b = record {
    each = λ n h. ground (arith, b.each n h, node_eq_iff n k);
  }

  -- A node that starts owes its exclusive nodes one block each.
  pub start-IsBalanced :
      w k ≡ some pending
      → IsBalanced t nodes [] [] w
      → IsBalanced t nodes (excl_of t k) [] (update w k started)
  unfolding count
  start-IsBalanced e b = record {
    each = λ n h. ground (
      arith,
      b.each n h,
      dep-update started n,
      excl-update started n,
      node_eq_iff k n,
      wf.irreflexive k,
    );
  }

  pub unblock_some-IsBalanced :
      (freed : List Node) (c : ℕ)
      → w k ≡ some (blocked c)
      → 1 < c
      → IsBalanced t nodes [] (k ∷ freed) w
      → IsBalanced t nodes [] freed (update w k (blocked (c - 1)))
  unfolding count
  unblock_some-IsBalanced freed c e m b = record {
    each = λ n h. ground (
      arith,
      b.each n h,
      dep-update (blocked (c - 1)) n,
      excl-update (blocked (c - 1)) n,
      node_eq_iff k n,
      node_eq_iff n k,
    );
  }

  pub unblock_completed-IsBalanced :
      (freed : List Node)
      → w k ≡ some completed
      → IsBalanced t nodes [] (k ∷ freed) w
      → IsBalanced t nodes [] freed w
  unfolding count
  unblock_completed-IsBalanced freed e b = record {
    each = λ n h. ground (arith, b.each n h, node_eq_iff n k);
  }

  -- A system that loses its last block is pending.
  pub wake_system-IsBalanced :
      (freed : List Node)
      → w k ≡ some (blocked 1)
      → is_system k ≡ true
      → IsBalanced t nodes [] (k ∷ freed) w
      → IsBalanced t nodes [] freed (update w k pending)
  unfolding count
  wake_system-IsBalanced freed e sys b = record {
    each = λ n h. ground (
      arith,
      b.each n h,
      dep-update pending n,
      excl-update pending n,
      node_eq_iff k n,
      node_eq_iff n k,
    );
  }

  -- A partition that loses its last block completes, and frees its dependents.
  pub wake_partition-IsBalanced :
      (freed : List Node)
      → w k ≡ some (blocked 1)
      → IsBalanced t nodes [] (k ∷ freed) w
      → IsBalanced t nodes [] (reverse (deps_of t k) ++ freed) (update w k completed)
  unfolding count
  wake_partition-IsBalanced freed e b = record {
    each = λ n h. ground (
      arith,
      b.each n h,
      dep-update completed n,
      excl-update completed n,
      node_eq_iff k n,
      node_eq_iff n k,
      count-append n (reverse (deps_of t k)) freed,
      count-reverse n (deps_of t k),
    );
  }

  -- A system that completes frees its dependents and its exclusive nodes.
  pub finish-IsBalanced :
      w k ≡ some started
      → IsBalanced t nodes [] [] w
      → IsBalanced t nodes []
          (reverse (deps_of t k) ++ reverse (excl_of t k))
          (update w k completed)
  unfolding count
  finish-IsBalanced e b = record {
    each = λ n h. ground (
      arith,
      b.each n h,
      dep-update completed n,
      excl-update completed n,
      node_eq_iff k n,
      count-append n (reverse (deps_of t k)) (reverse (excl_of t k)),
      count-reverse n (deps_of t k),
      count-reverse n (excl_of t k),
    );
  }
