-- ===== src/Scheduler/Planner/Blocks.antt =====
-- How much each node is held back, summed over the nodes that hold it back.
use dynec.Common.{
  ℕ, ◌+◌, ◌<◌, ◌≤◌, ◌≡◌, refl, Option, none, some, List, [], ◌∷◌, arith, if◌then◌else◌, sum_of,
  sum_of_le, length,
}
use dynec.Scheduler.Defs.{
  Node, node_eq_iff, is_system, WakeupState, started, completed, NodeMap, update, count, count_self,
  count_cons,
}
use dynec.Scheduler.Planner.{Topology}

abbrev list_of : Option (List Node) → List Node
list_of none = []
list_of (some l) = l

abbrev pub deps_of : Topology → Node → List Node
deps_of t n = list_of (t.dependents n)

abbrev pub excl_of : Topology → Node → List Node
excl_of t n = list_of (t.exclusions n)

-- How often node `m` in state `s` waits to release `n` as a dependent.
abbrev pub dep_weight : Topology → Node → Option WakeupState → Node → ℕ
dep_weight t n (some completed) m = 0
dep_weight t n _ m = count n (deps_of t m)

-- How often node `m` in state `s` excludes `n`.
abbrev pub excl_weight : Topology → Node → Option WakeupState → Node → ℕ
excl_weight t n (some started) m = count n (excl_of t m)
excl_weight t n _ m = 0

-- A system that is not completed counts as remaining.
abbrev pub live_weight : Option WakeupState → Node → ℕ
live_weight (some completed) m = 0
live_weight _ m = if is_system m then 1 else 0

-- The queue entries that a node can still bring.
abbrev pub fan_weight : Topology → Option WakeupState → Node → ℕ
fan_weight t (some completed) m = 0
fan_weight t _ m = length (deps_of t m)

-- The sum of a weight over all nodes in their current states.
unfoldable pub weigh : (Option WakeupState → Node → ℕ) → NodeMap WakeupState → List Node → ℕ
weigh g w nodes = sum_of (λ m. g (w m) m) nodes

module _ (g : Option WakeupState → Node → ℕ) (w : NodeMap WakeupState) (k : Node)
    (s : WakeupState) where
  weigh-update_absent :
      (nodes : List Node) → count k nodes ≡ 0 → weigh g (update w k s) nodes ≡ weigh g w nodes
  unfolding weigh sum_of count
  weigh-update_absent [] h = refl
  weigh-update_absent (m ∷ ms) h = ground (arith, weigh-update_absent ms)

  -- A new state at one node changes the sum by that node's weight.
  pub weigh-update :
      (nodes : List Node)
      → count k nodes ≡ 1
      → weigh g (update w k s) nodes + g (w k) k ≡ weigh g w nodes + g (some s) k
  unfolding weigh sum_of count
  weigh-update [] h = absurd (omega arith)
  weigh-update (m ∷ ms) h =
      ground (arith, weigh-update ms, weigh-update_absent ms, (node_eq_iff k m).0)

-- A node's own weight is part of the sum.
pub weigh_member :
    (g : Option WakeupState → Node → ℕ) (w : NodeMap WakeupState) (k : Node) (nodes : List Node)
    → 0 < count k nodes
    → g (w k) k ≤ weigh g w nodes
unfolding weigh sum_of count
weigh_member g w k [] h = absurd (omega arith)
weigh_member g w k (m ∷ ms) h = ground (arith, weigh_member g w k ms, (node_eq_iff k m).0)

-- A sum of zeros.
pub weigh_zero :
    (g : Option WakeupState → Node → ℕ) (w : NodeMap WakeupState) (nodes : List Node)
    → ((m : Node) → 0 < count m nodes → g (w m) m ≡ 0)
    → weigh g w nodes ≡ 0
unfolding weigh sum_of
weigh_zero g w [] h = refl
weigh_zero g w (m ∷ ms) h = omega (
  arith,
  h m (omega (arith, count_self m ms)),
  weigh_zero g w ms (λ n e. h n (omega (arith, count_cons n m ms, e))),
)

-- The blocks on `n` by nodes that have not completed, and by nodes that run.
unfoldable pub dep_blocks : Topology → List Node → NodeMap WakeupState → Node → ℕ
dep_blocks t nodes w n = weigh (dep_weight t n) w nodes

unfoldable pub excl_blocks : Topology → List Node → NodeMap WakeupState → Node → ℕ
excl_blocks t nodes w n = weigh (excl_weight t n) w nodes

unfoldable pub remaining : List Node → NodeMap WakeupState → ℕ
remaining nodes w = weigh live_weight w nodes

unfoldable pub fan_out : Topology → List Node → NodeMap WakeupState → ℕ
fan_out t nodes w = weigh (fan_weight t) w nodes

-- Fuel that always suffices: the fan-out of the whole topology.
unfoldable pub fuel_bound : Topology → List Node → ℕ
fuel_bound t nodes =
    sum_of (λ m. length (deps_of t m)) nodes + sum_of (λ m. length (excl_of t m)) nodes

sum_of_member :
    (f : Node → ℕ) (k : Node) (nodes : List Node) → 0 < count k nodes → f k ≤ sum_of f nodes
unfolding sum_of count
sum_of_member f k [] h = absurd (omega arith)
sum_of_member f k (m ∷ ms) h = ground (arith, sum_of_member f k ms, (node_eq_iff k m).0)

-- The queue that a completing node brings, with all that can be added to it, is within the bound.
pub fuel_bound-le :
    (t : Topology) (nodes : List Node) (w : NodeMap WakeupState) (k : Node)
    → 0 < count k nodes
    → (fan_out t nodes w ≤ fuel_bound t nodes)
      × (length (excl_of t k) + fan_out t nodes w ≤ fuel_bound t nodes)
unfolding fuel_bound fan_out weigh
fuel_bound-le t nodes w k h =
    let within =
      sum_of_le (λ m. fan_weight t (w m) m) (λ m. length (deps_of t m)) nodes
        (λ m. fan_le (w m) m) in
    (
      omega (arith, within),
      omega (arith, within, sum_of_member (λ m. length (excl_of t m)) k nodes h),
    )
  where
    fan_le : (s : Option WakeupState) (m : Node) → fan_weight t s m ≤ length (deps_of t m)
    fan_le s m = ground arith
