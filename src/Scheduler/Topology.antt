-- ===== src/Scheduler/Topology.antt =====
-- How the topology of a schedule is built: `src/scheduler/topology.rs`. A hash map iterates here in
-- the order of the node list, which is one of the orders that the source leaves open; names of nodes
-- for panic messages are left out.
pub mod Exclusions
pub mod Dependents
pub mod Initials
pub mod Cycles
use dynec.Common.{
  ℕ, zero, suc, ◌+◌, ◌-◌, Bool, true, false, not, ◌&&◌, Option, none, some, List, [], ◌∷◌, ◌++◌,
  map, ◌==◌, if◌then◌else◌, Outcome, ok, panic, Panic, ◌>>=◌, expect, sum_of, length,
}
use dynec.Common.OrdSet.{insert}
use dynec.Scheduler.Defs.{
  Node, send_system, unsend_system, partition, node_eq, is_system, Order, WakeupState, blocked,
  pending, completed, NodeMap, update, count,
}
use dynec.Scheduler.Access.{ResourceAccess, conflicts_with, any}
use dynec.Scheduler.Planner.{Topology, Planner}

unfoldable pub upto : ℕ → (ℕ → Node) → List Node
upto zero to_node = []
upto (suc n) to_node = upto n to_node ++ to_node n ∷ []

-- `nodes_iter`
unfoldable pub node_list : ℕ → ℕ → ℕ → List Node
unfolding upto
node_list sends unsends partitions =
    upto sends send_system ++ (upto unsends unsend_system ++ upto partitions partition)

-- `nodes.map(|node| (node, v)).collect()`
unfoldable pub collect {ℓ} : {V : Type ℓ} → V → List Node → NodeMap V
collect v [] n = none
collect v (m ∷ ms) n = if node_eq m n then some v else collect v ms n

unfoldable pub add_dependents : List Order → NodeMap (List Node) → Outcome (NodeMap (List Node))
add_dependents [] d = ok d
add_dependents (o ∷ orders) d = do
  l ← expect (d o.before) Panic.invalid_node_index
  add_dependents orders (update d o.before (l ++ o.after ∷ []))

unfoldable pub build_dependents_map : List Node → List Order → Outcome (NodeMap (List Node))
unfolding collect add_dependents
build_dependents_map nodes orders = add_dependents orders (collect [] nodes)

-- The accesses of each node to one resource.
abbrev pub Accesses : Type 0
Accesses = Node × List ResourceAccess

-- Some access of the one conflicts with some access of the other.
unfoldable pub conflicting : List ResourceAccess → List ResourceAccess → Bool
unfolding any
conflicting accesses1 accesses2 = any (λ access1. any (conflicts_with access1) accesses2) accesses1

-- `HashSet::insert`
unfoldable pub set_insert : Node → List Node → List Node
set_insert n ns = if count n ns == 0 then n ∷ ns else ns

unfoldable pub for_each {ℓ κ} :
    {A : Type ℓ} {S : Type κ} → (A → S → Outcome S) → List A → S → Outcome S
for_each f [] s = ok s
for_each f (x ∷ xs) s = f x s >>= for_each f xs

unfoldable pub exclude_pair :
    Accesses → Accesses → NodeMap (List Node) → Outcome (NodeMap (List Node))
unfolding conflicting set_insert
exclude_pair (node1, accesses1) (node2, accesses2) ex =
    if node_eq node1 node2
    then ok ex
    else if conflicting accesses1 accesses2
    then (expect (ex node1) Panic.invalid_node_index >>= λ l.
        ok (update ex node1 (set_insert node2 l)))
    else ok ex

unfoldable pub exclude_resource :
    List Accesses → NodeMap (List Node) → Outcome (NodeMap (List Node))
unfolding for_each exclude_pair
exclude_resource nodes = for_each (λ one. for_each (exclude_pair one) nodes) nodes

unfoldable pub build_exclusions : List Node → List (List Accesses) → Outcome (NodeMap (List Node))
unfolding exclude_resource for_each collect
build_exclusions nodes resources = for_each exclude_resource resources (collect [] nodes)

unfoldable pub count_dependencies : List Order → NodeMap ℕ → Outcome (NodeMap ℕ)
count_dependencies [] c = ok c
count_dependencies (o ∷ orders) c = do
  k ← expect (c o.after) Panic.invalid_node_index
  count_dependencies orders (update c o.after (k + 1))

-- `filter_map` of the partitions whose count is zero.
unfoldable pub depless : NodeMap ℕ → List Node → List ℕ
depless c [] = []
depless c (partition i ∷ ns) = elim (c (partition i)) [
  | some k ↦ if k == 0 then i ∷ depless c ns else depless c ns
  | none ↦ depless c ns
]
depless c (n ∷ ns) = depless c ns

abbrev pub push_partition : Node → List ℕ → List ℕ
push_partition (partition i) pars = i ∷ pars
push_partition _ pars = pars

unfoldable pub trim_dependents : List Node → NodeMap ℕ → List ℕ → Outcome (NodeMap ℕ × List ℕ)
trim_dependents [] c pars = ok (c, pars)
trim_dependents (n ∷ ns) c pars = do
  k ← expect (c n) Panic.invalid_node_index
  if k == 0
      then panic Panic.zero_dependency
      else trim_dependents ns (update c n (k - 1)) (push_partition n pars)

-- `while let Some(par) = depless_pars.pop()`
unfoldable pub trim : ℕ → NodeMap (List Node) → List ℕ → NodeMap ℕ → Outcome (NodeMap ℕ)
unfolding trim_dependents
trim fuel dependents [] c = ok c
trim zero dependents (par ∷ pars) c = panic Panic.out_of_fuel
trim (suc fuel) dependents (par ∷ pars) c =
    expect (dependents (partition par)) Panic.invalid_node_index >>= λ deps.
    trim_dependents deps c pars >>= λ r. trim fuel dependents r.1 r.0

-- The systems of one sort whose count is zero.
unfoldable pub runnable : (Node → Option ℕ) → NodeMap ℕ → List Node → List ℕ
runnable index c [] = []
runnable index c (n ∷ ns) = elim (index n) [
  | none ↦ runnable index c ns
  | some i ↦ elim (c n) [
    | none ↦ runnable index c ns
    | some k ↦ if k == 0 then insert i (runnable index c ns) else runnable index c ns
  ]
]

abbrev pub send_index : Node → Option ℕ
send_index (send_system i) = some i
send_index _ = none

abbrev pub unsend_index : Node → Option ℕ
unsend_index (unsend_system i) = some i
unsend_index _ = none

abbrev pub initial_state : Node → ℕ → WakeupState
initial_state n (suc k) = blocked (suc k)
initial_state (partition i) zero = completed
initial_state _ zero = pending

abbrev pub initial_wakeup : NodeMap ℕ → NodeMap WakeupState
initial_wakeup c n = elim (c n) [ none ↦ none | some k ↦ some (initial_state n k) ]

-- The planner of a new cycle; `depless_pars` has been popped until it is empty.
unfoldable pub build_initials :
    ℕ → List Node → List Order → NodeMap (List Node) → Outcome (Planner × List ℕ)
unfolding collect count_dependencies depless trim runnable sum_of
build_initials fuel nodes orders dependents = do
  c ← count_dependencies orders (collect 0 nodes)
  c' ← trim fuel dependents (depless c nodes) c
  ok (
    record {
      wakeup_state = initial_wakeup c';
      send_runnable = runnable send_index c' nodes;
      unsend_runnable = runnable unsend_index c' nodes;
      remaining_systems = sum_of (λ n. if is_system n then 1 else 0) nodes;
    },
    [],
  )
