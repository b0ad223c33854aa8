-- ===== src/Scheduler/Topology/Cycles.antt =====
-- `scan_cycles` of `src/scheduler/topology.rs`: a depth-first search that panics on a cycle. A set of
-- nodes is a list of them, `remaining` in the order of the nodes; the path in the message of the panic
-- is left out.
pub mod Search
pub mod Decides
use dynec.Common.{
  ℕ, zero, suc, Bool, List, [], ◌∷◌, ltb, if◌then◌else◌, Outcome, ok, panic, Panic, ◌>>=◌, expect,
}
use dynec.Scheduler.Defs.{Node, node_eq, NodeMap, count}
use dynec.Scheduler.Topology.{for_each}

pub record Scan : Type 0 where
  pub remaining : List Node
  pub exited : List Node
  pub stack : List Node

-- `contains` of a set.
abbrev pub has : Node → List Node → Bool
has n ns = ltb 0 (count n ns)

unfoldable pub remove_node : Node → List Node → List Node
remove_node n [] = []
remove_node n (m ∷ ms) = if node_eq n m then remove_node n ms else m ∷ remove_node n ms

-- What follows the loop over the dependents, with the stack as the last argument.
unfoldable pub leave : Node → Scan → List Node → Outcome Scan
leave node s [] = panic Panic.assertion_failed
leave node s (popped ∷ rest) =
    if node_eq node popped
    then if has node s.exited
      then panic Panic.assertion_failed
      else ok (record s { exited = node ∷ s.exited; stack = rest })
    else panic Panic.assertion_failed

unfoldable pub scan_cycles_from : ℕ → NodeMap (List Node) → Node → Scan → Outcome Scan
unfolding for_each leave remove_node
scan_cycles_from zero map node s = panic Panic.out_of_fuel
scan_cycles_from (suc fuel) map node s =
    let visit = expect (map node) Panic.invalid_node_index >>= λ dependents.
    for_each (scan_cycles_from fuel map) dependents
      (record s { remaining = remove_node node s.remaining; stack = node ∷ s.stack })
    >>= λ s'. leave node s' s'.stack in
    if has node s.exited
    then ok s
    else if has node s.remaining
    then visit
    else panic Panic.cyclic_dependency

-- `while let Some(&node) = remaining.iter().next()`
unfoldable pub scan_all : ℕ → ℕ → NodeMap (List Node) → List Node → Scan → Outcome Scan
unfolding scan_cycles_from
scan_all rounds fuel map [] s = ok s
scan_all zero fuel map (node ∷ _) s = panic Panic.out_of_fuel
scan_all (suc rounds) fuel map (node ∷ _) s =
    scan_cycles_from fuel map node s >>= λ s'. scan_all rounds fuel map s'.remaining s'

-- The keys of the map are the nodes.
unfoldable pub scan_cycles : ℕ → NodeMap (List Node) → List Node → Outcome Scan
unfolding scan_all
scan_cycles fuel map nodes =
    scan_all fuel fuel map nodes (record { remaining = nodes; exited = []; stack = [] })
