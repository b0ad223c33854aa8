-- ===== src/Scheduler/Builder.antt =====
-- The registration of systems in `src/scheduler/builder.rs`. Partitions are told apart by a number, and of a
-- system only its place is kept; a hash map is the list of its entries.
pub mod Nodes
pub mod Registered
pub mod Build
pub mod Examples
use dynec.Common.{
  ℕ, zero, suc, ◌+◌, Bool, true, false, Option, none, some, List, [], ◌∷◌, ◌++◌, ◌==◌,
  if◌then◌else◌, Outcome, ok, panic, Panic, ◌>>=◌, length, get_elem?,
}
use dynec.Scheduler.Defs.{Node, send_system, unsend_system, partition, Order, node_eq}
use dynec.Scheduler.Access.{ResourceAccess, conflicts_with, any}
use dynec.Scheduler.Topology.{Accesses}

-- `spec::Dependency`, with the number of the partition.
pub data Dependency : Type 0 where
  run_before : ℕ → Dependency
  run_after : ℕ → Dependency

pub record Builder : Type 0 where
  pub concurrency : ℕ
  pub send_systems : ℕ
  pub unsend_systems : ℕ
  pub partitions : List ℕ
  pub resources : List (ℕ × List Accesses)
  pub orders : List Order

abbrev pub new : ℕ → Builder
new concurrency = record {
  concurrency = concurrency;
  send_systems = 0;
  unsend_systems = 0;
  partitions = [];
  resources = [];
  orders = [];
}

abbrev pub push_send_system : Builder → Node × Builder
push_send_system b = (send_system b.send_systems, record b { send_systems = b.send_systems + 1 })

abbrev pub push_unsend_system : Builder → Node × Builder
push_unsend_system b =
    (unsend_system b.unsend_systems, record b { unsend_systems = b.unsend_systems + 1 })

-- `IndexSet::insert_full`, from an index on: the index and the set.
unfoldable pub insert_full : ℕ → ℕ → List ℕ → ℕ × List ℕ
insert_full i par [] = (i, par ∷ [])
insert_full i par (p ∷ pars) =
    let rest = insert_full (suc i) par pars in
    if p == par then (i, p ∷ pars) else (rest.0, p ∷ rest.1)

unfoldable pub push_partition : ℕ → Builder → Node × Builder
unfolding insert_full
push_partition par b =
    let inserted = insert_full 0 par b.partitions in
    (partition inserted.0, record b { partitions = inserted.1 })

-- The entry of a node among the accesses to one resource.
unfoldable pub use_by : Node → ResourceAccess → List Accesses → Outcome (List Accesses)
unfolding any
use_by node access [] = ok ((node, access ∷ []) ∷ [])
use_by node access ((m, accesses) ∷ entries) =
    let rest = use_by node access entries in
    if node_eq m node
    then (if any (conflicts_with access) accesses
        then panic Panic.access_conflict
        else ok ((m, accesses ++ access ∷ []) ∷ entries))
    else (rest >>= λ entries'. ok ((m, accesses) ∷ entries'))

unfoldable pub use_in :
    Node → ℕ → ResourceAccess → List (ℕ × List Accesses) → Outcome (List (ℕ × List Accesses))
unfolding use_by
use_in node ty access [] = use_by node access [] >>= λ entry. ok ((ty, entry) ∷ [])
use_in node ty access ((t, entry) ∷ resources) =
    let rest = use_in node ty access resources in
    if t == ty
    then (use_by node access entry >>= λ entry'. ok ((t, entry') ∷ resources))
    else (rest >>= λ resources'. ok ((t, entry) ∷ resources'))

unfoldable pub use_resource : Node → ℕ → ResourceAccess → Builder → Outcome Builder
unfolding use_in
use_resource node ty access b =
    use_in node ty access b.resources >>= λ resources. ok (record b { resources = resources })

abbrev pub add_dependency : Node → Node → Builder → Builder
add_dependency before after b = record b {
  orders = b.orders ++ record { before = before; after = after } ∷ [];
}

-- One dependency of a system.
unfoldable pub depend : Dependency → Node → Builder → Builder
unfolding push_partition
depend (run_before par) system_node b =
    let pushed = push_partition par b in add_dependency system_node pushed.0 pushed.1
depend (run_after par) system_node b =
    let pushed = push_partition par b in add_dependency pushed.0 system_node pushed.1

unfoldable pub add_dependencies : List Dependency → Node → Builder → Builder
unfolding depend
add_dependencies [] system_node b = b
add_dependencies (dep ∷ deps) system_node b =
    add_dependencies deps system_node (depend dep system_node b)
