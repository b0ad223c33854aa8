-- ===== src/Scheduler/Planner.antt =====
-- The planner: `src/scheduler/planner.rs`. Tracer calls have no effect on its state and are left
-- out, as is the wakeup of waiting threads at the end of `complete`.
pub mod Blocks
pub mod Invariant
pub mod Moves
pub mod Steal
pub mod StealLaws
pub mod Wake
pub mod Complete
pub mod Safety
use dynec.Common.{
  ℕ, zero, suc, ◌+◌, ◌-◌, ◌^◌, Option, none, some, List, [], ◌∷◌, ◌++◌, ◌==◌, ltb, if◌then◌else◌,
  Outcome, ok, panic, Panic, ◌>>=◌, expect, get_elem?,
}
use mathlib.Core.List.{reverse}
use dynec.Common.OrdSet.{contains, insert, remove, pop_first}
use dynec.Scheduler.Defs.{
  Node, send_system, unsend_system, partition, WakeupState, blocked, pending, started, completed,
  NodeMap, update,
}

pub record Planner : Type 0 where
  pub wakeup_state : NodeMap WakeupState
  pub send_runnable : List ℕ
  pub unsend_runnable : List ℕ
  pub remaining_systems : ℕ

-- A partition's value stands as a number.
pub record Topology : Type 0 where
  pub dependents : NodeMap (List Node)
  pub initial_planner : Planner
  pub depless_pars : List ℕ
  pub partitions : List ℕ
  pub exclusions : NodeMap (List Node)

pub data StealResult : Type 0 where
  ready : ℕ → StealResult
  pending_result : StealResult
  cycle_complete : StealResult

abbrev pub usize_limit : ℕ
usize_limit = 2 ^ 64

unfoldable pub dependents_of : Topology → Node → Outcome (List Node)
dependents_of t n = expect (t.dependents n) Panic.invalid_node_index

unfoldable pub exclusions_of : Topology → Node → Outcome (List Node)
exclusions_of t n = expect (t.exclusions n) Panic.invalid_node_index

-- `take(&index).expect(..)` on the pool of the node's sort.
unfoldable pub unmark_runnable : Node → Planner → Outcome Planner
unmark_runnable (send_system i) p =
    if contains i p.send_runnable
    then ok (record p { send_runnable = remove i p.send_runnable })
    else panic Panic.not_runnable
unmark_runnable (unsend_system i) p =
    if contains i p.unsend_runnable
    then ok (record p { unsend_runnable = remove i p.unsend_runnable })
    else panic Panic.not_runnable
unmark_runnable (partition i) p = panic Panic.partition_exclusive

-- The body of the loop over exclusive nodes in `steal`, by the state of the node.
unfoldable pub block_state : WakeupState → Node → Planner → Outcome Planner
block_state pending n p =
    unmark_runnable n (record p { wakeup_state = update p.wakeup_state n (blocked 1) })
block_state (blocked c) n p =
    if ltb (c + 1) usize_limit
    then ok (record p { wakeup_state = update p.wakeup_state n (blocked (c + 1)) })
    else panic Panic.count_overflow
block_state started n p = panic Panic.started_exclusive
block_state completed n p = ok p

unfoldable pub block_all : List Node → Planner → Outcome Planner
block_all [] p = ok p
block_all (n ∷ ns) p = do
  s ← expect (p.wakeup_state n) Panic.invalid_node_index
  q ← block_state s n p
  block_all ns q

-- `match state { Pending => *state = Started, _ => panic! }`
unfoldable pub start_state : WakeupState → Node → Planner → Outcome Planner
start_state pending n p = ok (record p { wakeup_state = update p.wakeup_state n started })
start_state _ n p = panic Panic.not_pending

unfoldable pub start_node : Topology → Node → Planner → Outcome Planner
start_node t n p = do
  s ← expect (p.wakeup_state n) Panic.invalid_node_index
  q ← start_state s n p
  excl ← exclusions_of t n
  block_all excl q

-- The accessor that `steal` takes as `pool`, with the constructor `to_node`.
pub record Pool : Type 0 where
  pub get : Planner → List ℕ
  pub put : Planner → List ℕ → Planner
  pub to_node : ℕ → Node

abbrev pub send_pool : Pool
send_pool = record {
  get = λ p. p.send_runnable;
  put = λ p s. record p { send_runnable = s };
  to_node = send_system;
}

abbrev pub unsend_pool : Pool
unsend_pool = record {
  get = λ p. p.unsend_runnable;
  put = λ p s. record p { unsend_runnable = s };
  to_node = unsend_system;
}

steal_from : Pool → Topology → Option (ℕ × List ℕ) → Planner → Outcome (StealResult × Planner)
steal_from pool t none p = ok (pending_result, p)
steal_from pool t (some (i, rest)) p = do
  q ← start_node t (pool.to_node i) (pool.put p rest)
  ok (ready i, q)

unfoldable pub steal : Pool → Topology → Planner → Outcome (StealResult × Planner)
unfolding steal_from
steal pool t p =
    if p.remaining_systems == 0
    then ok (cycle_complete, p)
    else steal_from pool t (pop_first (pool.get p)) p

unfoldable pub steal_send : Topology → Planner → Outcome (StealResult × Planner)
steal_send = steal send_pool

unfoldable pub steal_unsend : Topology → Planner → Outcome (StealResult × Planner)
steal_unsend = steal unsend_pool

-- A node whose last blocker is gone. The head of a queue is the end of the source's vector.
unfoldable pub wake : Topology → Node → List Node → Planner → Outcome (List Node × Planner)
wake t (send_system i) queue p =
    if contains i p.send_runnable
    then panic Panic.already_runnable
    else ok (
      queue,
      record p {
        wakeup_state = update p.wakeup_state (send_system i) pending;
        send_runnable = insert i p.send_runnable;
      },
    )
wake t (unsend_system i) queue p =
    if contains i p.unsend_runnable
    then panic Panic.already_runnable
    else ok (
      queue,
      record p {
        wakeup_state = update p.wakeup_state (unsend_system i) pending;
        unsend_runnable = insert i p.unsend_runnable;
      },
    )
wake t (partition i) queue p = do
  _ ← expect (get_elem? t.partitions i) Panic.invalid_node_index
  deps ← dependents_of t (partition i)
  ok (
    reverse deps ++ queue,
    record p { wakeup_state = update p.wakeup_state (partition i) completed },
  )

unfoldable pub unblock_state :
    WakeupState → Topology → Node → List Node → Planner → Outcome (List Node × Planner)
unblock_state (blocked c) t n queue p =
    if ltb 1 c
    then ok (queue, record p { wakeup_state = update p.wakeup_state n (blocked (c - 1)) })
    else if c == 1
    then wake t n queue p
    else panic Panic.not_blocked
unblock_state completed t n queue p = ok (queue, p)
unblock_state _ t n queue p = panic Panic.not_blocked

unfoldable pub remove_one_block_no_recursion :
    Topology → Node → List Node → Planner → Outcome (List Node × Planner)
remove_one_block_no_recursion t n queue p = do
  s ← expect (p.wakeup_state n) Panic.invalid_node_index
  unblock_state s t n queue p

-- `while let Some(node) = queue.pop()`
unfoldable pub remove_one_block : ℕ → Topology → List Node → Planner → Outcome Planner
remove_one_block fuel t [] p = ok p
remove_one_block zero t (n ∷ queue) p = panic Panic.out_of_fuel
remove_one_block (suc fuel) t (n ∷ queue) p =
    remove_one_block_no_recursion t n queue p >>= λ r. remove_one_block fuel t r.0 r.1

unfoldable pub finish_state : WakeupState → Node → Planner → Outcome Planner
finish_state started n p = ok (record p { wakeup_state = update p.wakeup_state n completed })
finish_state _ n p = panic Panic.not_started

unfoldable pub complete : ℕ → Topology → Node → Planner → Outcome Planner
complete fuel t n p = do
  s ← expect (p.wakeup_state n) Panic.invalid_node_index
  q ← finish_state s n p
  deps ← dependents_of t n
  q1 ← remove_one_block fuel t (reverse deps) q
  excl ← exclusions_of t n
  q2 ← remove_one_block fuel t (reverse excl) q1
  if q2.remaining_systems == 0
      then panic Panic.count_underflow
      else ok (record q2 { remaining_systems = q2.remaining_systems - 1 })
