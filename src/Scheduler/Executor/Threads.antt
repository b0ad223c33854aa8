-- ===== src/Scheduler/Executor/Threads.antt =====
-- The threads of `src/scheduler/executor.rs` over one planner: `main_worker` and `threaded_worker` as
-- steps that are interleaved in any order, on any number of threads. The planner's operations run
-- under its lock, so each is one step; a system runs between two of them. Waits on the condition
-- variable change nothing of the planner. The steps leave open which thread takes them and how many
-- threads there are, so they have the interleavings of every executor; no system panics.
pub mod Invariant
pub mod Safety
use dynec.Common.{ℕ, ◌<◌, ◌≡◌, List, [], ◌∷◌, if◌then◌else◌, Outcome, ok}
use dynec.Scheduler.Defs.{Node, send_system, unsend_system, node_eq, Order, count}
use dynec.Scheduler.Planner.{
  Topology, Planner, StealResult, ready, pending_result, cycle_complete, steal_send, steal_unsend,
  complete,
}
use dynec.Scheduler.Topology.{build_initials}

-- The shared planner, the systems that some thread runs, and those that have run, last first.
pub record Threads : Type 0 where
  pub planner : Planner
  pub running : List Node
  pub ran : List Node

-- The systems that run after a steal with this result.
unfoldable pub hand_out : (ℕ → Node) → StealResult → List Node → List Node
hand_out to_node (ready i) running = to_node i ∷ running
hand_out to_node pending_result running = running
hand_out to_node cycle_complete running = running

unfoldable pub take_off : Node → List Node → List Node
unfolding node_eq
take_off k [] = []
take_off k (n ∷ ns) = if node_eq k n then ns else n ∷ take_off k ns

-- What a thread does under the lock: a worker or the main thread steals a thread-safe system, the
-- main thread steals a thread-unsafe one, or a thread comes back with a system that has run.
pub data Step (fuel : ℕ) (t : Topology) (s : Threads) : Threads → Type 0 where
  take_send :
      {r : StealResult} {q : Planner}
      → steal_send t s.planner ≡ ok (r, q)
      → Step fuel t s
          (record { planner = q; running = hand_out send_system r s.running; ran = s.ran })
  take_unsend :
      {r : StealResult} {q : Planner}
      → steal_unsend t s.planner ≡ ok (r, q)
      → Step fuel t s
          (record { planner = q; running = hand_out unsend_system r s.running; ran = s.ran })
  come_back :
      {k : Node} {q : Planner}
      → 0 < count k s.running
      → complete fuel t k s.planner ≡ ok q
      → Step fuel t s (record { planner = q; running = take_off k s.running; ran = k ∷ s.ran })

-- The states of a cycle. It starts with the planner of `build_initials`, which is cloned.
pub data Reach (fuel : ℕ) (t : Topology) (nodes : List Node) (orders : List Order)
    : Threads → Type 0 where
  begin :
      {p : Planner} {pars : List ℕ}
      → build_initials fuel nodes orders t.dependents ≡ ok (p, pars)
      → Reach fuel t nodes orders (record { planner = p; running = []; ran = [] })
  later :
      {s s' : Threads}
      → Reach fuel t nodes orders s
      → Step fuel t s s'
      → Reach fuel t nodes orders s'
