-- ===== src/Scheduler/Executor.antt =====
-- The worker loop of `src/scheduler/executor.rs` on the main thread, for an executor with no worker
-- threads (`poll_send` is true). A system's run changes nothing of the planner, and is taken to
-- return; the loop's result lists the systems in the order in which they ran.
pub mod Cycle
pub mod Threads
use dynec.Common.{
  ℕ, zero, suc, ◌-◌, ◌+◌, List, [], ◌∷◌, ◌==◌, if◌then◌else◌, Outcome, ok, panic, Panic, ◌>>=◌,
}
use dynec.Scheduler.Defs.{Node, send_system, unsend_system}
use dynec.Scheduler.Planner.{
  Topology, Planner, StealResult, ready, pending_result, cycle_complete, steal_send, steal_unsend,
  complete,
}

-- `DeadlockCounter` of a build with debug assertions: threads that do not wait.
unfoldable pub start_wait : ℕ → Outcome ℕ
start_wait count = if count == 1 then panic Panic.deadlock else ok (count - 1)

unfoldable pub end_wait : ℕ → ℕ → ℕ
end_wait count wakeups = count + wakeups

-- The systems that run later come behind `k`.
abbrev pub finish_run {ℓ} : {A : Type ℓ} → Node → Outcome (A × List Node) → Outcome (A × List Node)
finish_run k (ok (a, ran)) = ok (a, k ∷ ran)
finish_run k (panic e) = panic e

-- What follows a `steal_send` on the main thread, with the rest of the loop as a function. Nobody
-- waits on a single thread, so `complete` wakes none.
unfoldable pub on_send :
    ℕ
    → Topology
    → (ℕ → Planner → Outcome (Planner × List Node))
    → ℕ
    → StealResult × Planner
    → Outcome (Planner × List Node)
unfolding start_wait end_wait
on_send fuel t rest waiting (cycle_complete, p) = ok (p, [])
on_send fuel t rest waiting (pending_result, p) = do waiting' ← start_wait waiting; rest waiting' p
on_send fuel t rest waiting (ready i, p) =
    finish_run (send_system i)
      (complete fuel t (send_system i) p >>= λ q. rest (end_wait waiting 0) q)

unfoldable pub on_unsend :
    ℕ
    → Topology
    → (ℕ → Planner → Outcome (Planner × List Node))
    → ℕ
    → StealResult × Planner
    → Outcome (Planner × List Node)
unfolding on_send
on_unsend fuel t rest waiting (cycle_complete, p) = ok (p, [])
on_unsend fuel t rest waiting (pending_result, p) = do
  r ← steal_send t p
  on_send fuel t rest waiting r
on_unsend fuel t rest waiting (ready i, p) =
    finish_run (unsend_system i)
      (complete fuel t (unsend_system i) p >>= λ q. rest (end_wait waiting 0) q)

-- The loop, with fuel for its rounds, and fuel for the loops of `complete`.
unfoldable pub main_worker : ℕ → ℕ → Topology → ℕ → Planner → Outcome (Planner × List Node)
unfolding on_unsend
main_worker zero fuel t waiting p = panic Panic.out_of_fuel
main_worker (suc rounds) fuel t waiting p =
    steal_unsend t p >>= on_unsend fuel t (main_worker rounds fuel t) waiting
