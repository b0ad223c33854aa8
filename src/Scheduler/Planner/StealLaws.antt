-- ===== src/Scheduler/Planner/StealLaws.antt =====
-- `steal` as a whole: it never panics under the invariant, keeps it, and starts one pending system.
use mathlib.Core.Path.{subst}
use dynec.Common.{
  ℕ, ◌<◌, ◌≡◌, refl, ap, ◌∙◌, true, false, some, List, [], ◌∷◌, arith, ◌≢◌, inl, inr, Outcome, ok,
  Bool-cases, ◌==◌,
}
use dynec.Common.OrdSet.{contains, pop_first, IsOrdered, Above-IsOrdered, contains-first}
use dynec.Scheduler.Defs.{
  Node, send_system, unsend_system, node_eq, node_eq_iff, node_eq_refl, WakeupState, pending,
  started, NodeMap, update, count, count_nil,
}
use dynec.Scheduler.Planner.{
  Topology, Planner, Pool, send_pool, unsend_pool, StealResult, ready, pending_result,
  cycle_complete, start_state, start_node, exclusions_of, steal_from, steal, steal_send,
  steal_unsend,
}
use dynec.Scheduler.Planner.Blocks.{
  excl_of, live_weight, excl_blocks, excl_weight, remaining, weigh, weigh-update, weigh_member,
}
use dynec.Scheduler.Planner.Invariant.{IsTopology, IsBalanced, IsPooled, Inv, is_pending}
use dynec.Scheduler.Planner.Moves.{start-IsBalanced}
use dynec.Scheduler.Planner.Steal.{is_started, is_completed, NoneStarted, block_all_lem}

-- Node `k` was pending in `p` and runs in `q`; no other node starts, and none completes.
pub record IsStarted (p q : Planner) (k : Node) : Type 0 where
  pub was_pending : p.wakeup_state k ≡ some pending
  pub now_started : is_started (q.wakeup_state k) ≡ true
  pub others : (n : Node) → n ≢ k → is_started (q.wakeup_state n) ≡ is_started (p.wakeup_state n)
  pub same_completed :
      (n : Node) → is_completed (q.wakeup_state n) ≡ is_completed (p.wakeup_state n)
  pub same_counter : q.remaining_systems ≡ p.remaining_systems

-- What `steal` on a pool did, by its result.
abbrev pub Stolen : Pool → Planner → StealResult → Planner → Type 0
Stolen pool p cycle_complete q = (q ≡ p) × (p.remaining_systems ≡ 0)
Stolen pool p pending_result q =
    (q ≡ p)
    × (0 < p.remaining_systems)
    × ((i : ℕ) → is_pending (p.wakeup_state (pool.to_node i)) ≡ false)
Stolen pool p (ready i) q = IsStarted p q (pool.to_node i)

-- A steal that returns, keeps the invariant, and did what its result says.
abbrev pub Steals : Topology → List Node → Pool → Planner → Outcome (StealResult × Planner) → Type 0
Steals t nodes pool p out =
    (r : StealResult) × (q : Planner) × (out ≡ ok (r, q)) × Inv t nodes q × Stolen pool p r q

module _ {t : Topology} {nodes : List Node} (wf : IsTopology t nodes) where
  -- A pending node has no exclusive node that runs.
  pub pending_alone :
      (p : Planner) (k n : Node)
      → IsBalanced t nodes [] [] p.wakeup_state
      → 0 < count k nodes
      → p.wakeup_state k ≡ some pending
      → 0 < count n (excl_of t k)
      → is_started (p.wakeup_state n) ≡ false
  unfolding excl_blocks
  pending_alone p k n b known e h = ground (
    arith,
    b.each k known,
    wf.symmetric k n h,
    wf.exclusions_nodes k n h,
    weigh_member (excl_weight t k) p.wakeup_state n nodes,
    count_nil k,
  )

  start_lem :
      (p p' : Planner) (k : Node)
      → 0 < count k nodes
      → p.wakeup_state k ≡ some pending
      → Inv t nodes p
      → p'.wakeup_state ≡ p.wakeup_state
      → p'.remaining_systems ≡ p.remaining_systems
      → IsPooled nodes (record p' { wakeup_state = update p'.wakeup_state k started })
      → (q : Planner) × (start_node t k p' ≡ ok q) × Inv t nodes q × IsStarted p q k
  unfolding start_node start_state exclusions_of remaining
  start_lem p p' k known e inv same same_counter v =
      let w1 = update p'.wakeup_state k started in
      let (q, e2, v2, b2, r) =
        block_all_lem wf (excl_of t k) (record p' { wakeup_state = w1 }) (wf.exclusions_nodes k)
          (wf.exclusive_systems k) idle v
          (rw same (start-IsBalanced wf p.wakeup_state k known e inv.balanced)) in
      let (l, el) = wf.exclusions_known k known in
      (
        q,
        ground (arith, el, e2, ap (λ (w : NodeMap WakeupState). w k) same),
        record {
          balanced = b2;
          pooled = v2;
          counted = ground (arith, r.same_counter, r.same_live, same_counter, inv.counted, live);
        },
        record {
          was_pending = e;
          now_started = ground (arith, r.same_started k, node_eq_refl k);
          others = λ n ne. ground (arith, r.same_started n, node_eq_iff k n, at n);
          same_completed = λ n. ground (arith, r.same_completed n, node_eq_iff k n, at n);
          same_counter = r.same_counter ∙ same_counter;
        },
      )
    where
      at : (n : Node) → p'.wakeup_state n ≡ p.wakeup_state n
      at n = ap (λ (w : NodeMap WakeupState). w n) same

      idle :
          NoneStarted (excl_of t k) (record p' { wakeup_state = update p'.wakeup_state k started })
      idle n h = ground (
        arith,
        pending_alone p k n inv.balanced known e h,
        node_eq_iff k n,
        wf.irreflexive k,
        at n,
      )

      live :
          weigh live_weight (update p'.wakeup_state k started) nodes
          ≡ weigh live_weight p.wakeup_state nodes
      live = rw same (
          ground (
            arith,
            weigh-update live_weight p.wakeup_state k started nodes (omega (arith, wf.distinct k)),
          ))

  pending_known :
      (p : Planner) (k : Node)
      → IsPooled nodes p
      → is_pending (p.wakeup_state k) ≡ true
      → (0 < count k nodes) × (p.wakeup_state k ≡ some pending)
  pending_known p k v h = ground (arith, v.domain k)

  pop_send :
      (p : Planner) (i : ℕ) (rest : List ℕ)
      → p.send_runnable ≡ i ∷ rest
      → IsPooled nodes p
      → is_pending (p.wakeup_state (send_system i)) ≡ true
        × IsPooled nodes (record p {
          send_runnable = rest;
          wakeup_state = update p.wakeup_state (send_system i) started;
        })
  unfolding node_eq contains
  pop_send p i rest e v = (
    ground (arith, v.sends i),
    record {
      sends = λ j.
          ground (arith, v.sends j, contains-first j i rest (subst IsOrdered e v.send_ordered));
      unsends = v.unsends;
      send_ordered = Above-IsOrdered i rest (subst IsOrdered e v.send_ordered);
      unsend_ordered = v.unsend_ordered;
      domain = λ n h. ground (arith, v.domain n h, v.sends i, node_eq_iff (send_system i) n);
    },
  )

  pop_unsend :
      (p : Planner) (i : ℕ) (rest : List ℕ)
      → p.unsend_runnable ≡ i ∷ rest
      → IsPooled nodes p
      → is_pending (p.wakeup_state (unsend_system i)) ≡ true
        × IsPooled nodes (record p {
          unsend_runnable = rest;
          wakeup_state = update p.wakeup_state (unsend_system i) started;
        })
  unfolding node_eq contains
  pop_unsend p i rest e v = (
    ground (arith, v.unsends i),
    record {
      sends = v.sends;
      unsends = λ j.
          ground (arith, v.unsends j, contains-first j i rest (subst IsOrdered e v.unsend_ordered));
      send_ordered = v.send_ordered;
      unsend_ordered = Above-IsOrdered i rest (subst IsOrdered e v.unsend_ordered);
      domain = λ n h. ground (arith, v.domain n h, v.unsends i, node_eq_iff (unsend_system i) n);
    },
  )

  steal_send_cases :
      (p : Planner) (xs : List ℕ)
      → p.send_runnable ≡ xs
      → 0 < p.remaining_systems
      → Inv t nodes p
      → Steals t nodes send_pool p (steal_from send_pool t (pop_first xs) p)
  unfolding steal_from pop_first contains
  steal_send_cases p [] e pos inv =
      (pending_result, p, refl, inv, (refl, pos, λ i. ground (arith, inv.pooled.sends i)))
  steal_send_cases p (i ∷ rest) e pos inv =
      let (h, v) = pop_send p i rest e inv.pooled in
      let (known, was) = pending_known p (send_system i) inv.pooled h in
      let (q, e1, inv', st) =
        start_lem p (record p { send_runnable = rest }) (send_system i) known was inv refl refl v in
      (ready i, q, rw e1, inv', st)

  steal_unsend_cases :
      (p : Planner) (xs : List ℕ)
      → p.unsend_runnable ≡ xs
      → 0 < p.remaining_systems
      → Inv t nodes p
      → Steals t nodes unsend_pool p (steal_from unsend_pool t (pop_first xs) p)
  unfolding steal_from pop_first contains
  steal_unsend_cases p [] e pos inv =
      (pending_result, p, refl, inv, (refl, pos, λ i. ground (arith, inv.pooled.unsends i)))
  steal_unsend_cases p (i ∷ rest) e pos inv =
      let (h, v) = pop_unsend p i rest e inv.pooled in
      let (known, was) = pending_known p (unsend_system i) inv.pooled h in
      let (q, e1, inv', st) =
        start_lem p (record p { unsend_runnable = rest }) (unsend_system i) known was inv refl refl
          v in
      (ready i, q, rw e1, inv', st)

  -- Over a well-formed topology, under the invariant, `steal_send` returns and keeps the invariant. It reports completion exactly
  -- when no system remains, reports that it found nothing only if no thread-safe system is pending,
  -- and otherwise turns one pending thread-safe system into a started one and starts no other.
  pub steal_send_lem : (p : Planner) → Inv t nodes p → Steals t nodes send_pool p (steal_send t p)
  unfolding steal_send steal
  steal_send_lem p inv = elim (Bool-cases (p.remaining_systems == 0)) [
    | inl done ↦ (cycle_complete, p, rw done, inv, (refl, ground arith))
    | inr more ↦ rw more (steal_send_cases p p.send_runnable refl (ground arith) inv)
  ]

  -- The same of `steal_unsend` and the thread-unsafe systems.
  pub steal_unsend_lem :
      (p : Planner) → Inv t nodes p → Steals t nodes unsend_pool p (steal_unsend t p)
  unfolding steal_unsend steal
  steal_unsend_lem p inv = elim (Bool-cases (p.remaining_systems == 0)) [
    | inl done ↦ (cycle_complete, p, rw done, inv, (refl, ground arith))
    | inr more ↦ rw more (steal_unsend_cases p p.unsend_runnable refl (ground arith) inv)
  ]
