-- ===== src/Scheduler/Topology/Initials.antt =====
-- `build_initials` makes a planner that satisfies the planner's invariant.
pub mod Ready
use dynec.Common.{
  ℕ, zero, suc, ◌+◌, ◌-◌, ◌<◌, ◌≤◌, ◌≡◌, refl, sym, ap, ◌∙◌, Bool, true, false, ◌&&◌, Option, none,
  some, List, [], ◌∷◌, ◌++◌, arith, ◌==◌, ltb, if◌then◌else◌, Bool-cases, inl, inr, Outcome, ok,
  ◌>>=◌, All, subst, sum_of, sum_of_add, sum_of_zero, length, Option-cases,
}
use dynec.Common.OrdSet.{contains, insert, IsOrdered, contains-insert, insert-IsOrdered}
use dynec.Scheduler.Defs.{
  Node, send_system, unsend_system, partition, node_eq, node_eq_iff, node_eq_refl, is_system, Order,
  WakeupState, blocked, pending, completed, NodeMap, update, count, count-append, count_cons,
  count_nil, count_self,
}
use dynec.Scheduler.Planner.{Topology, Planner}
use dynec.Scheduler.Topology.{
  depless, push_partition, trim_dependents, trim, runnable, send_index, unsend_index, initial_state,
  initial_wakeup, build_initials, count_dependencies, collect,
}
use dynec.Scheduler.Topology.Dependents.{
  IsMap, collect-IsMap, update-IsMap, count_dependencies_lem, in_edges,
}

abbrev value_zero : Option ℕ → Bool
value_zero none = false
value_zero (some k) = k == 0

module _ (nodes : List Node) (deps : Node → List Node) where
  -- The blocks on `n` by a list of partitions.
  freed_by : List ℕ → Node → ℕ
  freed_by pars n = sum_of (λ i. count n (deps (partition i))) pars

  -- Taking one off each listed node's count.
  trim_dependents_lem :
      (ns : List Node) (c : NodeMap ℕ) (f : Node → ℕ) (pars : List ℕ)
      → All (λ n. 0 < count n nodes × is_system n ≡ true) ns
      → IsMap nodes c (λ n. f n + count n ns)
      → (c' : NodeMap ℕ) × (trim_dependents ns c pars ≡ ok (c', pars)) × IsMap nodes c' f
  unfolding trim_dependents
  trim_dependents_lem [] c f pars h m =
      (c, refl, record { at = λ n k. m.at n k ∙ ap some (omega (arith, count_nil n)); off = m.off })
  trim_dependents_lem (k ∷ ns) c f pars h m =
      let e : c k ≡ some (f k + count k (k ∷ ns)) = m.at k h.0.0 in
      let (c', e', m') =
        trim_dependents_lem ns (update c k (f k + count k (k ∷ ns) - 1)) f pars h.1 (
          update-IsMap nodes c _ _ k _ h.0.0 m (omega (arith, count_self k ns)) (λ n there.
            ground (arith, there, count_cons n k ns, node_eq_iff n k, node_eq_iff k n))) in
      let left : (f k + count k (k ∷ ns) == 0) ≡ false = ground (arith, count_self k ns) in
      (c', rw (e, left, push k h.0.1) e', m')
    where
      push : (k : Node) → is_system k ≡ true → push_partition k pars ≡ pars
      push k h = ground arith

  -- The whole loop over the partitions.
  trim_lem :
      (fuel : ℕ) (dependents : NodeMap (List Node)) (pars : List ℕ) (c : NodeMap ℕ) (f : Node → ℕ)
      → length pars ≤ fuel
      → All
          (λ i.
            (dependents (partition i) ≡ some (deps (partition i)))
            × All (λ n. 0 < count n nodes × is_system n ≡ true) (deps (partition i)))
          pars
      → IsMap nodes c (λ n. f n + freed_by pars n)
      → (c' : NodeMap ℕ) × (trim fuel dependents pars c ≡ ok c') × IsMap nodes c' f
  unfolding trim freed_by sum_of
  trim_lem fuel dependents [] c f le h m =
      (c, refl, record { at = λ n k. m.at n k ∙ ap some (omega arith); off = m.off })
  trim_lem zero dependents (i ∷ pars) c f le h m = absurd (omega arith)
  trim_lem (suc fuel) dependents (i ∷ pars) c f le h m =
      let (c1, e1, m1) =
        trim_dependents_lem (deps (partition i)) c (λ n. f n + freed_by pars n) pars h.0.1
          (record { at = λ n k. m.at n k ∙ ap some (omega arith); off = m.off }) in
      let (c2, e2, m2) = trim_lem fuel dependents pars c1 f (omega arith) h.1 m1 in
      (c2, rw (h.0.0, e1) e2, m2)

-- A partition with no dependencies.
abbrev is_depless : NodeMap ℕ → Node → Bool
is_depless c (partition i) = value_zero (c (partition i))
is_depless c _ = false

-- The blocks by the nodes that are not trimmed.
kept_by : (Node → List Node) → NodeMap ℕ → List Node → Node → ℕ
kept_by deps c nodes n = sum_of (λ m. if is_depless c m then 0 else count n (deps m)) nodes

-- All blocks are those of trimmed partitions and those of the rest.
split_blocks :
    (deps : Node → List Node) (c : NodeMap ℕ) (nodes all : List Node) (n : Node)
    → sum_of (λ m. count n (deps m)) nodes
      ≡ kept_by deps c nodes n + freed_by all deps (depless c nodes) n
unfolding kept_by freed_by depless sum_of
split_blocks deps c [] all n = refl
split_blocks deps c (partition i ∷ ns) all n = ground (arith, split_blocks deps c ns all n)
split_blocks deps c (send_system i ∷ ns) all n = ground (arith, split_blocks deps c ns all n)
split_blocks deps c (unsend_system i ∷ ns) all n = ground (arith, split_blocks deps c ns all n)

-- A pool holds the systems of its sort with count zero.
runnable_send :
    (c : NodeMap ℕ) (ns : List Node) (i : ℕ)
    → contains i (runnable send_index c ns)
      ≡ (ltb 0 (count (send_system i) ns) && value_zero (c (send_system i)))
unfolding runnable contains count node_eq
runnable_send c [] i = refl
runnable_send c (send_system j ∷ ns) i =
    ground (arith, runnable_send c ns i, contains-insert j i (runnable send_index c ns))
runnable_send c (unsend_system j ∷ ns) i = ground (arith, runnable_send c ns i)
runnable_send c (partition j ∷ ns) i = ground (arith, runnable_send c ns i)

runnable_unsend :
    (c : NodeMap ℕ) (ns : List Node) (i : ℕ)
    → contains i (runnable unsend_index c ns)
      ≡ (ltb 0 (count (unsend_system i) ns) && value_zero (c (unsend_system i)))
unfolding runnable contains count node_eq
runnable_unsend c [] i = refl
runnable_unsend c (unsend_system j ∷ ns) i =
    ground (arith, runnable_unsend c ns i, contains-insert j i (runnable unsend_index c ns))
runnable_unsend c (send_system j ∷ ns) i = ground (arith, runnable_unsend c ns i)
runnable_unsend c (partition j ∷ ns) i = ground (arith, runnable_unsend c ns i)

runnable-IsOrdered :
    (index : Node → Option ℕ) (c : NodeMap ℕ) (ns : List Node) → IsOrdered (runnable index c ns)
unfolding runnable
runnable-IsOrdered index c [] = tt
runnable-IsOrdered index c (n ∷ ns) = elim (Option-cases (index n)) [
  | inl e ↦ rw (e, runnable) (runnable-IsOrdered index c ns)
  | inr (i, e) ↦ elim (Option-cases (c n)) [
    | inl e' ↦ rw (e, e', runnable) (runnable-IsOrdered index c ns)
    | inr (k, e') ↦ elim (Bool-cases (k == 0)) [
      | inl z ↦ rw (e, e', z, runnable) (insert-IsOrdered i _ (runnable-IsOrdered index c ns))
      | inr z ↦ rw (e, e', z, runnable) (runnable-IsOrdered index c ns)
    ]
  ]
]

sum_ext :
    (f g : Node → ℕ) (ns : List Node)
    → ((m : Node) → 0 < count m ns → f m ≡ g m)
    → sum_of f ns ≡ sum_of g ns
unfolding sum_of
sum_ext f g [] h = refl
sum_ext f g (m ∷ ms) h = omega (
  arith,
  h m (omega (arith, count_self m ms)),
  sum_ext f g ms (λ n e. h n (omega (arith, count_cons n m ms, e))),
)

All-of_count {κ} :
    (P : Node → Type κ) (ns : List Node) → ((n : Node) → 0 < count n ns → P n) → All P ns
All-of_count P [] h = tt
All-of_count P (m ∷ ms) h = (
  h m (omega (arith, count_self m ms)),
  All-of_count P ms (λ n e. h n (omega (arith, count_cons n m ms, e))),
)

-- Every depless partition is one of the nodes.
depless-All {κ} :
    (P : ℕ → Type κ) (c : NodeMap ℕ) (ns : List Node)
    → ((i : ℕ) → 0 < count (partition i) ns → P i)
    → All P (depless c ns)
unfolding depless
depless-All P c [] h = tt
depless-All P c (send_system i ∷ ns) h =
    depless-All P c ns (λ j e. h j (omega (arith, count_cons (partition j) (send_system i) ns, e)))
depless-All P c (unsend_system i ∷ ns) h =
    depless-All P c ns
      (λ j e. h j (omega (arith, count_cons (partition j) (unsend_system i) ns, e)))
depless-All P c (partition i ∷ ns) h =
    let rest =
      depless-All P c ns
        (λ j e. h j (omega (arith, count_cons (partition j) (partition i) ns, e))) in
    let first = h i (omega (arith, count_self (partition i) ns)) in
    elim (Option-cases (c (partition i))) [
      | inl e ↦ rw (e, depless) rest
      | inr (k, e) ↦ elim (Bool-cases (k == 0)) [
        | inl z ↦ rw (e, z, depless) (first, rest)
        | inr z ↦ rw (e, z, depless) rest
      ]
    ]

length-depless : (c : NodeMap ℕ) (ns : List Node) → length (depless c ns) ≤ length ns
unfolding depless
length-depless c [] = omega arith
length-depless c (send_system i ∷ ns) = omega (arith, length-depless c ns)
length-depless c (unsend_system i ∷ ns) = omega (arith, length-depless c ns)
length-depless c (partition i ∷ ns) = ground (arith, length-depless c ns)

freed_zero :
    (nodes : List Node) (deps : Node → List Node) (n : Node) (pars : List ℕ)
    → All (λ i. count n (deps (partition i)) ≡ 0) pars
    → freed_by nodes deps pars n ≡ 0
unfolding freed_by sum_of
freed_zero nodes deps n [] h = refl
freed_zero nodes deps n (i ∷ pars) h = omega (arith, h.0, freed_zero nodes deps n pars h.1)
