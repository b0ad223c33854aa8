-- ===== src/Scheduler/Topology/Cycles/Decides.antt =====
-- `scan_cycles` decides whether the dependency graph is acyclic.
use dynec.Common.{
  ℕ, zero, suc, ◌<◌, ◌≤◌, ◌≡◌, refl, ap, ◌∙◌, none, some, List, [], ◌∷◌, arith, if◌then◌else◌, inl,
  inr, ◌⊎◌, Outcome, ok, panic, Panic, length,
}
use dynec.Scheduler.Defs.{
  Node, node_eq, node_eq_iff, NodeMap, count, count_self, count_cons, count_nil,
}
use dynec.Scheduler.Topology.Cycles.{Scan, scan_all, scan_cycles}
use dynec.Scheduler.Topology.Cycles.Search.{
  targets_of, IsAcyclicBy, IsClosed, IsApart, IsScanned, IsScanned-refl, IsScanned-trans, IsKnown,
  IsKnown-scanned, scan_cycles_from-Verdict,
}

-- The place of a node in a list, as a rank.
unfoldable pub index : Node → List Node → ℕ
index n [] = 0
index n (m ∷ ms) = if node_eq n m then 0 else suc (index n ms)

-- A map over `nodes` whose lists are of `nodes`.
pub record IsGraph (map : NodeMap (List Node)) (nodes : List Node) : Type 0 where
  pub keys :
      (n : Node)
      → 0 < count n nodes
      → (l : List Node) × (map n ≡ some l) × ((m : Node) → 0 < count m l → 0 < count m nodes)
  pub off : (n : Node) → count n nodes ≡ 0 → map n ≡ none

module _ (map : NodeMap (List Node)) where
  -- Among exited nodes, dependents stand behind.
  index-IsClosed :
      (ex : List Node)
      → IsClosed map ex
      → (n m : Node) → 0 < count n ex
      → 0 < count m (targets_of map (map n))
      → (0 < count m ex) × (index n ex < index m ex)
  unfolding IsClosed index
  index-IsClosed [] h n m there dep = absurd (omega (arith, count_nil n, there))
  index-IsClosed (k ∷ ks) h n m there dep =
      let later = index-IsClosed ks h.2 n m in
      ground (
        arith,
        h.0,
        h.1 m,
        later,
        there,
        dep,
        count_cons n k ks,
        count_cons m k ks,
        node_eq_iff n k,
        node_eq_iff m k,
      )

  module _ (nodes : List Node) (graph : IsGraph map nodes) where
    abbrev Ends : Scan → Outcome Scan → Type 0
    Ends s out =
        ((s' : Scan) × (out ≡ ok s') × IsScanned map s s' × (s'.remaining ≡ []))
        ⊎ ((out ≡ panic Panic.cyclic_dependency) × ((rank : Node → ℕ) → IsAcyclicBy map rank → ⊥))

    scan_all-Ends :
        (rounds fuel : ℕ) (rem : List Node) (s : Scan)
        → s.remaining ≡ rem
        → s.stack ≡ []
        → length rem ≤ rounds
        → length rem < fuel
        → IsKnown map nodes graph.keys s
        → IsApart map s
        → ((x : Node) → 0 < count x s.remaining → 0 < count x nodes)
        → Ends s (scan_all rounds fuel map rem s)
    unfolding scan_all IsApart
    scan_all-Ends rounds fuel [] s e empty le lt known apart within =
        inl (s, refl, IsScanned-refl map s, e)
    scan_all-Ends zero fuel (node ∷ rem) s e empty le lt known apart within = absurd (omega arith)
    scan_all-Ends (suc rounds) fuel (node ∷ rem) s e empty le lt known apart within =
        let there : 0 < count node s.remaining =
          omega (arith, ap (count node) e, count_self node rem) in
        let size : length s.remaining ≡ suc (length rem) = ap length e in
        let fresh : count node s.exited ≡ 0 = ground (arith, apart node, there) in
        elim (scan_cycles_from-Verdict map nodes graph.keys fuel node s (within node there) known
          (omega (arith, size, lt))) [
            | inl (s1, e1, f1, x1) ↦
                let more = f1.progress node fresh (x1 node (omega (arith, count_self node []))) in
                elim (scan_all-Ends rounds fuel s1.remaining s1 refl (f1.same_stack ∙ empty)
                  (omega (arith, f1.total, more, size, le)) (omega (arith, f1.shorter, size, lt))
                  (IsKnown-scanned map nodes graph.keys known f1) (f1.apart apart)
                  (λ x h. within x (f1.shrinks x h))) [
                    | inl (s2, e2, f2, x2) ↦ inl (s2, rw e1 e2, IsScanned-trans map f1 f2, x2)
                    | inr (e2, bad) ↦ inr (rw e1 e2, bad)
                  ]
            | inr (e1, bad) ↦ inr (
              rw e1 refl,
              λ rank up.
                  bad rank up λ x d a h. absurd (omega (arith, a, ap (count x) empty, count_nil x)),
            )
          ]

    -- On a graph, with more fuel than it has nodes, `scan_cycles` returns when dependencies ascend along
    -- some rank, and otherwise panics with the message on a cyclic dependency.
    pub scan_cycles_lem :
        (fuel : ℕ)
        → length nodes < fuel
        → ((s' : Scan) × (scan_cycles fuel map nodes ≡ ok s')
            × ((rank : Node → ℕ) × IsAcyclicBy map rank))
          ⊎ ((scan_cycles fuel map nodes ≡ panic Panic.cyclic_dependency)
              × ((rank : Node → ℕ) → IsAcyclicBy map rank → ⊥))
    unfolding scan_cycles IsKnown IsApart IsClosed
    scan_cycles_lem fuel lt =
        elim (scan_all-Ends fuel fuel nodes (record { remaining = nodes; exited = []; stack = [] })
          refl refl (omega (arith, lt)) lt (λ x h. omega (arith, h))
          (λ x h. absurd (omega (arith, count_nil x, h))) (λ x h. h)) [
            | inr r ↦ inr r
            | inl (s', e, f, done) ↦ inl (
              s',
              e,
              (
                (λ n. index n s'.exited),
                λ n m dep.
                    let known : 0 < count n nodes = ground (arith, graph.off n, dep, count_nil m) in
                    let there : 0 < count n s'.exited =
                      omega (arith, f.kept n known, ap (count n) done, count_nil n) in
                    (index-IsClosed s'.exited (f.closed tt) n m there dep).1,
              ),
            )
          ]
