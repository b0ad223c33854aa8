-- ===== src/Scheduler/Topology/Cycles/Search.antt =====
-- The search of `scan_cycles` from one node: it never runs out of fuel, and its assertions hold.
use dynec.Common.{
  ℕ, zero, suc, ◌+◌, ◌<◌, ◌≤◌, ◌≡◌, refl, ap, ◌∙◌, false, Option, none, some, List, [], ◌∷◌, arith,
  if◌then◌else◌, Bool-cases, inl, inr, ◌⊎◌, Outcome, ok, panic, Panic, ◌>>=◌, length,
}
use dynec.Scheduler.Defs.{
  Node, node_eq, node_eq_iff, node_eq_refl, NodeMap, count, count_self, count_cons, count_nil,
}
use dynec.Scheduler.Topology.{for_each}
use dynec.Scheduler.Topology.Cycles.{Scan, has, remove_node, leave, scan_cycles_from}

remove_node-count :
    (n x : Node) (ms : List Node)
    → count x (remove_node n ms) ≡ (if node_eq n x then 0 else count x ms)
unfolding remove_node count
remove_node-count n x [] = ground arith
remove_node-count n x (m ∷ ms) = ground (
  arith,
  remove_node-count n x ms,
  node_eq_iff n m,
  node_eq_iff n x,
  node_eq_iff x m,
  node_eq_iff m x,
)

remove_node-length_le : (n : Node) (ms : List Node) → length (remove_node n ms) ≤ length ms
unfolding remove_node
remove_node-length_le n [] = omega arith
remove_node-length_le n (m ∷ ms) = ground (arith, remove_node-length_le n ms)

remove_node-length :
    (n : Node) (ms : List Node) → 0 < count n ms → length (remove_node n ms) < length ms
unfolding remove_node count
remove_node-length n [] h = absurd (omega arith)
remove_node-length n (m ∷ ms) h =
    ground (arith, remove_node-length n ms, remove_node-length_le n ms)

module _ (map : NodeMap (List Node)) where
  abbrev pub targets_of : Option (List Node) → List Node
  targets_of none = []
  targets_of (some l) = l

  -- Dependencies ascend along the rank, so that there is no cycle.
  abbrev pub IsAcyclicBy : (Node → ℕ) → Type 0
  IsAcyclicBy rank = (n m : Node) → 0 < count m (targets_of (map n)) → rank n < rank m

  -- Each exited node exited once, after all its dependents.
  unfoldable pub IsClosed : List Node → Type 0
  IsClosed [] = Unit
  IsClosed (n ∷ ns) =
      (count n ns ≡ 0)
      × ((m : Node) → 0 < count m (targets_of (map n)) → 0 < count m ns)
      × IsClosed ns

  -- No node is both exited and remaining.
  unfoldable pub IsApart : Scan → Type 0
  IsApart s = (x : Node) → 0 < count x s.exited → count x s.remaining ≡ 0

  -- What a scan that returns did.
  pub record IsScanned (s s' : Scan) : Type 0 where
    pub closed : IsClosed s.exited → IsClosed s'.exited
    pub grows : (x : Node) → 0 < count x s.exited → 0 < count x s'.exited
    pub kept : (x : Node) → 0 < count x s.remaining → 0 < count x s'.remaining + count x s'.exited
    pub same_stack : s'.stack ≡ s.stack
    pub new : (x : Node) → 0 < count x s'.exited → 0 < count x s.exited + count x s.remaining
    pub shrinks : (x : Node) → 0 < count x s'.remaining → 0 < count x s.remaining
    pub shorter : length s'.remaining ≤ length s.remaining
    pub total : length s'.remaining + length s'.exited ≤ length s.remaining + length s.exited
    pub longer : length s.exited ≤ length s'.exited
    pub progress :
        (x : Node)
        → count x s.exited ≡ 0
        → 0 < count x s'.exited
        → length s.exited < length s'.exited
    pub apart : IsApart s → IsApart s'

  pub IsScanned-refl : (s : Scan) → IsScanned s s
  IsScanned-refl s = record {
    closed = λ h. h;
    grows = λ x h. h;
    kept = λ x h. omega arith;
    same_stack = refl;
    new = λ x h. omega arith;
    shrinks = λ x h. h;
    shorter = omega arith;
    total = omega arith;
    longer = omega arith;
    progress = λ x a b. absurd (omega (arith, a, b));
    apart = λ h. h;
  }

  pub IsScanned-trans : {a b c : Scan} → IsScanned a b → IsScanned b c → IsScanned a c
  IsScanned-trans {a} {b} {c} f g = record {
    closed = λ h. g.closed (f.closed h);
    grows = λ x h. g.grows x (f.grows x h);
    kept = λ x h. ground (arith, f.kept x h, g.kept x, g.grows x);
    same_stack = g.same_stack ∙ f.same_stack;
    new = λ x h. ground (arith, f.new x, g.new x h, f.shrinks x);
    shrinks = λ x h. f.shrinks x (g.shrinks x h);
    shorter = omega (arith, f.shorter, g.shorter);
    total = omega (arith, f.total, g.total);
    longer = omega (arith, f.longer, g.longer);
    progress = λ x h k. ground (arith, f.progress x h, g.progress x, k, f.longer, g.longer);
    apart = λ h. g.apart (f.apart h);
  }

  -- Leaving a node whose dependents have all exited.
  leave-IsScanned :
      (node : Node) (s s1 : Scan)
      → count node s.exited ≡ 0
      → 0 < count node s.remaining
      → IsScanned (record s { remaining = remove_node node s.remaining; stack = node ∷ s.stack }) s1
      → ((m : Node) → 0 < count m (targets_of (map node)) → 0 < count m s1.exited)
      → (s' : Scan) × (leave node s1 s1.stack ≡ ok s') × IsScanned s s' × (0 < count node s'.exited)
  unfolding leave IsClosed IsApart
  leave-IsScanned node s s1 out left f all =
      let absent : count node s1.exited ≡ 0 =
        ground
          (arith, f.new node, out, remove_node-count node node s.remaining, node_eq_refl node) in
      let fresh : has node s1.exited ≡ false = ground (arith, absent) in
      (
        record s1 { exited = node ∷ s1.exited; stack = s.stack },
        rw (f.same_stack, node_eq_refl node, fresh) refl,
        record {
          closed = λ h. (absent, all, f.closed h);
          grows = λ x h. omega (arith, f.grows x h, count_cons x node s1.exited);
          kept = λ x h. ground (
            arith,
            h,
            f.kept x,
            remove_node-count node x s.remaining,
            count_cons x node s1.exited,
            node_eq_iff node x,
            node_eq_iff x node,
          );
          same_stack = refl;
          new = λ x h. ground (
            arith,
            h,
            f.new x,
            remove_node-count node x s.remaining,
            count_cons x node s1.exited,
            node_eq_iff x node,
            left,
          );
          shrinks = λ x h. ground (arith, f.shrinks x h, remove_node-count node x s.remaining);
          shorter = omega (arith, f.shorter, remove_node-length_le node s.remaining);
          total = omega (arith, f.total, remove_node-length node s.remaining left);
          longer = omega (arith, f.longer);
          progress = λ x h k. omega (arith, f.longer);
          apart = λ h x k.
              let apart1 =
                f.apart (λ y a. ground (arith, h y a, remove_node-count node y s.remaining)) x in
              ground (
                arith,
                apart1,
                k,
                f.shrinks x,
                remove_node-count node x s.remaining,
                count_cons x node s1.exited,
                node_eq_iff x node,
                node_eq_iff node x,
              );
        },
        omega (arith, count_self node s1.exited),
      )

  module _ (nodes : List Node)
      (closed_map : (n : Node)
        → 0 < count n nodes
        → (l : List Node) × (map n ≡ some l)
          × ((m : Node) → 0 < count m l → 0 < count m nodes)) where
    -- Every node is somewhere.
    unfoldable pub IsKnown : Scan → Type 0
    IsKnown s =
        (x : Node)
        → 0 < count x nodes
        → 0 < count x s.remaining + count x s.exited + count x s.stack

    pub IsKnown-scanned : {s s' : Scan} → IsKnown s → IsScanned s s' → IsKnown s'
    unfolding IsKnown
    IsKnown-scanned {s} {s'} known f x h =
        ground (arith, known x h, f.kept x, f.grows x, ap (count x) f.same_stack)

    -- The nodes on the stack lie below all of `ds` along every rank, were there one.
    abbrev pub Impossible : List Node → Scan → Type 0
    Impossible ds s =
        (rank : Node → ℕ)
        → IsAcyclicBy rank
        → ((x d : Node) → 0 < count x s.stack → 0 < count d ds → rank x < rank d)
        → ⊥

    -- A scan over `ds` ends with all of them exited, or with a cycle found.
    abbrev pub Verdict : List Node → Scan → Outcome Scan → Type 0
    Verdict ds s out =
        ((s' : Scan) × (out ≡ ok s')
          × IsScanned s s'
          × ((d : Node) → 0 < count d ds → 0 < count d s'.exited))
        ⊎ ((out ≡ panic Panic.cyclic_dependency) × Impossible ds s)

    for_each-Verdict :
        (f : Node → Scan → Outcome Scan) (b : ℕ)
        → ((d : Node) (s : Scan)
            → 0 < count d nodes
            → IsKnown s
            → length s.remaining < b
            → Verdict (d ∷ []) s (f d s))
        → (ds : List Node) (s : Scan) → ((d : Node) → 0 < count d ds → 0 < count d nodes)
        → IsKnown s
        → length s.remaining < b
        → Verdict ds s (for_each f ds s)
    unfolding for_each
    for_each-Verdict f b one [] s known_ds known lt =
        inl (s, refl, IsScanned-refl s, λ d h. absurd (omega (arith, count_nil d, h)))
    for_each-Verdict f b one (d ∷ ds) s known_ds known lt =
        elim (one d s (known_ds d (omega (arith, count_self d ds))) known lt) [
          | inl (s1, e1, f1, x1) ↦
              elim (for_each-Verdict f b one ds s1
                (λ k h. known_ds k (omega (arith, count_cons k d ds, h))) (IsKnown-scanned known f1)
                (omega (arith, f1.shorter, lt))) [
                  | inl (s2, e2, f2, x2) ↦ inl (
                    s2,
                    rw e1 e2,
                    IsScanned-trans f1 f2,
                    λ k h. ground (
                      arith,
                      h,
                      x1 k,
                      x2 k,
                      f2.grows k,
                      count_cons k d ds,
                      count_cons k d [],
                      count_nil k,
                    ),
                  )
                  | inr (e2, bad) ↦ inr (
                    rw e1 e2,
                    λ rank up low. bad rank up (λ x k a h.
                        low x k (omega (arith, a, ap (count x) f1.same_stack))
                          (omega (arith, h, count_cons k d ds))),
                  )
                ]
          | inr (e1, bad) ↦ inr (
            rw e1 refl,
            λ rank up low. bad rank up (λ x k a h.
                low x k a (omega (arith, h, count_cons k d ds, count_cons k d [], count_nil k))),
          )
        ]

    -- The node that is entered goes from `remaining` to the stack.
    abbrev enter : Node → Scan → Scan
    enter node s = record s { remaining = remove_node node s.remaining; stack = node ∷ s.stack }

    enter-IsKnown : (node : Node) (s : Scan) → IsKnown s → IsKnown (enter node s)
    unfolding IsKnown
    enter-IsKnown node s known x h = ground (
      arith,
      known x h,
      count_cons x node s.stack,
      remove_node-count node x s.remaining,
      node_eq_iff node x,
      node_eq_iff x node,
    )

    -- The scan of the dependents decides on the node.
    visit-Verdict :
        (node : Node) (s : Scan) (l : List Node) (out : Outcome Scan)
        → map node ≡ some l
        → count node s.exited ≡ 0
        → 0 < count node s.remaining
        → Verdict l (enter node s) out
        → Verdict (node ∷ []) s (out >>= λ s'. leave node s' s'.stack)
    visit-Verdict node s l out el absent left (inl (s1, e1, f1, x1)) =
        let (s2, e2, f2, x2) =
          leave-IsScanned node s s1 absent left f1 (λ m h. x1 m (rw el at h)) in
        inl (
          s2,
          rw e1 e2,
          f2,
          λ d h. ground (arith, h, x2, count_cons d node [], count_nil d, node_eq_iff d node),
        )
    visit-Verdict node s l out el absent left (inr (e1, bad)) = inr (
      rw e1 refl,
      λ rank up low. bad rank up λ x d a h.
          let above : rank node < rank d = up node d (rw el h) in
          let below : 0 < count x s.stack → rank x < rank node =
            λ k. low x node k (omega (arith, count_self node [])) in
          ground (arith, above, below, a, count_cons x node s.stack, node_eq_iff x node),
    )

    pub scan_cycles_from-Verdict :
        (fuel : ℕ) (node : Node) (s : Scan)
        → 0 < count node nodes
        → IsKnown s
        → length s.remaining < fuel
        → Verdict (node ∷ []) s (scan_cycles_from fuel map node s)
    unfolding scan_cycles_from IsKnown
    scan_cycles_from-Verdict zero node s here known lt = absurd (omega arith)
    scan_cycles_from-Verdict (suc fuel) node s here known lt =
        elim (Bool-cases (has node s.exited)) [
          | inl done ↦ inl (
            s,
            rw done,
            IsScanned-refl s,
            λ d h. ground (arith, done, h, count_cons d node [], count_nil d, node_eq_iff d node),
          )
          | inr out ↦ elim (Bool-cases (has node s.remaining)) [
            | inl left ↦
                rw (out, left)
                  (let (l, el, within) = closed_map node here in
                    rw el (
                      visit-Verdict node s l _ el (ground (arith, out)) (ground (arith, left)) (
                        for_each-Verdict (scan_cycles_from fuel map) fuel
                          (λ d s' h k lt'. scan_cycles_from-Verdict fuel d s' h k lt') l
                          (enter node s) within (enter-IsKnown node s known)
                          (omega (
                            arith,
                            lt,
                            remove_node-length node s.remaining (ground (arith, left)),
                          )))))
            | inr gone ↦ inr (
              rw (out, gone),
              λ rank up low. omega (
                arith,
                low node node (ground (arith, known node here, out, gone))
                    (omega (arith, count_self node [])),
              ),
            )
          ]
        ]
