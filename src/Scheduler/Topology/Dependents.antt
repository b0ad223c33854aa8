-- ===== src/Scheduler/Topology/Dependents.antt =====
-- `build_dependents_map` and the dependency counts: both count the orders.
use dynec.Common.{
  ℕ, ◌+◌, ◌<◌, ◌≤◌, ◌≡◌, refl, sym, ap, ◌∙◌, Bool, true, false, ◌&&◌, none, some, List, [], ◌∷◌,
  ◌++◌, arith, if◌then◌else◌, Bool-cases, inl, inr, ok, All, sum_of, sum_of_add, sum_of_zero,
}
use dynec.Scheduler.Defs.{
  Node, node_eq, node_eq_iff, node_eq_refl, is_system, Order, NodeMap, update, count, count-append,
  count_cons, count_nil,
}
use dynec.Scheduler.Topology.{collect, add_dependents, build_dependents_map, count_dependencies}

-- The nodes are distinct, orders relate nodes, and a partition is only ordered before systems.
pub record IsSchedule (nodes : List Node) (orders : List Order) : Type 0 where
  pub distinct : (n : Node) → count n nodes ≤ 1
  pub befores : All (λ o. 0 < count o.before nodes) orders
  pub afters : All (λ o. 0 < count o.after nodes) orders
  pub bipartite : All (λ o. is_system o.before ≡ false → is_system o.after ≡ true) orders

abbrev edge : Order → Node → Node → ℕ
edge o m n = if node_eq o.before m && node_eq n o.after then 1 else 0

-- How many orders put `m` before `n`.
unfoldable pub edges : List Order → Node → Node → ℕ
edges [] m n = 0
edges (o ∷ orders) m n = edge o m n + edges orders m n

-- How many orders put something before `n`.
pub in_edges : List Order → Node → ℕ
in_edges [] n = 0
in_edges (o ∷ orders) n = (if node_eq n o.after then 1 else 0) + in_edges orders n

-- A map with the keys `nodes` and the values of `f`.
pub record IsMap {ℓ} {V : Type ℓ} (nodes : List Node) (c : NodeMap V) (f : Node → V) : Type ℓ where
  pub at : (n : Node) → 0 < count n nodes → c n ≡ some (f n)
  pub off : (n : Node) → count n nodes ≡ 0 → c n ≡ none

pub collect-IsMap {ℓ} :
    {V : Type ℓ} (v : V) (nodes : List Node) → IsMap nodes (collect v nodes) (λ _. v)
unfolding collect count
collect-IsMap v [] = record { at = λ n h. absurd (omega arith); off = λ n h. refl }
collect-IsMap v (m ∷ ms) = record {
  at = λ n h. elim (Bool-cases (node_eq m n)) [
    | inl here ↦ rw here
    | inr there ↦
        rw there ((collect-IsMap v ms).at n (ground (arith, node_eq_iff m n, node_eq_iff n m)))
  ];
  off = λ n h. elim (Bool-cases (node_eq m n)) [
    | inl here ↦ absurd (ground (arith, node_eq_iff m n, node_eq_iff n m))
    | inr there ↦ rw there ((collect-IsMap v ms).off n (omega arith))
  ];
}

-- A new value at a known key.
pub update-IsMap {ℓ} :
    {V : Type ℓ} (nodes : List Node) (c : NodeMap V) (f g : Node → V) (k : Node) (v : V)
    → 0 < count k nodes
    → IsMap nodes c f
    → g k ≡ v
    → ((n : Node) → node_eq k n ≡ false → g n ≡ f n)
    → IsMap nodes (update c k v) g
update-IsMap nodes c f g k v known m new old = record {
  at = λ n h. elim (Bool-cases (node_eq k n)) [
    | inl here ↦ rw here (ap some (sym new ∙ ap g ((node_eq_iff k n).0 here)))
    | inr there ↦ rw there (m.at n h ∙ ap some (sym (old n there)))
  ];
  off = λ n h. elim (Bool-cases (node_eq k n)) [
    | inl here ↦
        let e : k ≡ n = (node_eq_iff k n).0 here in
        absurd (omega (arith, known, h, ap (λ (x : Node). count x nodes) e))
    | inr there ↦ rw there (m.off n h)
  ];
}

-- The dependents of `n` in the finished map: those in `f n`, then those of the orders.
pub targets : List Order → (Node → List Node) → Node → List Node
targets [] f n = f n
targets (o ∷ orders) f n =
    targets orders (λ m. if node_eq o.before m then f m ++ o.after ∷ [] else f m) n

pub targets-count :
    (orders : List Order) (f : Node → List Node) (m n : Node)
    → count n (targets orders f m) ≡ count n (f m) + edges orders m n
unfolding targets edges
targets-count [] f m n = omega arith
targets-count (o ∷ orders) f m n =
    targets-count orders _ m n
    ∙ ground (arith, count-append n (f m) (o.after ∷ []), count_cons n o.after [], count_nil n)

add_dependents_lem :
    (nodes : List Node) (orders : List Order) (d : NodeMap (List Node)) (f : Node → List Node)
    → All (λ o. 0 < count o.before nodes) orders
    → IsMap nodes d f
    → (d' : NodeMap (List Node)) × (add_dependents orders d ≡ ok d')
      × IsMap nodes d' (targets orders f)
unfolding add_dependents targets
add_dependents_lem nodes [] d f h m = (d, refl, m)
add_dependents_lem nodes (o ∷ orders) d f h m =
    let e : d o.before ≡ some (f o.before) = m.at o.before h.0 in
    let (d', e', m') =
      add_dependents_lem nodes orders (update d o.before (f o.before ++ o.after ∷ []))
        (λ n. if node_eq o.before n then f n ++ o.after ∷ [] else f n) h.1
        (update-IsMap nodes d f _ o.before _ h.0 m (rw (node_eq_refl o.before))
          (λ n there. rw there)) in
    (d', rw e e', m')

-- `build_dependents_map` returns when every order starts at a node; the dependents of `m` then hold
-- `n` as often as there are orders of `m` before `n`.
pub build_dependents_map_lem :
    (nodes : List Node) (orders : List Order)
    → All (λ o. 0 < count o.before nodes) orders
    → (d : NodeMap (List Node)) × (build_dependents_map nodes orders ≡ ok d)
      × ((m : Node)
          → 0 < count m nodes
          → (l : List Node) × (d m ≡ some l) × ((n : Node) → count n l ≡ edges orders m n))
      × ((m : Node) → count m nodes ≡ 0 → d m ≡ none)
unfolding build_dependents_map
build_dependents_map_lem nodes orders h =
    let (d, e, m) =
      add_dependents_lem nodes orders (collect [] nodes) (λ _. []) h (collect-IsMap [] nodes) in
    (
      d,
      e,
      λ k known. (
        targets orders (λ _. []) k,
        m.at k known,
        λ n. omega (arith, targets-count orders (λ _. []) k n, count_nil n),
      ),
      m.off,
    )

-- The counts are the numbers of orders that end at each node.
pub count_dependencies_lem :
    (nodes : List Node) (orders : List Order) (c : NodeMap ℕ) (f : Node → ℕ)
    → All (λ o. 0 < count o.after nodes) orders
    → IsMap nodes c f
    → (c' : NodeMap ℕ) × (count_dependencies orders c ≡ ok c')
      × IsMap nodes c' (λ n. f n + in_edges orders n)
unfolding count_dependencies in_edges
count_dependencies_lem nodes [] c f h m =
    (c, refl, record { at = λ n k. m.at n k ∙ ap some (omega arith); off = m.off })
count_dependencies_lem nodes (o ∷ orders) c f h m =
    let e : c o.after ≡ some (f o.after) = m.at o.after h.0 in
    let (c', e', m') =
      count_dependencies_lem nodes orders (update c o.after (f o.after + 1))
        (λ n. f n + (if node_eq n o.after then 1 else 0)) h.1
        (update-IsMap nodes c f _ o.after _ h.0 m (rw (node_eq_refl o.after))
          (λ n there. ground (arith, there, node_eq_iff n o.after, node_eq_iff o.after n))) in
    (c', rw e e', record { at = λ n k. m'.at n k ∙ ap some (omega arith); off = m'.off })

sum_indicator :
    (b : Node) (x : Bool) (nodes : List Node)
    → sum_of (λ m. if node_eq b m && x then 1 else 0) nodes ≡ (if x then count b nodes else 0)
unfolding sum_of count
sum_indicator b x [] = ground arith
sum_indicator b x (m ∷ ms) = ground (arith, sum_indicator b x ms)

-- Each order is counted at the one node where it starts.
pub edges_total :
    (nodes : List Node) (orders : List Order)
    → ((n : Node) → count n nodes ≤ 1)
    → All (λ o. 0 < count o.before nodes) orders
    → (n : Node) → sum_of (λ m. edges orders m n) nodes ≡ in_edges orders n
unfolding edges in_edges
edges_total nodes [] distinct h n = sum_of_zero _ nodes (λ _. refl)
edges_total nodes (o ∷ orders) distinct h n =
    sum_of_add (λ m. edge o m n) (λ m. edges orders m n) nodes
    ∙ ground (
      arith,
      sum_indicator o.before (node_eq n o.after) nodes,
      edges_total nodes orders distinct h.1 n,
      distinct o.before,
      h.0,
    )

-- Orders that start at partitions end at systems.
pub edges_bipartite :
    (orders : List Order) (m n : Node)
    → All (λ o. is_system o.before ≡ false → is_system o.after ≡ true) orders
    → is_system m ≡ false
    → 0 < edges orders m n
    → is_system n ≡ true
unfolding edges
edges_bipartite [] m n h sys pos = absurd (omega arith)
edges_bipartite (o ∷ orders) m n h sys pos =
    elim (Bool-cases (node_eq o.before m && node_eq n o.after)) [
      | inl here ↦ ground (arith, here, node_eq_iff o.before m, node_eq_iff n o.after, h.0)
      | inr there ↦ edges_bipartite orders m n h.1 sys (ground (arith, there))
    ]

pub edges_known :
    (nodes : List Node) (orders : List Order) (m n : Node)
    → All (λ o. 0 < count o.after nodes) orders
    → 0 < edges orders m n
    → 0 < count n nodes
unfolding edges
edges_known nodes [] m n h pos = absurd (omega arith)
edges_known nodes (o ∷ orders) m n h pos =
    elim (Bool-cases (node_eq o.before m && node_eq n o.after)) [
      | inl here ↦ ground (arith, here, node_eq_iff n o.after, h.0)
      | inr there ↦ edges_known nodes orders m n h.1 (ground (arith, there))
    ]
