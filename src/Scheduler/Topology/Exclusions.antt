-- ===== src/Scheduler/Topology/Exclusions.antt =====
-- `build_exclusions` relates exactly the pairs of different nodes with conflicting accesses.
use dynec.Common.{
  ◌<◌, ◌≡◌, refl, ap, ◌∙◌, Bool, true, false, not, ◌&&◌, ◌||◌, Option, none, some, List, [], ◌∷◌,
  arith, ltb, Bool-cases, inl, inr, Outcome, ok, All, subst,
}
use dynec.Scheduler.Defs.{Node, node_eq, node_eq_iff, NodeMap, update, count}
use dynec.Scheduler.Access.{conflicts_with, conflicts_with_sym, is_some, any, any_swap, any_ext}
use dynec.Scheduler.Topology.{
  collect, Accesses, conflicting, set_insert, for_each, exclude_pair, exclude_resource,
  build_exclusions,
}

-- Whether `k` is in the set of `n`.
abbrev set_has : Option (List Node) → Node → Bool
set_has none k = false
set_has (some l) k = ltb 0 (count k l)

abbrev pub in_set : NodeMap (List Node) → Node → Node → Bool
in_set ex n k = set_has (ex n) k

-- `ex'` has the keys of `ex`, and its sets grow by the pairs of `e`.
record Grows (ex ex' : NodeMap (List Node)) (e : Node → Node → Bool) : Type 0 where
  same_keys : (n : Node) → is_some (ex' n) ≡ is_some (ex n)
  grown : (n k : Node) → in_set ex' n k ≡ (in_set ex n k || e n k)

abbrev IsKeyed : List Node → NodeMap (List Node) → Type 0
IsKeyed nodes ex = (n : Node) → 0 < count n nodes → is_some (ex n) ≡ true

abbrev Extends : (Node → Node → Bool) → NodeMap (List Node) → Outcome (NodeMap (List Node)) → Type 0
Extends e ex out = (ex' : NodeMap (List Node)) × (out ≡ ok ex') × Grows ex ex' e

pub set_insert-count :
    (n k : Node) (l : List Node)
    → ltb 0 (count k (set_insert n l)) ≡ (ltb 0 (count k l) || node_eq n k)
unfolding set_insert count
set_insert-count n k l =
    ground (arith, node_eq_iff n k, node_eq_iff k n, ap (λ (m : Node). count m l) {x = n} {y = k})

is_some_value {ℓ} : {A : Type ℓ} (o : Option A) → is_some o ≡ true → (a : A) × (o ≡ some a)
is_some_value none h = cc
is_some_value (some a) h = (a, refl)

module _ (nodes : List Node) where
  for_each-Extends {ℓ κ} :
      {A : Type ℓ} (P : A → Type κ) (f : A → NodeMap (List Node) → Outcome (NodeMap (List Node)))
      (e : A → Node → Node → Bool)
      → ((x : A) → P x → (ex : NodeMap (List Node)) → IsKeyed nodes ex → Extends (e x) ex (f x ex))
      → (xs : List A) → All P xs
      → (ex : NodeMap (List Node)) → IsKeyed nodes ex
      → Extends (λ n k. any (λ x. e x n k) xs) ex (for_each f xs ex)
  unfolding for_each any
  for_each-Extends P f e step [] h ex keyed =
      (ex, refl, record { same_keys = λ n. refl; grown = λ n k. ground arith })
  for_each-Extends P f e step (x ∷ xs) h ex keyed =
      let (ex1, e1, g1) = step x h.0 ex keyed in
      let (ex2, e2, g2) =
        for_each-Extends P f e step xs h.1 ex1 (λ n k. g1.same_keys n ∙ keyed n k) in
      (
        ex2,
        ground (arith, e1, e2),
        record {
          same_keys = λ n. g2.same_keys n ∙ g1.same_keys n;
          grown = λ n k. ground (arith, g1.grown n k, g2.grown n k);
        },
      )

  -- The pair that one comparison adds.
  abbrev pub adds : Accesses → Accesses → Node → Node → Bool
  adds (n1, a1) (n2, a2) n k =
      node_eq n1 n && (node_eq n2 k && (not (node_eq n1 n2) && conflicting a1 a2))

  exclude_pair-Extends :
      (x y : Accesses)
      → 0 < count x.0 nodes
      → (ex : NodeMap (List Node)) → IsKeyed nodes ex
      → Extends (adds x y) ex (exclude_pair x y ex)
  unfolding exclude_pair set_insert
  exclude_pair-Extends (n1, a1) (n2, a2) known ex keyed = elim (Bool-cases (node_eq n1 n2)) [
    | inl same ↦
        (ex, rw same, record { same_keys = λ n. refl; grown = λ n k. ground (arith, same) })
    | inr other ↦ elim (Bool-cases (conflicting a1 a2)) [
      | inl clash ↦
          let (l, e) = is_some_value (ex n1) (keyed n1 known) in
          (
            update ex n1 (set_insert n2 l),
            rw (other, clash, e),
            record {
              same_keys = λ n. ground (arith, e, node_eq_iff n1 n);
              grown = λ n k. grown_at n k l e other clash;
            },
          )
      | inr calm ↦ (
        ex,
        rw (other, calm),
        record { same_keys = λ n. refl; grown = λ n k. ground (arith, calm) },
      )
    ]
  ]
    where
      grown_at :
          (n k : Node) (l : List Node)
          → ex n1 ≡ some l
          → node_eq n1 n2 ≡ false
          → conflicting a1 a2 ≡ true
          → in_set (update ex n1 (set_insert n2 l)) n k
            ≡ (in_set ex n k || adds (n1, a1) (n2, a2) n k)
      grown_at n k l e other clash = elim (Bool-cases (node_eq n1 n)) [
        | inl here ↦
            let at : ex n ≡ some l = subst (λ m. ex m ≡ some l) ((node_eq_iff n1 n).0 here) e in
            rw (here, at, other, clash) (ground (arith, set_insert-count n2 k l))
        | inr there ↦ rw there (ground arith)
      ]

  -- Every entry is one of the nodes.
  abbrev pub AreNodes : List Accesses → Type 0
  AreNodes entries = All (λ x. 0 < count x.0 nodes) entries

  abbrev pub resource_adds : List Accesses → Node → Node → Bool
  resource_adds entries n k = any (λ x. any (λ y. adds x y n k) entries) entries

  All-true : (entries : List Accesses) → All (λ (x : Accesses). Unit {0}) entries
  All-true [] = tt
  All-true (x ∷ xs) = (tt, All-true xs)

  exclude_resource-Extends :
      (entries : List Accesses)
      → AreNodes entries
      → (ex : NodeMap (List Node)) → IsKeyed nodes ex
      → Extends (resource_adds entries) ex (exclude_resource entries ex)
  unfolding exclude_resource
  exclude_resource-Extends entries known =
      for_each-Extends (λ x. 0 < count x.0 nodes) (λ x. for_each (exclude_pair x) entries)
        (λ x n k. any (λ y. adds x y n k) entries)
        (λ x h.
          for_each-Extends (λ _. Unit {0}) (exclude_pair x) (adds x)
            (λ y _. exclude_pair-Extends x y h) entries (All-true entries))
        entries known

  collect-IsKeyed {ℓ} :
      {V : Type ℓ} (v : V) (ms : List Node) (n : Node) → 0 < count n ms → collect v ms n ≡ some v
  unfolding collect count
  collect-IsKeyed v [] n h = absurd (omega arith)
  collect-IsKeyed v (m ∷ ms) n h =
      ground (arith, collect-IsKeyed v ms n, node_eq_iff m n, node_eq_iff n m)

  collect_empty : (ms : List Node) (n k : Node) → in_set (collect [] ms) n k ≡ false
  unfolding collect count
  collect_empty [] n k = refl
  collect_empty (m ∷ ms) n k = elim (Bool-cases (node_eq m n)) [
    | inl here ↦ rw here
    | inr there ↦ rw there (collect_empty ms n k)
  ]

  -- Whether some resource has conflicting accesses by two different nodes.
  abbrev pub excludes : List (List Accesses) → Node → Node → Bool
  excludes resources n k = any (λ entries. resource_adds entries n k) resources

  -- When all accesses are by nodes, `build_exclusions` returns, with a set for every node, and `k` is in the set of `n` exactly when
  -- the two are different and have conflicting accesses to some resource.
  pub build_exclusions_lem :
      (resources : List (List Accesses))
      → All AreNodes resources
      → (ex : NodeMap (List Node)) × (build_exclusions nodes resources ≡ ok ex)
        × ((n : Node) → 0 < count n nodes → (l : List Node) × (ex n ≡ some l))
        × ((n k : Node) → in_set ex n k ≡ excludes resources n k)
  unfolding build_exclusions
  build_exclusions_lem resources known =
      let keyed = λ (n : Node) (h : 0 < count n nodes).
        ap is_some (collect-IsKeyed {V = List Node} [] nodes n h) in
      let (ex, e, g) =
        for_each-Extends AreNodes exclude_resource resource_adds exclude_resource-Extends resources
          known (collect [] nodes) keyed in
      (
        ex,
        e,
        λ n h. is_some_value (ex n) (g.same_keys n ∙ keyed n h),
        λ n k. ground (arith, g.grown n k, collect_empty nodes n k),
      )

  adds_sym : (x y : Accesses) (n k : Node) → adds x y n k ≡ adds y x k n
  unfolding conflicting
  adds_sym (n1, a1) (n2, a2) n k = ground (
    arith,
    node_eq_iff n1 n2,
    node_eq_iff n2 n1,
    any_swap conflicts_with a1 a2,
    any_ext (λ b. any (λ a. conflicts_with a b) a1) (λ b. any (conflicts_with b) a1) a2
        (λ b. any_ext _ _ a1 (λ a. conflicts_with_sym a b)),
  )

  -- Exclusion is symmetric.
  pub excludes_sym :
      (resources : List (List Accesses)) (n k : Node)
      → excludes resources n k ≡ excludes resources k n
  excludes_sym resources n k = any_ext _ _ resources λ entries.
      any_swap (λ x y. adds x y n k) entries entries
      ∙ any_ext _ _ entries (λ y. any_ext _ _ entries (λ x. adds_sym x y n k))
