-- ===== src/Scheduler/Builder/Nodes.antt =====
-- The nodes of a topology, as a builder numbers them.
use dynec.Common.{
  ℕ, zero, suc, ◌+◌, ◌≤◌, ◌<◌, ◌≡◌, refl, Bool, true, false, List, [], ◌∷◌, ◌++◌, arith, ◌==◌, ltb,
  if◌then◌else◌, All,
}
use dynec.Scheduler.Defs.{
  Node, send_system, unsend_system, partition, Order, node_eq, is_system, count, count-append,
}
use dynec.Scheduler.Topology.{upto, node_list}
use dynec.Scheduler.Topology.Dependents.{IsSchedule}

count-upto :
    (n i : ℕ) (to_node : ℕ → Node)
    → ((j : ℕ) → node_eq (to_node i) (to_node j) ≡ (i == j))
    → count (to_node i) (upto n to_node) ≡ (if ltb i n then 1 else 0)
unfolding upto count
count-upto zero i to_node same = ground arith
count-upto (suc n) i to_node same = ground (
  arith,
  count-upto n i to_node same,
  same n,
  count-append (to_node i) (upto n to_node) (to_node n ∷ []),
)

count-upto_other :
    (n : ℕ) (m : Node) (to_node : ℕ → Node)
    → ((j : ℕ) → node_eq m (to_node j) ≡ false)
    → count m (upto n to_node) ≡ 0
unfolding upto count
count-upto_other zero m to_node other = refl
count-upto_other (suc n) m to_node other = ground (
  arith,
  count-upto_other n m to_node other,
  other n,
  count-append m (upto n to_node) (to_node n ∷ []),
)

-- Whether a node is registered.
abbrev registered : ℕ → ℕ → ℕ → Node → Bool
registered a u p (send_system i) = ltb i a
registered a u p (unsend_system i) = ltb i u
registered a u p (partition i) = ltb i p

pub count-node_list :
    (a u p : ℕ) (n : Node) → count n (node_list a u p) ≡ (if registered a u p n then 1 else 0)
unfolding node_list node_eq
count-node_list a u p n = omega (
  arith,
  count-append n (upto a send_system) (upto u unsend_system ++ upto p partition),
  count-append n (upto u unsend_system) (upto p partition),
  parts n,
)
  where
    parts :
        (n : Node)
        → count n (upto a send_system)
            + (count n (upto u unsend_system) + count n (upto p partition))
          ≡ (if registered a u p n then 1 else 0)
    parts (send_system i) = omega (
      arith,
      count-upto a i send_system (λ j. refl),
      count-upto_other u (send_system i) unsend_system (λ j. refl),
      count-upto_other p (send_system i) partition (λ j. refl),
    )
    parts (unsend_system i) = omega (
      arith,
      count-upto_other a (unsend_system i) send_system (λ j. refl),
      count-upto u i unsend_system (λ j. refl),
      count-upto_other p (unsend_system i) partition (λ j. refl),
    )
    parts (partition i) = omega (
      arith,
      count-upto_other a (partition i) send_system (λ j. refl),
      count-upto_other u (partition i) unsend_system (λ j. refl),
      count-upto p i partition (λ j. refl),
    )

pub known_grows :
    (a u p a' u' p' : ℕ) (n : Node)
    → a ≤ a'
    → u ≤ u'
    → p ≤ p'
    → 0 < count n (node_list a u p)
    → 0 < count n (node_list a' u' p')
known_grows a u p a' u' p' (send_system i) la lu lp h =
    ground (
      arith,
      la,
      h,
      count-node_list a u p (send_system i),
      count-node_list a' u' p' (send_system i),
    )
known_grows a u p a' u' p' (unsend_system i) la lu lp h = ground (
  arith,
  lu,
  h,
  count-node_list a u p (unsend_system i),
  count-node_list a' u' p' (unsend_system i),
)
known_grows a u p a' u' p' (partition i) la lu lp h =
    ground
      (arith, lp, h, count-node_list a u p (partition i), count-node_list a' u' p' (partition i))

All-map :
    {A : Type 0} {P Q : A → Type 0} (xs : List A) → ((x : A) → P x → Q x) → All P xs → All Q xs
All-map [] f h = tt
All-map (x ∷ xs) f h = (f x h.0, All-map xs f h.1)

All-snoc :
    {A : Type 0} (P : A → Type 0) (xs : List A) (x : A) → All P xs → P x → All P (xs ++ x ∷ [])
All-snoc P [] x h p = (p, tt)
All-snoc P (y ∷ xs) x h p = (h.0, All-snoc P xs x h.1 p)

pub node_list_distinct : (a u p : ℕ) (n : Node) → count n (node_list a u p) ≤ 1
node_list_distinct a u p n = ground (arith, count-node_list a u p n)

-- More nodes keep a schedule.
pub IsSchedule-grow :
    (a u p a' u' p' : ℕ) (orders : List Order)
    → a ≤ a'
    → u ≤ u'
    → p ≤ p'
    → IsSchedule (node_list a u p) orders
    → IsSchedule (node_list a' u' p') orders
IsSchedule-grow a u p a' u' p' orders la lu lp h = record {
  distinct = node_list_distinct a' u' p';
  befores = All-map orders (λ o. known_grows a u p a' u' p' o.before la lu lp) h.befores;
  afters = All-map orders (λ o. known_grows a u p a' u' p' o.after la lu lp) h.afters;
  bipartite = h.bipartite;
}

pub IsSchedule-snoc :
    (nodes : List Node) (orders : List Order) (o : Order)
    → IsSchedule nodes orders
    → 0 < count o.before nodes
    → 0 < count o.after nodes
    → (is_system o.before ≡ false → is_system o.after ≡ true)
    → IsSchedule nodes (orders ++ o ∷ [])
IsSchedule-snoc nodes orders o h before after sides = record {
  distinct = h.distinct;
  befores = All-snoc (λ o. 0 < count o.before nodes) orders o h.befores before;
  afters = All-snoc (λ o. 0 < count o.after nodes) orders o h.afters after;
  bipartite =
      All-snoc (λ o. is_system o.before ≡ false → is_system o.after ≡ true) orders o h.bipartite
        sides;
}
