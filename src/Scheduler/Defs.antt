-- ===== src/Scheduler/Defs.antt =====
-- Nodes, wakeup states and the maps keyed by nodes: `src/scheduler.rs`.
use mathlib.Core.List.{reverse, reverse-cons}
use dynec.Common.{
  ap, ℕ, ◌+◌, ◌≡◌, refl, ◌↔◌, Bool, true, false, Option, some, List, [], ◌∷◌, ◌++◌, arith, ◌==◌,
  if◌then◌else◌,
}

-- The indices of the three sorts are the newtypes of the source.
pub data Node : Type 0 where
  send_system : ℕ → Node
  unsend_system : ℕ → Node
  partition : ℕ → Node

unfoldable pub node_eq : Node → Node → Bool
node_eq (send_system i) (send_system j) = i == j
node_eq (unsend_system i) (unsend_system j) = i == j
node_eq (partition i) (partition j) = i == j
node_eq _ _ = false

pub node_eq_iff : (m n : Node) → (node_eq m n ≡ true) ↔ (m ≡ n)
unfolding node_eq
node_eq_iff (send_system i) (send_system j) = ground arith
node_eq_iff (unsend_system i) (unsend_system j) = ground arith
node_eq_iff (partition i) (partition j) = ground arith
node_eq_iff _ _ = ground arith

pub node_eq_refl : (n : Node) → node_eq n n ≡ true
node_eq_refl n = (node_eq_iff n n).1 refl

abbrev pub is_system : Node → Bool
is_system (send_system _) = true
is_system (unsend_system _) = true
is_system (partition _) = false

-- `NonZeroUsize`: the count is kept positive by the planner's invariant.
pub data WakeupState : Type 0 where
  blocked : (count : ℕ) → WakeupState
  pending : WakeupState
  started : WakeupState
  completed : WakeupState

-- `HashMap<Node, V>`, as its lookup.
abbrev pub NodeMap {ℓ} : Type ℓ → Type ℓ
NodeMap V = Node → Option V

abbrev pub update {ℓ} : {V : Type ℓ} → NodeMap V → Node → V → NodeMap V
update m k v n = if node_eq k n then some v else m n

-- How often a node stands in a list.
unfoldable pub count : Node → List Node → ℕ
count n [] = 0
count n (m ∷ ms) = (if node_eq n m then 1 else 0) + count n ms

pub count_cons :
    (n m : Node) (ms : List Node) → count n (m ∷ ms) ≡ (if node_eq n m then 1 else 0) + count n ms
unfolding count
count_cons n m ms = refl

-- The head of a list is in it.
pub count_self : (n : Node) (ms : List Node) → count n (n ∷ ms) ≡ 1 + count n ms
unfolding count
count_self n ms = rw (node_eq_refl n)

pub count_nil : (n : Node) → count n [] ≡ 0
unfolding count
count_nil n = refl

pub count-append : (n : Node) (ms ks : List Node) → count n (ms ++ ks) ≡ count n ms + count n ks
unfolding count
count-append n [] ks = omega arith
count-append n (m ∷ ms) ks = ground (arith, count-append n ms ks)

pub record Order : Type 0 where
  pub before : Node
  pub after : Node

pub count-reverse : (n : Node) (ms : List Node) → count n (reverse ms) ≡ count n ms
unfolding count
count-reverse n [] = refl
count-reverse n (m ∷ ms) = ground (
  arith,
  ap (count n) (reverse-cons m ms),
  count-append n (reverse ms) (m ∷ []),
  count-reverse n ms,
)
