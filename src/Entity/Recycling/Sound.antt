-- ===== src/Entity/Recycling/Sound.antt =====
-- The places of an identifier in the allocator of `src/entity/ealloc/recycling.rs`.
use dynec.Common.{
  ℕ, zero, suc, ◌+◌, ◌<◌, ◌≤◌, ◌≡◌, Bool, ◌&&◌, ◌||◌, some, List, [], ◌∷◌, arith, ◌==◌, ltb, leb,
  if◌then◌else◌, All, subst, sum_of, length, get_elem?, set,
}
use dynec.Common.OrdSet.{contains, IsOrdered}
use dynec.Common.Bags.{tally}
use dynec.Entity.Recycler.{Recycler}
use dynec.Entity.Recycler.Laws.{IsRecycler}
use dynec.Entity.Recycling.{Recycling}

-- The identifiers that a gauge has issued; at zero it has issued all below the limit.
abbrev pub issued : ℕ → ℕ → ℕ → Bool
issued limit gauge x = leb 1 x && (ltb x limit && (gauge == 0 || ltb x gauge))

module _ {R Hint : Type 0} {recycler : Recycler R Hint} (laws : IsRecycler recycler) where
  abbrev pub free : List R → ℕ → ℕ
  free shards x = sum_of (laws.holds x) shards

  -- With the identifiers `live` out with the callers: each identifier issued is once among these, in a
  -- recycler or in the queue, and no other is anywhere.
  pub record IsSound (limit : ℕ) (live : List ℕ) (s : Recycling R) : Type 0 where
    pub valid : All laws.IsValid s.recycler_shards
    pub accounted :
        (x : ℕ)
        → tally x live + (free s.recycler_shards x + tally x s.dealloc_queue)
          ≡ (if issued limit s.global_gauge x then 1 else 0)
    pub bounded : s.global_gauge < limit
    pub queues : length s.reuse_queue_shards ≡ length s.recycler_shards

  -- The set `recyclable` lags behind by the reuse queues.
  pub record IsSynced (s : Recycling R) : Type 0 where
    pub ordered : IsOrdered s.recyclable
    pub listed :
        (x : ℕ)
        → contains x s.recyclable
          ≡ ltb 0 (free s.recycler_shards x + sum_of (tally x) s.reuse_queue_shards)
    pub apart : (x : ℕ) → 0 < sum_of (tally x) s.reuse_queue_shards → free s.recycler_shards x ≡ 0

-- Writing one element of a list changes a sum by it.
pub sum_of-set {ℓ} :
    {A : Type ℓ} (f : A → ℕ) (xs : List A) (i : ℕ) (old new : A)
    → get_elem? xs i ≡ some old
    → sum_of f (set xs i new) + f old ≡ sum_of f xs + f new
unfolding sum_of
sum_of-set f [] i old new e = ground (arith, e)
sum_of-set f (x ∷ xs) zero old new e = ground (arith, e)
sum_of-set f (x ∷ xs) (suc i) old new e = omega (arith, sum_of-set f xs i old new e)

pub sum_of-get {ℓ} :
    {A : Type ℓ} (f : A → ℕ) (xs : List A) (i : ℕ) (v : A)
    → get_elem? xs i ≡ some v
    → f v ≤ sum_of f xs
unfolding sum_of
sum_of-get f [] i v e = absurd (ground (arith, e))
sum_of-get f (x ∷ xs) zero v e = ground (arith, e)
sum_of-get f (x ∷ xs) (suc i) v e = omega (arith, sum_of-get f xs i v e)

pub All-set {ℓ κ} :
    {A : Type ℓ} (P : A → Type κ) (xs : List A) (i : ℕ) (v : A)
    → All P xs
    → P v
    → All P (set xs i v)
All-set P [] i v a p = a
All-set P (x ∷ xs) zero v a p = (p, a.1)
All-set P (x ∷ xs) (suc i) v a p = (a.0, All-set P xs i v a.1 p)

pub All-get_elem? {ℓ κ} :
    {A : Type ℓ} (P : A → Type κ) (xs : List A) (i : ℕ) (v : A)
    → All P xs
    → get_elem? xs i ≡ some v
    → P v
All-get_elem? P [] i v a e = absurd (ground (arith, e))
All-get_elem? P (x ∷ xs) zero v a e = let same : x ≡ v = (cc) in subst P same a.0
All-get_elem? P (x ∷ xs) (suc i) v a e = All-get_elem? P xs i v a.1 e
