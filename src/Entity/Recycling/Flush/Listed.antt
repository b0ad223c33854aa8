-- ===== src/Entity/Recycling/Flush/Listed.antt =====
-- The set of recyclable identifiers, as `flush` updates it.
use dynec.Common.{ℕ, ◌≡◌, refl, not, ◌&&◌, ◌||◌, List, [], ◌∷◌, arith, ltb, sum_of}
use dynec.Common.OrdSet.{
  contains, insert, remove, IsOrdered, contains-insert, contains-remove, remove-IsOrdered,
}
use dynec.Common.Bags.{tally}
use dynec.Entity.Recycler.{insert_all}
use dynec.Entity.Recycler.Laws.{insert_all-IsOrdered}
use dynec.Entity.Recycling.{remove_all, drain}

contains-insert_all :
    (x : ℕ) (ids s : List ℕ) → contains x (insert_all ids s) ≡ (ltb 0 (tally x ids) || contains x s)
unfolding insert_all tally
contains-insert_all x [] s = refl
contains-insert_all x (i ∷ ids) s =
    ground (arith, contains-insert_all x ids (insert i s), contains-insert i x s)

remove_all-IsOrdered : (ids s : List ℕ) → IsOrdered s → IsOrdered (remove_all ids s)
unfolding remove_all
remove_all-IsOrdered [] s v = v
remove_all-IsOrdered (i ∷ ids) s v = remove_all-IsOrdered ids (remove i s) (remove-IsOrdered i s v)

contains-remove_all :
    (x : ℕ) (ids s : List ℕ)
    → IsOrdered s
    → contains x (remove_all ids s) ≡ (not (ltb 0 (tally x ids)) && contains x s)
unfolding remove_all tally
contains-remove_all x [] s v = refl
contains-remove_all x (i ∷ ids) s v = ground (
  arith,
  contains-remove_all x ids (remove i s) (remove-IsOrdered i s v),
  contains-remove i x s v,
)

pub drain-IsOrdered :
    (queues : List (List ℕ)) (s : List ℕ) → IsOrdered s → IsOrdered (drain queues s)
unfolding drain
drain-IsOrdered [] s v = v
drain-IsOrdered (queue ∷ queues) s v =
    drain-IsOrdered queues (remove_all queue s) (remove_all-IsOrdered queue s v)

contains-drain :
    (x : ℕ) (queues : List (List ℕ)) (s : List ℕ)
    → IsOrdered s
    → contains x (drain queues s) ≡ (not (ltb 0 (sum_of (tally x) queues)) && contains x s)
unfolding drain sum_of
contains-drain x [] s v = refl
contains-drain x (queue ∷ queues) s v = ground (
  arith,
  contains-drain x queues (remove_all queue s) (remove_all-IsOrdered queue s v),
  contains-remove_all x queue s v,
)

pub listed_lem :
    (x : ℕ) (ids : List ℕ) (queues : List (List ℕ)) (s : List ℕ)
    → IsOrdered s
    → contains x (drain queues (insert_all ids s))
      ≡ (not (ltb 0 (sum_of (tally x) queues)) && (ltb 0 (tally x ids) || contains x s))
listed_lem x ids queues s v = ground (
  arith,
  contains-drain x queues (insert_all ids s) (insert_all-IsOrdered ids s v),
  contains-insert_all x ids s,
)
