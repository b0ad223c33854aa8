-- ===== src/Discrim/Examples.antt =====
-- The theorems on discriminants and their maps at concrete inputs; a discriminant is its own number.
use dynec.Common.{
  ℕ, ◌≡◌, ◌<◌, ◌+◌, refl, Option, none, some, List, [], ◌∷◌, map, arith, ◌==◌, if◌then◌else◌,
  Outcome, ok, panic, Panic, ◌>>=◌, All,
}
use dynec.Common.OrdSet.{IsOrdered}
use dynec.Common.Bags.{tally}
use dynec.Discrim.{Discrim, IsDiscrim, split_mut_array, slot_in, split_from}
use dynec.Util.{all}
use dynec.Discrim.Split.{IsDistinct, IsUnaliased, split_mut_array-IsUnaliased}
use dynec.Discrim.Full.{keys, AllKeys, unwrap_or}
use dynec.Discrim.Sorted.{
  get_by, read, get_by_or_insert, get_mut_array_by as sorted_many, get_by_or_insert_array,
  sorted_map, binary_search, search_from,
}
use dynec.Discrim.Sorted.Laws.{sorted_insert_lem, sorted_map-IsFullMap}
use dynec.Discrim.Bounded.{bounded_map, get_by as bounded_get}
use dynec.Discrim.Bounded.Laws.{bounded_map-IsFullMap}
use dynec.Discrim.Slots.{Covers}
use dynec.Discrim.Array.{from_iter, put_all, put_new, get_by_or_insert_array as array_insert_array}
use dynec.Discrim.Array.Laws.{from_iter_ok}
use dynec.Discrim.Agree.{serve, serve_alike}
use dynec.Discrim.Many.{Pairwise, Holds, sorted_many_lem}
use dynec.Discrim.Faults.{sorted_insert_panics, sorted_insert_shifts, array_transform_lem}

abbrev number : Discrim ℕ
number = record { same = λ a b. a == b; into_usize = λ n. n; from_usize = ok }

abbrev number-IsDiscrim : IsDiscrim number
number-IsDiscrim = record { same_lem = λ a b. refl; from_usize-into_usize = λ d. refl }

abbrev three : List (ℕ × ℕ)
three = (2, 20) ∷ (5, 50) ∷ (7, 70) ∷ []

-- Every number is a discriminant.
every : (low high : ℕ) → Covers number low high
every low high j lo hi = (j, refl)

abbrev wide : List (ℕ × ℕ)
wide = (2, 20) ∷ (5, 50) ∷ []

abbrev two_values : List (ℕ × ℕ)
two_values = (2, 20) ∷ (0, 10) ∷ []

abbrev getter : ℕ → Outcome (Option ℕ)
getter index = ok (slot_in three index)

split_run :
    split_mut_array {U = ℕ}
      (λ slot. slot)
      getter
      (λ i slot. ok slot)
      (λ i. Panic.missing_key)
      (2 ∷ 0 ∷ [])
    ≡ ok (2 ∷ 0 ∷ [])
unfolding split_mut_array split_from slot_in all
split_run = refl

split_mut_array-IsUnaliased_example :
    IsUnaliased
      (λ slot. slot)
      getter
      (λ i slot. ok slot)
      (λ i. Panic.missing_key)
      (2 ∷ 0 ∷ [])
      (2 ∷ 0 ∷ [])
split_mut_array-IsUnaliased_example =
    split_mut_array-IsUnaliased (λ slot. slot) getter (λ i slot. ok slot) (λ i. Panic.missing_key)
      (2 ∷ 0 ∷ []) (2 ∷ 0 ∷ []) split_run

two_keys : IsDistinct (7 ∷ 2 ∷ [])
unfolding tally
two_keys x = ground arith

present : All (λ d. (v : ℕ) × (get_by number d three ≡ some v)) (7 ∷ 2 ∷ [])
unfolding get_by binary_search search_from
present = ((70, refl), ((20, refl), tt))

three-IsOrdered : IsOrdered (keys number three)
three-IsOrdered = (omega arith, (omega arith, tt))

sorted_many_lem_example :
    (slots : List ℕ) × (sorted_many number {U = ℕ} (λ u. u) (λ slot. slot) (7 ∷ 2 ∷ []) three
      ≡ ok (map (λ slot. slot) slots))
    × Pairwise (Holds number three) (7 ∷ 2 ∷ []) slots
sorted_many_lem_example =
    sorted_many_lem number three (λ u. u) (λ slot. slot) (λ a b e. e) number-IsDiscrim (7 ∷ 2 ∷ [])
      three-IsOrdered two_keys present

sorted_insert_lem_example :
    (slot : ℕ) × (m' : List (ℕ × ℕ)) × (get_by_or_insert number 4 40 three ≡ ok (slot, m'))
    × IsOrdered (keys number m')
    × (read number m' slot ≡ some (unwrap_or (get_by number 4 three) 40))
    × ((d' : ℕ)
        → get_by number d' m' ≡ (
            if 4 == d'
            then some (unwrap_or (get_by number 4 three) 40)
            else get_by number d' three))
sorted_insert_lem_example = sorted_insert_lem number-IsDiscrim 4 40 three three-IsOrdered

array_run : from_iter number 3 two_values ≡ ok (some 10 ∷ none ∷ some 20 ∷ [])
unfolding from_iter put_all put_new
array_run = refl

from_iter_ok_example : IsDistinct (keys number two_values) × AllKeys number (λ d. d < 3) two_values
from_iter_ok_example =
    from_iter_ok number-IsDiscrim 3 two_values (some 10 ∷ none ∷ some 20 ∷ []) array_run

three-IsDistinct : IsDistinct (keys number three)
unfolding tally
three-IsDistinct x = ground arith

serve_alike_example :
    (vs : List ℕ) × (a : List (ℕ × ℕ)) × (b : List (Option ℕ)) × (serve
        (sorted_map number)
        (λ d. d + 1)
        three
        (4 ∷ 5 ∷ 4 ∷ [])
      ≡ ok (vs, a))
    × (serve (bounded_map number 3) (λ d. d + 1) three (4 ∷ 5 ∷ 4 ∷ []) ≡ ok (vs, b))
    × ((d : ℕ) → get_by number d a ≡ bounded_get number d b)
serve_alike_example =
    serve_alike (sorted_map-IsFullMap number-IsDiscrim)
      (bounded_map-IsFullMap number-IsDiscrim 3 (every 0 3)) (λ d. d + 1) three (4 ∷ 5 ∷ 4 ∷ [])
      three-IsDistinct (tt, (tt, (tt, tt))) (every 0 3, (every 0 6, (every 0 8, tt)))
      (tt, (tt, (tt, tt))) (every 0 5, (every 0 6, (every 0 5, tt)))

sorted_insert_panics_example :
    get_by_or_insert_array number {U = ℕ} (λ u. u) (λ d. 0) (λ d slot. slot) (2 ∷ 1 ∷ []) three
    ≡ panic Panic.duplicate_key
sorted_insert_panics_example =
    sorted_insert_panics number (λ u. u) (λ d. 0) (λ d slot. slot) 2 1 20 ((5, 50) ∷ (7, 70) ∷ [])
      (omega arith)

sorted_insert_shifts_example :
    get_by_or_insert_array number {U = ℕ} (λ u. u) (λ d. 0) (λ d slot. slot) (5 ∷ 1 ∷ []) wide
    ≡ ok (1 ∷ 0 ∷ [], (1, 0) ∷ (2, 20) ∷ (5, 50) ∷ [])
sorted_insert_shifts_example =
    sorted_insert_shifts number (λ u. u) (λ d. 0) (λ d slot. slot) 2 1 5 20 50 (omega arith)
      (omega arith) (λ e. omega (arith, e))

array_transform_lem_example :
    (m' : List (Option ℕ)) × (array_insert_array number {U = ℕ × ℕ}
        (λ u. u.1)
        (λ d. 0)
        (λ d slot. (d, slot))
        (2 ∷ [])
        (none ∷ none ∷ none ∷ [])
      ≡ (ok 0 >>= λ first. ok ((first, 2) ∷ [], m')))
array_transform_lem_example =
    array_transform_lem number (λ u. u.1) (λ d. 0) (λ d slot. (d, slot)) 2 (none ∷ none ∷ none ∷ [])
      (omega arith)
