-- ===== src/Storage/Vec/Iterate.antt =====
-- `iter` of `VecStorage` yields exactly the values that the storage holds, in the order of their
-- indices.
use dynec.Common.{
  ℕ, zero, suc, ◌+◌, ◌<◌, ◌≤◌, ◌≡◌, refl, sym, ◌∙◌, ap, Bool, true, false, Option, none, some, List,
  [], ◌∷◌, arith, ◌==◌, if◌then◌else◌, ok, length, get_elem?,
}
use dynec.Storage.Vec.{VecStorage, is_set, read_at, iter_from, iter}
use dynec.Storage.Vec.Access.{ones, cell, cell-some, lookup, IsWell}

module _ {ℓ} {A : Type ℓ} where
  -- The value of an entry list at an index.
  unfoldable pub find : ℕ → List (ℕ × A) → Option A
  find i [] = none
  find i ((j, a) ∷ xs) = if j == i then some a else find i xs

  -- The indices ascend strictly from `k` on.
  unfoldable pub IsAscendingFrom : ℕ → List (ℕ × A) → Type 0
  IsAscendingFrom k [] = Unit
  IsAscendingFrom k ((j, a) ∷ xs) = (k ≤ j) × IsAscendingFrom (suc j) xs

  weaken : (k j : ℕ) (xs : List (ℕ × A)) → k ≤ j → IsAscendingFrom j xs → IsAscendingFrom k xs
  unfolding IsAscendingFrom
  weaken k j [] le up = tt
  weaken k j ((i, a) ∷ xs) le (lt, up) = (omega arith, up)

  find_below : (k i : ℕ) (xs : List (ℕ × A)) → IsAscendingFrom k xs → i < k → find i xs ≡ none
  unfolding IsAscendingFrom find
  find_below k i [] up lt = refl
  find_below k i ((j, a) ∷ xs) (le, up) lt =
      let rest = find_below (suc j) i xs up (omega arith) in ground (arith, rest)

  -- What the entries from `k` on are.
  record IsEntries (cells : List (Option A)) (k : ℕ) (bs : List Bool) (xs : List (ℕ × A))
      : Type ℓ where
    found :
        (i : ℕ)
        → find (k + i) xs
          ≡ (if is_set (get_elem? bs i) then cell (get_elem? cells (k + i)) else none)
    ascending : IsAscendingFrom k xs
    counted : length xs ≡ ones bs

  found_skip :
      (cells : List (Option A)) (k : ℕ) (bs : List Bool) (xs : List (ℕ × A))
      → IsEntries cells (suc k) bs xs
      → (i : ℕ)
      → find (k + i) xs
        ≡ (if is_set (get_elem? (false ∷ bs) i) then cell (get_elem? cells (k + i)) else none)
  found_skip cells k bs xs w zero = find_below (suc k) (k + 0) xs w.ascending (omega arith)
  found_skip cells k bs xs w (suc i) =
      let move : suc k + i ≡ k + suc i = omega arith in rw (sym move) (w.found i)

  found_take :
      (cells : List (Option A)) (k : ℕ) (bs : List Bool) (xs : List (ℕ × A)) (a : A)
      → cell (get_elem? cells (k + 0)) ≡ some a
      → IsEntries cells (suc k) bs xs
      → (i : ℕ)
      → find (k + i) ((k, a) ∷ xs)
        ≡ (if is_set (get_elem? (true ∷ bs) i) then cell (get_elem? cells (k + i)) else none)
  unfolding find
  found_take cells k bs xs a here w zero =
      let same : k == k + 0 ≡ true = ground arith in rw (same, here) refl
  found_take cells k bs xs a here w (suc i) =
      let other : k == k + suc i ≡ false = ground arith in
      let move : k + suc i ≡ suc k + i = omega arith in
      rw other (ap (λ n. find n xs) move ∙ rw move (w.found i))

  iter_from_lem :
      (cells : List (Option A)) (k : ℕ) (bs : List Bool)
      → ((i : ℕ)
          → is_set (get_elem? bs i) ≡ true
          → (a : A) × (cell (get_elem? cells (k + i)) ≡ some a))
      → (xs : List (ℕ × A)) × (iter_from cells k bs ≡ ok xs) × IsEntries cells k bs xs
  unfolding iter_from read_at find IsAscendingFrom ones
  iter_from_lem cells k [] filled =
      ([], refl, record { found = λ i. refl; ascending = tt; counted = refl })
  iter_from_lem cells k (false ∷ bs) filled =
      let (xs, run, w) = iter_from_lem cells (suc k) bs (λ i h.
        let (v, e) = filled (suc i) h in
        (v, ap (λ n. cell (get_elem? cells n)) (omega arith) ∙ e)) in
      (
        xs,
        run,
        record {
          found = found_skip cells k bs xs w;
          ascending = weaken k (suc k) xs (omega arith) w.ascending;
          counted = ground (arith, w.counted);
        },
      )
  iter_from_lem cells k (true ∷ bs) filled =
      let (a, here) = filled 0 refl in
      let (xs, run, w) = iter_from_lem cells (suc k) bs (λ i h.
        let (v, e) = filled (suc i) h in
        (v, ap (λ n. cell (get_elem? cells n)) (omega arith) ∙ e)) in
      (
        (k, a) ∷ xs,
        rw
            (
              cell-some {o = get_elem? cells k}
                  (ap (λ n. cell (get_elem? cells n)) (omega arith) ∙ here),
              run,
            )
            refl,
        record {
          found = found_take cells k bs xs a here w;
          ascending = (omega arith, w.ascending);
          counted = ground (arith, w.counted);
        },
      )

  -- On a well-formed storage `iter` never fails: it yields as many entries as the cardinality says, with
  -- their indices strictly ascending, and for every index the value that the storage holds there.
  pub iter_lem :
      (s : VecStorage A)
      → IsWell s
      → (xs : List (ℕ × A)) × (iter s ≡ ok xs)
        × (length xs ≡ s.cardinality)
        × IsAscendingFrom 0 xs
        × ((i : ℕ) → find i xs ≡ lookup s i)
  unfolding iter lookup
  iter_lem s w =
      let (xs, run, e) = iter_from_lem s.data_cells 0 s.bits (λ i there.
        let (v, e) = w.filled i there in
        (v, ap (λ n. cell (get_elem? s.data_cells n)) (omega arith) ∙ e)) in
      (
        xs,
        run,
        e.counted ∙ sym w.counted,
        e.ascending,
        λ i.
            let start : 0 + i ≡ i = omega arith in
            ap (λ n. find n xs) (sym start)
            ∙ e.found i
            ∙ ap
                (λ n. if is_set (get_elem? s.bits i) then cell (get_elem? s.data_cells n) else none)
                start,
      )
