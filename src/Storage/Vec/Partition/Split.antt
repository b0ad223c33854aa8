-- ===== src/Storage/Vec/Partition/Split.antt =====
-- `split_out` splits a partition in two that share nothing and lose nothing.
use dynec.Common.{
  ℕ, zero, suc, ◌+◌, ◌-◌, ◌<◌, ◌≤◌, ◌≡◌, refl, ap, ◌∙◌, true, false, none, List, [], ◌∷◌, arith,
  ltb, if◌then◌else◌, Bool-cases, inl, inr, ok, length, get_elem?, take, drop, length-take,
  length-drop, get_elem?_past,
}
use dynec.Storage.Vec.{read_at}
use dynec.Storage.Vec.Partition.{StoragePartition, into_mut, split_out}

module _ {ℓ} {A : Type ℓ} where
  get_elem?-take :
      (n i : ℕ) (xs : List A) → get_elem? (take n xs) i ≡ (if ltb i n then get_elem? xs i else none)
  get_elem?-take zero i xs = ground arith
  get_elem?-take (suc n) i [] = ground arith
  get_elem?-take (suc n) zero (x ∷ xs) = ground arith
  get_elem?-take (suc n) (suc i) (x ∷ xs) =
      get_elem?-take n i xs ∙ ap (λ b. if b then get_elem? xs i else none) (ground arith)

  get_elem?-drop : (n i : ℕ) (xs : List A) → get_elem? (drop n xs) i ≡ get_elem? xs (n + i)
  get_elem?-drop zero i xs = ap (get_elem? xs) (omega arith)
  get_elem?-drop (suc n) i [] = refl
  get_elem?-drop (suc n) i (x ∷ xs) =
      get_elem?-drop n i xs
      ∙ ap (get_elem? (x ∷ xs)) (let e : suc (n + i) ≡ suc n + i = omega arith in e)

module _ {ℓ} {A : Type ℓ} where
  -- What `split_out` at `entity` made of `p`.
  pub record IsSplit (p : StoragePartition A) (entity : ℕ) (left right : StoragePartition A)
      : Type ℓ where
    pub left_covered : length left.bits ≤ length left.data_cells
    pub right_covered : length right.bits ≤ length right.data_cells
    pub below : (i : ℕ) → p.offset ≤ i → i < entity → into_mut left i ≡ into_mut p i
    pub cut : (i : ℕ) → entity ≤ i → into_mut left i ≡ ok none
    pub above : (i : ℕ) → entity ≤ i → into_mut right i ≡ into_mut p i

  IsSplit-within :
      (p : StoragePartition A) (entity : ℕ)
      → p.offset ≤ entity
      → length p.bits ≤ length p.data_cells
      → entity - p.offset ≤ length p.bits
      → IsSplit p entity
          (record p {
            bits = take (entity - p.offset) p.bits;
            data_cells = take (entity - p.offset) p.data_cells;
          })
          (record {
            offset = p.offset + (entity - p.offset);
            bits = drop (entity - p.offset) p.bits;
            data_cells = drop (entity - p.offset) p.data_cells;
          })
  unfolding into_mut read_at
  IsSplit-within p entity le covered within =
      let n : ℕ = entity - p.offset in
      record {
        left_covered = omega (arith, length-take n p.bits, length-take n p.data_cells, covered);
        right_covered = omega (arith, length-drop n p.bits, length-drop n p.data_cells, covered);
        below = λ i lo hi.
            let lt : ltb (i - p.offset) n ≡ true = ground (arith, lo, hi, le) in
            rw
              (
                get_elem?-take n (i - p.offset) p.bits,
                get_elem?-take n (i - p.offset) p.data_cells,
                lt,
              )
              refl;
        cut = λ i lo.
            let lt : ltb (i - p.offset) n ≡ false = ground (arith, lo, le) in
            let in_range : ltb i p.offset ≡ false = ground (arith, lo, le) in
            rw (in_range, get_elem?-take n (i - p.offset) p.bits, lt) refl;
        above = λ i lo.
            let first : ltb i (p.offset + n) ≡ false = ground (arith, lo, le) in
            let whole : ltb i p.offset ≡ false = ground (arith, lo, le) in
            let same : n + (i - (p.offset + n)) ≡ i - p.offset = omega (arith, lo, le) in
            rw
              (
                first,
                whole,
                get_elem?-drop n (i - (p.offset + n)) p.bits,
                get_elem?-drop n (i - (p.offset + n)) p.data_cells,
                same,
              )
              refl;
      }

  IsSplit-past :
      (p : StoragePartition A) (entity : ℕ)
      → p.offset ≤ entity
      → length p.bits ≤ length p.data_cells
      → length p.bits < entity - p.offset
      → IsSplit p entity p
          (record { offset = p.offset + (entity - p.offset); bits = []; data_cells = [] })
  unfolding into_mut
  IsSplit-past p entity le covered past = record {
    left_covered = covered;
    right_covered = omega arith;
    below = λ i lo hi. refl;
    cut = λ i lo.
        let whole : ltb i p.offset ≡ false = ground (arith, lo, le) in
        rw (whole, get_elem?_past p.bits (i - p.offset) (omega (arith, lo, le, past))) refl;
    above = λ i lo.
        let first : ltb i (p.offset + (entity - p.offset)) ≡ false = ground (arith, lo, le) in
        let whole : ltb i p.offset ≡ false = ground (arith, lo, le) in
        rw (first, whole, get_elem?_past p.bits (i - p.offset) (omega (arith, lo, le, past))) refl;
  }

  -- On a partition whose data reach as far as its bits, at an entity from its offset on, `split_out`
  -- returns: the left part keeps what stands below the entity and has nothing from it on, the right
  -- part has all of the rest, and the data of both reach as far as their bits.
  pub split_out_lem :
      (p : StoragePartition A) (entity : ℕ)
      → p.offset ≤ entity
      → length p.bits ≤ length p.data_cells
      → (left : StoragePartition A) × (right : StoragePartition A) × (split_out p entity
          ≡ ok (left, right))
        × IsSplit p entity left right
  unfolding split_out
  split_out_lem p entity le covered =
      let inside : ltb entity p.offset ≡ false = ground (arith, le) in
      elim (Bool-cases (ltb (length p.bits) (entity - p.offset))) [
        | inl past ↦
            (_, _, rw (inside, past) refl, IsSplit-past p entity le covered (ground (arith, past)))
        | inr within ↦
            let enough : ltb (length p.data_cells) (entity - p.offset) ≡ false =
              ground (arith, within, covered) in
            (
              _,
              _,
              rw (inside, within, enough) refl,
              IsSplit-within p entity le covered (ground (arith, within)),
            )
      ]
