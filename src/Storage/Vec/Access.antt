-- ===== src/Storage/Vec/Access.antt =====
-- `get` and `set` of `VecStorage` behave as those of a partial map, and never read uninitialised
-- memory.
use mathlib.Core.List.{append-nil}
use dynec.Common.{
  ℕ, zero, suc, ◌+◌, ◌-◌, ◌<◌, ◌≡◌, refl, sym, ap, ◌∙◌, Bool, true, false, Option, none, some, List,
  [], ◌∷◌, ◌++◌, arith, ◌==◌, ltb, leb, ==_iff, if◌then◌else◌, Bool-cases, inl, inr, ok, length,
  get_elem?, set, replicate, length-append, length-replicate, get_elem?-set_self, get_elem?-set_ne,
  get_elem?_within,
}
use dynec.Storage.Vec.{VecStorage, grow, is_set, bit_delta, set_bit, get, write_at, store}

-- The number of set bits.
unfoldable pub ones : List Bool → ℕ
ones [] = 0
ones (b ∷ bs) = bit_delta b + ones bs

abbrev pub cell {ℓ} : {A : Type ℓ} → Option (Option A) → Option A
cell none = none
cell (some o) = o

pub cell-some {ℓ} :
    {A : Type ℓ} {o : Option (Option A)} {a : A} → cell o ≡ some a → o ≡ some (some a)
cell-some {o = none} e = absurd (ground (arith, e))
cell-some {o = some o} e = ap some e

module _ {ℓ} {A : Type ℓ} where
  -- The value that a storage holds at an index.
  unfoldable pub lookup : VecStorage A → ℕ → Option A
  lookup s i = if is_set (get_elem? s.bits i) then cell (get_elem? s.data_cells i) else none

  -- Every set bit stands before an initialised cell, and the bits are counted.
  pub record IsWell (s : VecStorage A) : Type ℓ where
    pub filled :
        (i : ℕ)
        → is_set (get_elem? s.bits i) ≡ true
        → (a : A) × (cell (get_elem? s.data_cells i) ≡ some a)
    pub counted : s.cardinality ≡ ones s.bits

  -- `get` never fails on a well-formed storage.
  pub get_lem : (s : VecStorage A) (i : ℕ) → IsWell s → get s i ≡ ok (lookup s i)
  unfolding get lookup
  get_lem s i w = elim (Bool-cases (is_set (get_elem? s.bits i))) [
    | inl set_there ↦
        let (a, e) = w.filled i set_there in
        rw (set_there, cell-some {o = get_elem? s.data_cells i} e) refl
    | inr clear ↦ rw clear
  ]

abbrev held {ℓ} : {A : Type ℓ} → List A → ℕ → A → List A
held xs i v = if leb (length xs) i then grow xs (i + 1) v else xs

-- A vector that grows to hold `i` does hold it, and has the new value at its end only.
held_lem {ℓ} :
    {A : Type ℓ} (xs : List A) (i : ℕ) (v : A)
    → (n : ℕ) × (held xs i v ≡ xs ++ replicate n v) × (i < length xs + n)
held_lem xs i v = elim (Bool-cases (leb (length xs) i)) [
  | inl e ↦ (
    i + 1 - length xs,
    let le : leb (length xs) (i + 1) ≡ true = ground (arith, e) in rw (e, le) refl,
    ground (arith, e),
  )
  | inr e ↦ (0, rw (e, append-nil xs) refl, ground (arith, e))
]

-- Reading after a write within bounds.
get_elem?-set {ℓ} :
    {A : Type ℓ} (xs : List A) (i j : ℕ) (v : A)
    → i < length xs
    → get_elem? (set xs i v) j ≡ (if i == j then some v else get_elem? xs j)
get_elem?-set xs i j v lt = elim (Bool-cases (i == j)) [
  | inl same ↦ rw (same, sym ((==_iff i j).0 same)) (get_elem?-set_self xs i v lt)
  | inr other ↦ rw other (get_elem?-set_ne xs i j v (λ e. ground (arith, e, other)))
]

-- A function passes into the branches of a test.
if_ap {ℓ κ} :
    {A : Type ℓ} {B : Type κ} (f : A → B) (b : Bool) (x y : A)
    → f (if b then x else y) ≡ (if b then f x else f y)
if_ap f true x y = refl
if_ap f false x y = refl

is_set-replicate : (n i : ℕ) → is_set (get_elem? (replicate n false) i) ≡ false
is_set-replicate zero i = refl
is_set-replicate (suc n) zero = refl
is_set-replicate (suc n) (suc i) = is_set-replicate n i

is_set-append :
    (bs : List Bool) (n i : ℕ)
    → is_set (get_elem? (bs ++ replicate n false) i) ≡ is_set (get_elem? bs i)
is_set-append [] n i = is_set-replicate n i
is_set-append (b ∷ bs) n zero = refl
is_set-append (b ∷ bs) n (suc i) = is_set-append bs n i

ones-append : (bs : List Bool) (n : ℕ) → ones (bs ++ replicate n false) ≡ ones bs
unfolding ones
ones-append [] zero = refl
ones-append [] (suc n) = omega (arith, ones-append [] n)
ones-append (b ∷ bs) n = ap (λ k. bit_delta b + k) (ones-append bs n)

ones-set :
    (bs : List Bool) (i : ℕ) (new old : Bool)
    → get_elem? bs i ≡ some old
    → ones (set bs i new) + bit_delta old ≡ ones bs + bit_delta new
unfolding ones
ones-set [] i new old e = ground (arith, e)
ones-set (b ∷ bs) zero new old e = ground (arith, e)
ones-set (b ∷ bs) (suc i) new old e = omega (arith, ones-set bs i new old e)

-- What `set_bit` changes.
record IsMarked {ℓ} {A : Type ℓ} (s : VecStorage A) (i : ℕ) (b : Bool) (s1 : VecStorage A)
    : Type ℓ where
  data_kept : s1.data_cells ≡ s.data_cells
  counted : s1.cardinality ≡ ones s1.bits
  marked :
      (j : ℕ) → is_set (get_elem? s1.bits j) ≡ (if i == j then b else is_set (get_elem? s.bits j))

module _ {ℓ} {A : Type ℓ} where
  cell-replicate : (n i : ℕ) → cell {A = A} (get_elem? (replicate n none) i) ≡ none
  cell-replicate zero i = refl
  cell-replicate (suc n) zero = refl
  cell-replicate (suc n) (suc i) = cell-replicate n i

  cell-append :
      (cs : List (Option A)) (n i : ℕ)
      → cell (get_elem? (cs ++ replicate n none) i) ≡ cell (get_elem? cs i)
  cell-append [] n i = cell-replicate n i
  cell-append (c ∷ cs) n zero = refl
  cell-append (c ∷ cs) n (suc i) = cell-append cs n i

  set_bit_lem :
      (s : VecStorage A) (i : ℕ) (b : Bool)
      → s.cardinality ≡ ones s.bits
      → (s1 : VecStorage A) × (set_bit s i b ≡ ok s1) × IsMarked s i b s1
  unfolding set_bit
  set_bit_lem s i b e =
      let (n, grown, lt) = held_lem s.bits i false in
      let bits : List Bool = s.bits ++ replicate n false in
      let within : i < length bits =
        omega (arith, lt, length-append s.bits (replicate n false), length-replicate n false) in
      let (old, there) = get_elem?_within bits i within in
      let kept : ones bits ≡ ones s.bits = ones-append s.bits n in
      let cleared = ones-set bits i false old there in
      let changed = ones-set bits i b old there in
      let enough : ltb s.cardinality (bit_delta old) ≡ false = ground (arith, e, kept, cleared) in
      (
        record s { bits = set bits i b; cardinality = s.cardinality - bit_delta old + bit_delta b },
        rw (grown, there, enough) refl,
        record {
          data_kept = refl;
          counted = ground (arith, e, kept, cleared, changed);
          marked = λ j.
              rw (get_elem?-set bits i j b within, if_ap is_set (i == j), is_set-append s.bits n j)
                refl;
        },
      )

  cell-write_at :
      (s : VecStorage A) (i j : ℕ) (new : A)
      → cell (get_elem? (write_at s i new).data_cells j)
        ≡ (if i == j then some new else cell (get_elem? s.data_cells j))
  unfolding write_at
  cell-write_at s i j new =
      let (n, grown, lt) = held_lem s.data_cells i none in
      let cells : List (Option A) = s.data_cells ++ replicate n none in
      let within : i < length cells = omega (
        arith,
        lt,
        length-append s.data_cells (replicate n none),
        length-replicate {A = Option A} n none,
      ) in
      rw
        (
          grown,
          get_elem?-set cells i j (some new) within,
          if_ap cell (i == j) (some (some new)) (get_elem? cells j),
          cell-append s.data_cells n j,
        )
        refl

  -- `set` of the `Storage` trait never fails on a well-formed storage: it returns the old value, keeps
  -- the storage well formed, changes the value at its index and no other, and then `get` reads the
  -- new values.
  pub store_lem :
      (s : VecStorage A) (i : ℕ) (new : Option A)
      → IsWell s
      → (s' : VecStorage A) × (store s i new ≡ ok (lookup s i, s'))
        × IsWell s'
        × ((j : ℕ) → get s' j ≡ ok (if i == j then new else lookup s j))
  unfolding store write_at lookup
  store_lem s i none w =
      let (s1, marked_eq, m) = set_bit_lem s i false w.counted in
      let well : IsWell s1 = record {
        filled = λ j there. elim (Bool-cases (i == j)) [
          | inl same ↦ absurd (ground (arith, same, there, m.marked j))
          | inr other ↦ rw m.data_kept (w.filled j (ground (arith, other, there, m.marked j)))
        ];
        counted = m.counted;
      } in
      (
        s1,
        rw (get_lem s i w, marked_eq) refl,
        well,
        λ j. get_lem s1 j well ∙ elim (Bool-cases (i == j)) [
          | inl same ↦ rw (m.marked j, same) refl
          | inr other ↦ rw (m.marked j, m.data_kept, other) refl
        ],
      )
  store_lem s i (some new) w =
      let (s1, marked_eq, m) = set_bit_lem s i true w.counted in
      let well : IsWell (write_at s1 i new) = record {
        filled = λ j there. elim (Bool-cases (i == j)) [
          | inl same ↦ (new, rw (cell-write_at s1 i j new, same) refl)
          | inr other ↦
              rw (cell-write_at s1 i j new, other, m.data_kept)
                (w.filled j (ground (arith, other, there, m.marked j)))
        ];
        counted = m.counted;
      } in
      (
        write_at s1 i new,
        rw (get_lem s i w, marked_eq) refl,
        well,
        λ j. get_lem (write_at s1 i new) j well ∙ elim (Bool-cases (i == j)) [
          | inl same ↦ rw (cell-write_at s1 i j new, m.marked j, same) refl
          | inr other ↦ rw (cell-write_at s1 i j new, m.marked j, m.data_kept, other) refl
        ],
      )
