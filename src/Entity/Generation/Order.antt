-- ===== src/Entity/Generation/Order.antt =====
-- Repeated uses of an identifier, by `next` of `src/entity/generation.rs`, and the order of its
-- generations.
use dynec.Common.{
  ℕ, zero, suc, ◌+◌, ◌-◌, ◌%◌, ◌^◌, ◌≤◌, ◌<◌, ◌≡◌, ◌≢◌, refl, sym, ap, ◌∙◌, false, Bool-cases, inl,
  inr, [], ◌∷◌, ◌++◌, arith, ◌==◌, ==_refl, leb, ltb, subst, if◌then◌else◌, length, length-append,
  length-replicate, get_elem?, get_elem?-set_self, get_elem?-set_ne, set, replicate,
}
use native.Mathlib.Nat.{mod-add-mod, mod-eq_of_lt, mod-lt, add-mod_right, mod-eq-sub-mod}
use dynec.Entity.Generation.{Generation, Store, or_default, get, resize, next}

get-set :
    (s : Store) (i j : ℕ) (g : Generation)
    → i < length s
    → get j (set s i g) ≡ (if i == j then g else get j s)
unfolding get
get-set s i j g lt = elim (Bool-cases (i == j)) [
  | inl same ↦
      let index : j ≡ i = ground (arith, same) in
      rw same (
        ap (λ n. or_default (get_elem? (set s i g) n)) index
        ∙ ap or_default (get_elem?-set_self s i g lt))
  | inr differ ↦
      rw differ (ap or_default (get_elem?-set_ne s i j g (λ e. ground (arith, e, differ))))
]

get-padded : (s : Store) (n j : ℕ) → get j (s ++ replicate n 0) ≡ get j s
unfolding get
get-padded [] zero j = refl
get-padded [] (suc n) zero = refl
get-padded [] (suc n) (suc j) = get-padded [] n j
get-padded (g ∷ s) n zero = refl
get-padded (g ∷ s) n (suc j) = get-padded s n j

get-resize : (id j : ℕ) (s : Store) → get j (resize id s) ≡ get j s
get-resize id j s = elim (Bool-cases (leb (length s) id)) [
  | inl short ↦ rw short (get-padded s (id + 1 - length s) j)
  | inr long ↦ rw long refl
]

index-resize : (id : ℕ) (s : Store) → id < length (resize id s)
index-resize id s = elim (Bool-cases (leb (length s) id)) [
  | inl short ↦ rw short (
      ground (
        arith,
        short,
        length-append s (replicate (id + 1 - length s) 0),
        length-replicate {A = ℕ} (id + 1 - length s) 0,
      ))
  | inr long ↦ rw long (ground (arith, long))
]

next_lem :
    (id j : ℕ) (s : Store)
    → get j (next id s).1 ≡ (if id == j then (get id s + 1) % 2 ^ 32 else get j s)
unfolding next
next_lem id j s =
    get-set (resize id s) id j ((get id (resize id s) + 1) % 2 ^ 32) (index-resize id s)
    ∙ rw (get-resize id id s, get-resize id j s) refl

-- The store after an identifier was taken into use again some times.
unfoldable pub nexts : ℕ → ℕ → Store → Store
nexts zero id s = s
nexts (suc k) id s = nexts k id (next id s).1

nexts-get :
    (k id : ℕ) (s : Store) → get id s < 2 ^ 32 → get id (nexts k id s) ≡ (get id s + k) % 2 ^ 32
unfolding nexts
nexts-get zero id s small =
    let plain : get id s + 0 ≡ get id s = omega arith in
    sym (ap (λ n. n % 2 ^ 32) plain ∙ mod-eq_of_lt small)
nexts-get (suc k) id s small =
    let bumped : get id (next id s).1 ≡ (get id s + 1) % 2 ^ 32 =
      next_lem id id s ∙ rw (==_refl id) refl in
    let small' : get id (next id s).1 < 2 ^ 32 =
      subst (λ n. n < 2 ^ 32) (sym bumped) (mod-lt (get id s + 1) (omega arith)) in
    let later : get id s + 1 + k ≡ get id s + suc k = omega arith in
    nexts-get k id (next id s).1 small'
    ∙ ap (λ n. (n + k) % 2 ^ 32) bumped
    ∙ mod-add-mod (get id s + 1) (2 ^ 32) k
    ∙ ap (λ n. n % 2 ^ 32) later

nexts_other : (k id j : ℕ) (s : Store) → id ≢ j → get j (nexts k id s) ≡ get j s
unfolding nexts
nexts_other zero id j s differ = refl
nexts_other (suc k) id j s differ =
    let other : id == j ≡ false = ground (arith, differ) in
    nexts_other k id j (next id s).1 differ ∙ next_lem id j s ∙ rw other refl

moved : (m g k : ℕ) → g < m → 0 < k → k < m → (g + k) % m ≢ g
moved m g k small pos less e = elim (Bool-cases (ltb (g + k) m)) [
  | inl within ↦
      let same : (g + k) % m ≡ g + k = mod-eq_of_lt (ground (arith, within)) in
      omega (arith, same, e, pos)
  | inr past ↦
      let over : (g + k) % m ≡ (g + k - m) % m = mod-eq-sub-mod (ground (arith, past)) in
      let reduced : (g + k - m) % m ≡ g + k - m = mod-eq_of_lt (omega (arith, small, less)) in
      let wrapped : m ≤ g + k = ground (arith, past) in
      omega (arith, over, reduced, e, less, wrapped)
]

compared : (m g k : ℕ) → g < m → 0 < k → k < m → ltb g ((g + k) % m) ≡ ltb (g + k) m
compared m g k small pos less = elim (Bool-cases (ltb (g + k) m)) [
  | inl within ↦
      let same : (g + k) % m ≡ g + k = mod-eq_of_lt (ground (arith, within)) in
      rw (same, within) (ground (arith, pos))
  | inr past ↦
      let over : (g + k) % m ≡ (g + k - m) % m = mod-eq-sub-mod (ground (arith, past)) in
      let reduced : (g + k - m) % m ≡ g + k - m = mod-eq_of_lt (omega (arith, small, less)) in
      let wrapped : m ≤ g + k = ground (arith, past) in
      rw (over, reduced, past) (ground (arith, less, wrapped))
]

-- For an identifier taken into use `k` more times, with 0 < k: when `k` is below 2 ^ 32, its generation is
-- another one than before, and greater than before exactly when the old generation plus `k` is below
-- 2 ^ 32; after 2 ^ 32 uses, the generation is the same again; the other identifiers keep theirs.
pub nexts_order :
    (k id : ℕ) (s : Store)
    → get id s < 2 ^ 32
    → 0 < k
    → (k < 2 ^ 32
        → (get id (nexts k id s) ≢ get id s)
          × (ltb (get id s) (get id (nexts k id s)) ≡ ltb (get id s + k) (2 ^ 32)))
      × (get id (nexts (2 ^ 32) id s) ≡ get id s)
      × ((j : ℕ) → id ≢ j → get j (nexts k id s) ≡ get j s)
nexts_order k id s small pos = (
  λ less. (
    λ e. moved (2 ^ 32) (get id s) k small pos less (sym (nexts-get k id s small) ∙ e),
    ap (ltb (get id s)) (nexts-get k id s small) ∙ compared (2 ^ 32) (get id s) k small pos less,
  ),
  nexts-get (2 ^ 32) id s small ∙ add-mod_right (get id s) (2 ^ 32) ∙ mod-eq_of_lt small,
  λ j differ. nexts_other k id j s differ,
)
