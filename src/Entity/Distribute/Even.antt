-- ===== src/Entity/Distribute/Even.antt =====
-- The sizes that `distribute_sorted` returns are level.
use dynec.Common.{
  ℕ, zero, suc, ◌+◌, ◌-◌, ◌*◌, ◌/◌, ◌%◌, ◌<◌, ◌≤◌, ◌≡◌, refl, ap, false, List, [], ◌∷◌, ◌++◌, arith,
  ◌==◌, Bool-cases, ◌⊎◌, inl, inr, ok, All, length, replicate, drop, subst,
}
use native.Mathlib.Nat.{div-add-mod, mod-lt}
use dynec.Entity.Distribute.{Level, spread, distribute_sorted}
use dynec.Entity.Distribute.Scan.{
  sum, IsSortedFrom, Stops, IsLevel, sum-append, sum-replicate, scan_lem,
}

-- Level `t`: every shard ends with at least `t`, none shrinks, and one that grew ends at `t` or
-- `t + 1`.
abbrev pub IsEven : ℕ → List ℕ → List ℕ → Type 0
IsEven t [] [] = Unit {0}
IsEven t (a ∷ as') (b ∷ bs) = ((a ≤ b) × (t ≤ b) × ((b ≡ a) ⊎ (b ≤ t + 1))) × IsEven t as' bs
IsEven t _ _ = ⊥

IsEven-rest : (t : ℕ) (xs : List ℕ) → IsSortedFrom t xs → IsEven t xs xs
IsEven-rest t [] h = tt
IsEven-rest t (x ∷ xs) h = ((omega arith, h.0, inl refl), IsEven-rest t xs (lower x t xs h.0 h.1))
  where
    lower : (a b : ℕ) (ys : List ℕ) → b ≤ a → IsSortedFrom a ys → IsSortedFrom b ys
    lower a b [] le s = tt
    lower a b (y ∷ ys) le s = (omega arith, s.1)

IsEven-fill :
    (t k r : ℕ) (seen rest out : List ℕ)
    → length seen ≡ k + r
    → All (λ x. x ≤ t) seen
    → IsEven t rest out
    → IsEven t (seen ++ rest) (replicate k t ++ (replicate r (t + 1) ++ out))
IsEven-fill t zero zero [] rest out e a h = h
IsEven-fill t zero zero (x ∷ seen) rest out e a h = absurd (omega arith)
IsEven-fill t zero (suc r) [] rest out e a h = absurd (omega arith)
IsEven-fill t zero (suc r) (x ∷ seen) rest out e a h = (
  (omega arith, omega arith, inr (omega arith)),
  IsEven-fill t zero r seen rest out (omega arith) a.1 h,
)
IsEven-fill t (suc k) r [] rest out e a h = absurd (omega arith)
IsEven-fill t (suc k) r (x ∷ seen) rest out e a h =
    ((a.0, omega arith, inr (omega arith)), IsEven-fill t k r seen rest out (omega arith) a.1 h)

drop_seen : (seen rest : List ℕ) (n : ℕ) → n ≡ length seen → drop n (seen ++ rest) ≡ rest
drop_seen [] rest zero e = refl
drop_seen [] rest (suc n) e = absurd (omega arith)
drop_seen (x ∷ seen) rest zero e = absurd (omega arith)
drop_seen (x ∷ seen) rest (suc n) e = drop_seen seen rest n (omega arith)

All-le : (a b : ℕ) (xs : List ℕ) → a ≤ b → All (λ x. x ≤ a) xs → All (λ x. x ≤ b) xs
All-le a b [] h s = tt
All-le a b (x ∷ xs) h s = (omega arith, All-le a b xs h s.1)

div_bound : (d g n : ℕ) → 0 < n → d ≤ g * n → d / n ≤ g
div_bound d g n pos h = grind arith

-- The level stays below the sizes that the loop did not reach.
level_below :
    (total : ℕ) (l : Level) (rest : List ℕ)
    → 0 < l.shards_used
    → l.added < total
    → IsSortedFrom l.target rest
    → Stops total l rest
    → IsSortedFrom (l.target + (total - l.added) / l.shards_used) rest
level_below total l [] pos lt s stop = tt
level_below total l (size ∷ rest) pos lt s stop = (
  omega (
    arith,
    div_bound (total - l.added) (size - l.target) l.shards_used pos (omega (arith, stop)),
    s.0,
  ),
  s.1,
)

sum_fill : (k r t q : ℕ) → k * (t + q) + r * (t + q + 1) ≡ (k + r) * t + ((k + r) * q + r)
sum_fill k r t q = omega arith

-- What is written back adds up, and is even.
fill_lem :
    (total : ℕ) (seen rest : List ℕ) (l : Level)
    → 0 < l.shards_used
    → IsLevel total seen rest l
    → Stops total l rest
    → (sum (spread total (seen ++ rest) l) ≡ sum (seen ++ rest) + total)
      × IsEven
          (l.target + (total - l.added) / l.shards_used)
          (seen ++ rest)
          (spread total (seen ++ rest) l)
unfolding spread
fill_lem total seen rest l pos inv stop =
    let some_used : (l.shards_used == 0) ≡ false = ground arith in
    let lt : l.added < total = ground (arith, inv.short) in
    let n = l.shards_used in
    let d = total - l.added in
    let r = d % n in
    let small : r < n = mod-lt d pos in
    let parts : (n - r) + r ≡ n = omega arith in
    let filled = sum_fill (n - r) r l.target (d / n) in
    let whole : (n - r + r) * l.target + ((n - r + r) * (d / n) + r) ≡ l.target * n + d =
      rw parts (omega (arith, div-add-mod d n)) in
    let later : drop n (seen ++ rest) ≡ rest = drop_seen seen rest n inv.used in
    rw (some_used, later)
      (
        omega (
          arith,
          sum-append (replicate (n - r) (l.target + d / n))
              (replicate r (l.target + d / n + 1) ++ rest),
          sum-append (replicate r (l.target + d / n + 1)) rest,
          sum-replicate (n - r) (l.target + d / n),
          sum-replicate r (l.target + d / n + 1),
          sum-append seen rest,
          inv.level,
          filled,
          whole,
        ),
        IsEven-fill (l.target + d / n) (n - r) r seen rest rest (omega (arith, parts, inv.used))
            (All-le l.target (l.target + d / n) seen (omega arith) inv.below)
            (IsEven-rest (l.target + d / n) rest (level_below total l rest pos lt inv.sorted stop)),
      )

IsSortedFrom-zero : (low : ℕ) (xs : List ℕ) → IsSortedFrom low xs → IsSortedFrom 0 xs
IsSortedFrom-zero low [] s = tt
IsSortedFrom-zero low (x ∷ xs) s = (omega arith, s.1)

-- No shard is used only if there is nothing to spread.
none_used :
    (total : ℕ) (seen rest : List ℕ) (l : Level)
    → 0 < length (seen ++ rest)
    → l.shards_used ≡ 0
    → IsLevel total seen rest l
    → Stops total l rest
    → total ≡ 0
unfolding sum
none_used total [] [] l pos e inv stop = absurd (omega arith)
none_used total [] (size ∷ rest) l pos e inv stop = ground (
  arith,
  inv.level,
  stop,
  e,
  ap (λ (x : ℕ). l.target * x) e,
  ap (λ (x : ℕ). (size - l.target) * x) e,
)
none_used total (x ∷ seen) rest l pos e inv stop = absurd (omega (arith, inv.used, e))

-- On at least one shard, sorted by size, `distribute_sorted` returns sizes that add up to the old
-- ones and `total`; they are level: all shards end with at least some `t`, none shrinks, and one that
-- grew ends at `t` or `t + 1`.
pub distribute_sorted_lem :
    (sizes : List ℕ) (total : ℕ)
    → 0 < length sizes
    → IsSortedFrom 0 sizes
    → (out : List ℕ) × (distribute_sorted sizes total ≡ ok out)
      × (sum out ≡ sum sizes + total)
      × ((t : ℕ) × IsEven t sizes out)
unfolding distribute_sorted sum
distribute_sorted_lem sizes total pos sorted =
    let start : Level = record { added = 0; target = 0; shards_used = 0 } in
    let inv : IsLevel total [] sizes start = record {
      used = refl;
      level = refl;
      below = tt;
      short = inr (refl, refl);
      sorted = sorted;
    } in
    let (l, seen, rest, e, split, inv', stop) = scan_lem total [] sizes 0 start inv refl in
    elim (Bool-cases (l.shards_used == 0)) [
      | inl unused ↦
          let idle : total ≡ 0 =
            none_used total seen rest l (subst (λ xs. 0 < length xs) split pos)
              (ground (arith, unused)) inv' stop in
          (sizes, rw (e, unused), omega (arith, idle), (0, IsEven-rest 0 sizes sorted))
      | inr some_used ↦
          let (adds_up, even) = fill_lem total seen rest l (ground (arith, some_used)) inv' stop in
          (
            spread total sizes l,
            rw e refl,
            rw split adds_up,
            (l.target + (total - l.added) / l.shards_used, rw split even),
          )
    ]
