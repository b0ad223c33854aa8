-- ===== src/Entity/Distribute/Scan.antt =====
-- The loop of `distribute_sorted`: the level that it reaches, and when it stops.
use dynec.Common.{
  ℕ, zero, suc, ◌+◌, ◌-◌, ◌*◌, ◌<◌, ◌≤◌, ◌≡◌, refl, sym, ap, ◌∙◌, false, List, [], ◌∷◌, ◌++◌, arith,
  ltb, leb, leb→le, leb→lt, Bool-cases, ◌⊎◌, inl, inr, ok, All, length, length-append, replicate,
  append_assoc,
}
use dynec.Entity.Distribute.{Level, scan}

unfoldable pub sum : List ℕ → ℕ
sum [] = 0
sum (x ∷ xs) = x + sum xs

-- Increasing, all from `low` on.
abbrev pub IsSortedFrom : ℕ → List ℕ → Type 0
IsSortedFrom low [] = Unit {0}
IsSortedFrom low (x ∷ xs) = (low ≤ x) × IsSortedFrom x xs

-- The next size, if any, is so large that the deficit does not lift the level above it.
abbrev pub Stops : ℕ → Level → List ℕ → Type 0
Stops total l [] = Unit {0}
Stops total l (size ∷ rest) = total ≤ l.added + (size - l.target) * l.shards_used

-- The state of the loop after the shards `seen`, with `rest` to come.
pub record IsLevel (total : ℕ) (seen rest : List ℕ) (l : Level) : Type 0 where
  pub used : l.shards_used ≡ length seen
  pub level : sum seen + l.added ≡ l.target * l.shards_used
  pub below : All (λ x. x ≤ l.target) seen
  pub short : (l.added < total) ⊎ ((l.shards_used ≡ 0) × (l.added ≡ 0))
  pub sorted : IsSortedFrom l.target rest

pub sum-append : (xs ys : List ℕ) → sum (xs ++ ys) ≡ sum xs + sum ys
unfolding sum
sum-append [] ys = omega arith
sum-append (x ∷ xs) ys = omega (arith, sum-append xs ys)

pub sum-replicate : (n a : ℕ) → sum (replicate n a) ≡ n * a
unfolding sum
sum-replicate zero a = omega arith
sum-replicate (suc n) a = grind (arith, sum-replicate n a)

pub All-snoc :
    (b c : ℕ) (xs : List ℕ) → b ≤ c → All (λ x. x ≤ b) xs → All (λ x. x ≤ c) (xs ++ c ∷ [])
All-snoc b c [] h a = (omega arith, tt)
All-snoc b c (x ∷ xs) h a = (omega arith, All-snoc b c xs h a.1)

pub next : Level → ℕ → Level
next l size = record {
  added = l.added + (size - l.target) * l.shards_used;
  target = size;
  shards_used = l.shards_used + 1;
}

-- The weight of a rise from `t` to `s` over `n` shards.
pub rise : (t s n : ℕ) → t ≤ s → s * (n + 1) ≡ s + t * n + (s - t) * n
rise t s n h = let e : t + (s - t) ≡ s = omega arith in omega (arith, ap (λ (x : ℕ). x * n) e)

pub next-IsLevel :
    (total : ℕ) (seen rest : List ℕ) (size : ℕ) (l : Level)
    → IsLevel total seen (size ∷ rest) l
    → (next l size).added < total
    → IsLevel total (seen ++ size ∷ []) rest (next l size)
unfolding next sum
next-IsLevel total seen rest size l inv lt = record {
  used = omega (arith, inv.used, length-append seen (size ∷ []));
  level = omega (
    arith,
    sum-append seen (size ∷ []),
    inv.level,
    rise l.target size l.shards_used inv.sorted.0,
  );
  below = All-snoc l.target size seen inv.sorted.0 inv.below;
  short = inl lt;
  sorted = inv.sorted.1;
}

-- The loop ends with a level that fits a split of the sizes.
pub scan_lem :
    (total : ℕ) (seen rest : List ℕ) (i : ℕ) (l : Level)
    → IsLevel total seen rest l
    → i ≡ l.shards_used
    → (l' : Level) × (seen' rest' : List ℕ) × (scan total i l rest ≡ ok l')
      × (seen ++ rest ≡ seen' ++ rest')
      × IsLevel total seen' rest' l'
      × Stops total l' rest'
unfolding scan next
scan_lem total seen [] i l inv e = (l, seen, [], refl, refl, inv, tt)
scan_lem total seen (size ∷ rest) i l inv e =
    let low : ltb size l.target ≡ false = ground (arith, inv.sorted.0) in
    elim (Bool-cases (leb total (l.added + (size - l.target) * l.shards_used))) [
      | inl stop ↦ (l, seen, size ∷ rest, rw (e, low, stop), refl, inv, leb→le _ _ stop)
      | inr more ↦
          let (l', seen', rest', e1, e2, inv', s) =
            scan_lem total (seen ++ size ∷ []) rest (i + 1) (next l size)
              (next-IsLevel total seen rest size l inv (leb→lt _ _ more))
              (ap (λ (x : ℕ). x + 1) e) in
          (
            l',
            seen',
            rest',
            rw (e, low, more) (rw e at e1),
            sym (append_assoc seen (size ∷ []) rest) ∙ e2,
            inv',
            s,
          )
    ]
