-- ===== src/Entity/Distribute.antt =====
-- `distribute_sorted` of `src/entity/ealloc/recycling.rs`: how many identifiers each shard ends with
-- when `total` of them are spread as evenly as the shards' sizes allow. Products do not wrap here.
pub mod Scan
pub mod Even
use dynec.Common.{
  ℕ, zero, suc, ◌+◌, ◌-◌, ◌*◌, ◌/◌, ◌%◌, ◌<◌, ◌≤◌, ◌≡◌, refl, sym, ap, ◌∙◌, false, List, [], ◌∷◌,
  ◌++◌, arith, ◌==◌, ltb, leb, leb→le, leb→lt, if◌then◌else◌, Bool-cases, ◌⊎◌, inl, inr, Outcome,
  ok, panic, Panic, ◌>>=◌, All, length, length-append, replicate, drop, subst, append_assoc,
}
use native.Mathlib.Nat.{div-add-mod, mod-lt}

pub record Level : Type 0 where
  pub added : ℕ
  pub target : ℕ
  pub shards_used : ℕ

-- The loop over `sizes.iter().enumerate()`, with its `break`.
pub scan : ℕ → ℕ → Level → List ℕ → Outcome Level
scan total i l [] = ok l
scan total i l (size ∷ sizes) =
    let next : Level = record {
      added = l.added + (size - l.target) * i;
      target = size;
      shards_used = l.shards_used + 1;
    } in
    let rest = scan total (i + 1) next sizes in
    if ltb size l.target
    then panic Panic.subtract_overflow
    else if leb total next.added
    then ok l
    else rest

pub spread : ℕ → List ℕ → Level → List ℕ
spread total sizes l =
    if l.shards_used == 0
    then sizes
    else let deficit = total - l.added in
      let target = l.target + deficit / l.shards_used in
      let remainder = deficit % l.shards_used in
      replicate (l.shards_used - remainder) target
      ++ (replicate remainder (target + 1) ++ drop l.shards_used sizes)

unfoldable pub distribute_sorted : List ℕ → ℕ → Outcome (List ℕ)
unfolding scan spread
distribute_sorted sizes total =
    scan total 0 (record { added = 0; target = 0; shards_used = 0 }) sizes >>= λ l.
    ok (spread total sizes l)
