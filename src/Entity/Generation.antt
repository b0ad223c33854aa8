-- ===== src/Entity/Generation.antt =====
-- Generations of reused identifiers, `Store` of `src/entity/generation.rs`; a generation is below 2 ^ 32.
pub mod Order
use dynec.Common.{
  ℕ, suc, ◌+◌, ◌-◌, ◌%◌, ◌^◌, Bool, true, false, Option, none, some, List, [], ◌∷◌, ◌++◌, leb,
  if◌then◌else◌, length, get_elem?, set, replicate,
}

abbrev pub Generation : Type 0
Generation = ℕ

abbrev pub Store : Type 0
Store = List Generation

-- `unwrap_or_default`
abbrev pub or_default : Option Generation → Generation
or_default none = 0
or_default (some g) = g

unfoldable pub get : ℕ → Store → Generation
get id s = or_default (get_elem? s id)

-- `resize(id + 1, Generation::default())` where the vector is too short.
abbrev pub resize : ℕ → Store → Store
resize id s = if leb (length s) id then s ++ replicate (id + 1 - length s) 0 else s

unfoldable pub next : ℕ → Store → Generation × Store
unfolding get
next id s =
    let grown = resize id s in
    let generation = (get id grown + 1) % 2 ^ 32 in (generation, set grown id generation)
