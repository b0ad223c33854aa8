-- ===== src/Discrim/Agree.antt =====
-- The use of a `FullMap` by the isotope accessors, `get_storage` of `src/world/rw/isotope/read/full.rs` and of
-- `src/world/rw/isotope/write/full.rs`, where `create` stands for the closure that locks the storage.
use dynec.Common.{◌≡◌, refl, sym, ◌∙◌, List, [], ◌∷◌, Outcome, ok, Panic, ◌>>=◌, expect, All}
use dynec.Discrim.{Discrim, map_with}
use dynec.Discrim.Split.{IsDistinct}
use dynec.Discrim.Full.{FullMap, IsFullMap, keys, AllKeys, unwrap_or}

unfoldable pub get_storage :
    {D V M : Type 0} (full : FullMap D V M) (create : D → V) → D → M → Outcome (V × M)
get_storage full create d m = full.get_by_or_insert d (create d) m >>= λ (slot, m').
    expect (full.read m' slot) Panic.unreachable >>= λ v. ok (v, m')

-- The requests of an accessor, one after the other, on the map that it starts from.
unfoldable pub serve :
    {D V M : Type 0} (full : FullMap D V M) (create : D → V)
    → List (D × V)
    → List D
    → Outcome (List V × M)
unfolding get_storage map_with
serve full create start ds = full.from_iter start >>= map_with (get_storage full create) ds

module _ {D V A B : Type 0} {discrim : Discrim D} {full_a : FullMap D V A} {full_b : FullMap D V B}
    (a_laws : IsFullMap discrim full_a) (b_laws : IsFullMap discrim full_b) (create : D → V) where
  -- Valid maps with the same view.
  record IsAlike (a : A) (b : B) : Type 0 where
    pub a_valid : a_laws.IsValid a
    pub b_valid : b_laws.IsValid b
    pub alike : (d : D) → full_a.get_by d a ≡ full_b.get_by d b

  get_storage-IsAlike :
      (d : D) (a : A) (b : B)
      → IsAlike a b
      → a_laws.IsSupported d
      → b_laws.IsSupported d
      → (v : V) × (a' : A) × (b' : B) × (get_storage full_a create d a ≡ ok (v, a'))
        × (get_storage full_b create d b ≡ ok (v, b'))
        × IsAlike a' b'
  unfolding get_storage
  get_storage-IsAlike d a b h sa sb =
      let (slot_a, a', run_a, valid_a, read_a, view_a) =
        a_laws.get_by_or_insert_lem d (create d) a h.a_valid sa in
      let (slot_b, b', run_b, valid_b, read_b, view_b) =
        b_laws.get_by_or_insert_lem d (create d) b h.b_valid sb in
      let same : unwrap_or (full_a.get_by d a) (create d)
          ≡ unwrap_or (full_b.get_by d b) (create d) =
        rw (h.alike d) refl in
      (
        unwrap_or (full_b.get_by d b) (create d),
        a',
        b',
        rw (run_a, read_a, same) refl,
        rw (run_b, read_b) refl,
        record {
          a_valid = valid_a;
          b_valid = valid_b;
          alike = λ d'. rw (view_a d', view_b d', same, h.alike d') refl;
        },
      )

  requests-IsAlike :
      (ds : List D) (a : A) (b : B)
      → IsAlike a b
      → All a_laws.IsSupported ds
      → All b_laws.IsSupported ds
      → (vs : List V) × (a' : A) × (b' : B) × (map_with (get_storage full_a create) ds a
          ≡ ok (vs, a'))
        × (map_with (get_storage full_b create) ds b ≡ ok (vs, b'))
        × IsAlike a' b'
  unfolding map_with
  requests-IsAlike [] a b h sa sb = ([], a, b, refl, refl, h)
  requests-IsAlike (d ∷ ds) a b h sa sb =
      let (v, a', b', run_a, run_b, h') = get_storage-IsAlike d a b h sa.0 sb.0 in
      let (vs, a'', b'', runs_a, runs_b, h'') = requests-IsAlike ds a' b' h' sa.1 sb.1 in
      (v ∷ vs, a'', b'', rw (run_a, runs_a) refl, rw (run_b, runs_b) refl, h'')

  -- Two implementations of `FullMap`, filled from the same entries with distinct discriminants, answer the
  -- same requests for storages with the same values, and end with the same view, when both support the
  -- discriminants.
  pub serve_alike :
      (start : List (D × V)) (ds : List D)
      → IsDistinct (keys discrim start)
      → AllKeys discrim a_laws.IsSupported start
      → AllKeys discrim b_laws.IsSupported start
      → All a_laws.IsSupported ds
      → All b_laws.IsSupported ds
      → (vs : List V) × (a : A) × (b : B) × (serve full_a create start ds ≡ ok (vs, a))
        × (serve full_b create start ds ≡ ok (vs, b))
        × ((d : D) → full_a.get_by d a ≡ full_b.get_by d b)
  unfolding serve
  serve_alike start ds once ka kb sa sb =
      let (a, from_a, valid_a, view_a) = a_laws.from_iter_lem start once ka in
      let (b, from_b, valid_b, view_b) = b_laws.from_iter_lem start once kb in
      let (vs, a', b', run_a, run_b, h) =
        requests-IsAlike ds a b
          (record { a_valid = valid_a; b_valid = valid_b; alike = λ d. view_a d ∙ sym (view_b d) })
          sa sb in
      (vs, a', b', rw from_a run_a, rw from_b run_b, h.alike)
