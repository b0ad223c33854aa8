-- ===== src/Util/Examples.antt =====
-- A list with one value twice.
use dynec.Common.{◌≡◌, ◌↔◌, true, [], ◌∷◌}
use dynec.Util.{is_all_distinct_quadtime, IsConstant, is_all_distinct_quadtime_lem}

is_all_distinct_quadtime_lem_example :
    (is_all_distinct_quadtime (3 ∷ 3 ∷ []) ≡ true) ↔ IsConstant (3 ∷ 3 ∷ [])
is_all_distinct_quadtime_lem_example = is_all_distinct_quadtime_lem (3 ∷ 3 ∷ [])
