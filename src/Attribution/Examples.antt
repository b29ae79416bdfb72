-- ===== src/Attribution/Examples.antt =====
-- Sharing out at concrete inputs.
use vpma.Prelude.{ℕ, ◌≡◌, refl, some, List, [], ◌∷◌, arith}
use vpma.Attribution.{
  attribute_by_weight, weight_loop, share, share_loop, assigned_loop, heaviest_loop, heaviest_of,
  give_remainder,
}
use vpma.Attribution.Total.{Attributed, IsExact, attribute_by_weight_lem}

abbrev weights : List ℕ
weights = 1 ∷ 3 ∷ 3 ∷ 0 ∷ []

-- The remainder of 2 goes to the last of the two heaviest.
remainder_to_heaviest : attribute_by_weight 101 weights ≡ some (14 ∷ 43 ∷ 44 ∷ 0 ∷ [])
unfolding attribute_by_weight weight_loop share share_loop assigned_loop heaviest_loop heaviest_of
    give_remainder
remainder_to_heaviest = refl

attribute_by_weight_lem_example :
    Attributed 101 weights (attribute_by_weight 101 weights)
    × IsExact 101 weights (attribute_by_weight 101 weights)
attribute_by_weight_lem_example =
    attribute_by_weight_lem 101 weights (omega arith) (omega arith)
      (omega arith, (omega arith, (omega arith, (omega arith, tt))))
