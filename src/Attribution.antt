-- ===== src/Attribution.antt =====
-- `attribute_by_weight` of verified/src/lib.rs: a total energy shared out by weights. Each sum and
-- product keeps the wrap-around of its type.
pub mod Total
mod Examples
use vpma.Prelude.{
  ℕ, zero, suc, ◌+◌, ◌-◌, ◌*◌, ◌/◌, ◌%◌, ◌^◌, Bool, true, false, not, Option, none, some, List, [],
  ◌∷◌, ltb, ◌==◌, if◌then◌else◌, length, get_or, set,
}

-- The loop that adds up the weights, in u128.
unfoldable pub weight_loop : ℕ → List ℕ → ℕ
weight_loop total_weight [] = total_weight
weight_loop total_weight (w ∷ ws) = weight_loop ((total_weight + w) % 2 ^ 128) ws

-- One share: computed in u128, then cut to u64.
unfoldable pub share : ℕ → ℕ → ℕ → ℕ
share total total_weight w = (((total * w) % 2 ^ 128) / total_weight) % 2 ^ 64

unfoldable pub share_loop : ℕ → ℕ → List ℕ → List ℕ
share_loop total total_weight [] = []
share_loop total total_weight (w ∷ ws) =
    share total total_weight w ∷ share_loop total total_weight ws

-- The loop that adds up the shares, in u64.
unfoldable pub assigned_loop : ℕ → List ℕ → ℕ
assigned_loop assigned [] = assigned
assigned_loop assigned (s ∷ ss) = assigned_loop ((assigned + s) % 2 ^ 64) ss

-- The loop for the last of the heaviest: the best index so far and its weight, then the index and
-- the weights that are left.
unfoldable pub heaviest_loop : ℕ → ℕ → ℕ → List ℕ → ℕ
heaviest_loop heaviest best n [] = heaviest
heaviest_loop heaviest best n (w ∷ ws) =
    heaviest_loop (if ltb w best then heaviest else n) (if ltb w best then best else w) (n + 1) ws

unfoldable pub heaviest_of : List ℕ → ℕ
unfolding heaviest_loop
heaviest_of [] = 0
heaviest_of (w ∷ ws) = heaviest_loop 0 w 1 ws

-- The remainder goes to the heaviest. `total - assigned` does not underflow, as proved.
unfoldable pub give_remainder : ℕ → ℕ → List ℕ → List ℕ
give_remainder remainder heaviest shares =
    if ltb 0 remainder
    then set shares heaviest ((get_or shares heaviest 0 + remainder) % 2 ^ 64)
    else shares

unfoldable pub attribute_by_weight : ℕ → List ℕ → Option (List ℕ)
attribute_by_weight total weights =
    if length weights == 0
    then none
    else let total_weight = weight_loop 0 weights in
      if total_weight == 0
      then none
      else let shares = share_loop total total_weight weights in
        some (give_remainder (total - assigned_loop 0 shares) (heaviest_of weights) shares)
