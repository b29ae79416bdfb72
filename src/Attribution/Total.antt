-- ===== src/Attribution/Total.antt =====
-- The sums, products and quotients of `attribute_by_weight`.
use vpma.Prelude.{
  ℕ, zero, suc, ◌+◌, ◌-◌, ◌*◌, ◌/◌, ◌%◌, ◌^◌, ◌≤◌, ◌<◌, ◌≡◌, refl, sym, ap, ap₂, subst, ◌∙◌, inl,
  inr, false, Option, none, some, List, [], ◌∷◌, map, arith, ltb, ◌==◌, length, get_or, set,
  length-set, Bool-cases, All,
}
use native.Mathlib.Nat.{
  mul-add, mul-le-mul, mul-le-mul_left, div-mul-le_self, div-le_of_le-mul, mul_comm, add-mul,
  le_of_mul-le-mul_right,
}
use vpma.Attribution.{
  weight_loop, share, share_loop, assigned_loop, heaviest_loop, heaviest_of, give_remainder,
  attribute_by_weight,
}

abbrev pub sum : List ℕ → ℕ
sum [] = 0
sum (x ∷ xs) = x + sum xs

sum_bounded : (ws : List ℕ) → All (λ w. w < 2 ^ 64) ws → sum ws ≤ length ws * 2 ^ 64
sum_bounded [] h = omega arith
sum_bounded (w ∷ ws) h = omega (arith, h.0, sum_bounded ws h.1)

weight_loop_lem : (a : ℕ) (ws : List ℕ) → a + sum ws < 2 ^ 128 → weight_loop a ws ≡ a + sum ws
unfolding weight_loop
weight_loop_lem a [] l = omega arith
weight_loop_lem a (w ∷ ws) l =
    let fits : (a + w) % 2 ^ 128 ≡ a + w = omega (arith, l) in
    rw fits (weight_loop_lem (a + w) ws (omega (arith, l)) ∙ omega arith)

assigned_loop_lem : (a : ℕ) (ss : List ℕ) → a + sum ss < 2 ^ 64 → assigned_loop a ss ≡ a + sum ss
unfolding assigned_loop
assigned_loop_lem a [] l = omega arith
assigned_loop_lem a (s ∷ ss) l =
    let fits : (a + s) % 2 ^ 64 ≡ a + s = omega (arith, l) in
    rw fits (assigned_loop_lem (a + s) ss (omega (arith, l)) ∙ omega arith)

-- `spec_floor_share`
abbrev pub floor_share : ℕ → ℕ → ℕ → ℕ
floor_share total total_weight w = total * w / total_weight

module _ (total tw : ℕ) (fits : total < 2 ^ 64) (pos : 0 < tw) where
  share_lem : (w : ℕ) → w < 2 ^ 64 → w ≤ tw → share total tw w ≡ floor_share total tw w
  unfolding share
  share_lem w small le =
      let product : total * w ≤ (2 ^ 64 - 1) * (2 ^ 64 - 1) =
        mul-le-mul {n₂ = 2 ^ 64 - 1} {m₂ = 2 ^ 64 - 1} (omega (arith, fits))
          (omega (arith, small)) in
      let exact : (total * w) % 2 ^ 128 ≡ total * w = omega (arith, product) in
      let bound : total * w / tw ≤ total =
        div-le_of_le-mul tw
          (subst (λ x. total * w ≤ x) (mul_comm total tw) (mul-le-mul_left total le)) in
      ap (λ x. (x / tw) % 2 ^ 64) exact ∙ omega (arith, bound, fits)

  share_loop_lem :
      (ws : List ℕ)
      → All (λ w. w < 2 ^ 64) ws
      → sum ws ≤ tw
      → share_loop total tw ws ≡ map (floor_share total tw) ws
  unfolding share_loop
  share_loop_lem [] h l = refl
  share_loop_lem (w ∷ ws) h l =
      ap₂ (λ x y. x ∷ y) (share_lem w h.0 (omega (arith, l)))
        (share_loop_lem ws h.1 (omega (arith, l)))

  floors_scaled : (ws : List ℕ) → sum (map (floor_share total tw) ws) * tw ≤ total * sum ws
  floors_scaled [] = omega arith
  floors_scaled (w ∷ ws) = omega (
    arith,
    div-mul-le_self (total * w) tw,
    floors_scaled ws,
    add-mul (floor_share total tw w) (sum (map (floor_share total tw) ws)) tw,
    mul-add total w (sum ws),
  )

  floors_bounded : (ws : List ℕ) → sum ws ≡ tw → sum (map (floor_share total tw) ws) ≤ total
  floors_bounded ws e =
      le_of_mul-le-mul_right
        (subst (λ x. sum (map (floor_share total tw) ws) * tw ≤ total * x) e (floors_scaled ws)) pos

heaviest_loop-bounded :
    (h best n : ℕ) (ws : List ℕ) → h < n → heaviest_loop h best n ws < n + length ws
unfolding heaviest_loop
heaviest_loop-bounded h best n [] l = omega (arith, l)
heaviest_loop-bounded h best n (w ∷ ws) l = elim (Bool-cases (ltb w best)) [
  | inl t ↦ rw t (omega (arith, heaviest_loop-bounded h best (n + 1) ws (omega (arith, l))))
  | inr f ↦ rw f (omega (arith, heaviest_loop-bounded n w (n + 1) ws (omega arith)))
]

heaviest_of-bounded : (ws : List ℕ) → 0 < length ws → heaviest_of ws < length ws
unfolding heaviest_of
heaviest_of-bounded [] l = absurd (omega (arith, l))
heaviest_of-bounded (w ∷ ws) l = omega (arith, heaviest_loop-bounded 0 w 1 ws (omega arith))

sum-set : (xs : List ℕ) (i v : ℕ) → i < length xs → sum (set xs i v) + get_or xs i 0 ≡ sum xs + v
sum-set [] i v l = absurd (omega (arith, l))
sum-set (x ∷ xs) zero v l = omega arith
sum-set (x ∷ xs) (suc i) v l = omega (arith, sum-set xs i v (omega (arith, l)))

get_or-bounded : (xs : List ℕ) (i : ℕ) → get_or xs i 0 ≤ sum xs
get_or-bounded [] i = omega arith
get_or-bounded (x ∷ xs) zero = omega arith
get_or-bounded (x ∷ xs) (suc i) = omega (arith, get_or-bounded xs i)

give_remainder_lem :
    (total h : ℕ) (shares : List ℕ)
    → total < 2 ^ 64
    → sum shares ≤ total
    → h < length shares
    → (length (give_remainder (total - sum shares) h shares) ≡ length shares)
      × (sum (give_remainder (total - sum shares) h shares) ≡ total)
unfolding give_remainder
give_remainder_lem total h shares fits l at = elim (Bool-cases (ltb 0 (total - sum shares))) [
  | inl t ↦ rw t (
    length-set shares h _,
    omega (
      arith,
      fits,
      l,
      get_or-bounded shares h,
      sum-set shares h ((get_or shares h 0 + (total - sum shares)) % 2 ^ 64) at,
    ),
  )
  | inr f ↦ rw f (refl, ground arith)
]

length-map-share : (total tw : ℕ) (ws : List ℕ) → length (map (floor_share total tw) ws) ≡ length ws
length-map-share total tw [] = refl
length-map-share total tw (w ∷ ws) = ap suc (length-map-share total tw ws)

set-get_or : (xs : List ℕ) (i : ℕ) → i < length xs → set xs i (get_or xs i 0 + 0) ≡ xs
set-get_or [] i l = absurd (omega (arith, l))
set-get_or (x ∷ xs) zero l = ap (λ y. y ∷ xs) (omega arith)
set-get_or (x ∷ xs) (suc i) l = ap (λ ys. x ∷ ys) (set-get_or xs i (omega (arith, l)))

-- No weight is above that at the index which the loop finds.
heaviest_loop_lem :
    (weight_at : ℕ → ℕ) (h best n : ℕ) (ws : List ℕ)
    → best ≡ weight_at h
    → ((k : ℕ) → k < length ws → get_or ws k 0 ≡ weight_at (n + k))
    → (best ≤ weight_at (heaviest_loop h best n ws))
      × All (λ w. w ≤ weight_at (heaviest_loop h best n ws)) ws
unfolding heaviest_loop
heaviest_loop_lem v h best n [] e at = (omega (arith, e), tt)
heaviest_loop_lem v h best n (w ∷ ws) e at =
    let here : w ≡ v n = at 0 (omega arith) ∙ ap v (omega arith) in
    let later : (k : ℕ) → k < length ws → get_or ws k 0 ≡ v (n + 1 + k) =
      λ k l. at (suc k) (omega (arith, l)) ∙ ap v (omega arith) in
    let bounds = λ (r : ℕ). (best ≤ v r) × ((w ≤ v r) × All (λ x. x ≤ v r) ws) in
    elim (Bool-cases (ltb w best)) [
      | inl t ↦
          let (b, rest) = heaviest_loop_lem v h best (n + 1) ws e later in
          let less : w ≤ best = ground (arith, t) in
          let goes_on : heaviest_loop h best (n + 1) ws ≡ heaviest_loop h best n (w ∷ ws) =
            rw t refl in
          subst bounds goes_on (b, (omega (arith, b, less), rest))
      | inr f ↦
          let (b, rest) = heaviest_loop_lem v n w (n + 1) ws here later in
          let more : best ≤ w = ground (arith, f) in
          let goes_on : heaviest_loop n w (n + 1) ws ≡ heaviest_loop h best n (w ∷ ws) =
            rw f refl in
          subst bounds goes_on (omega (arith, b, more), (b, rest))
    ]

following : (w : ℕ) (ws : List ℕ) (k : ℕ) → get_or ws k 0 ≡ get_or (w ∷ ws) (1 + k) 0
following w ws k = let e : suc k ≡ 1 + k = omega arith in ap (λ i. get_or (w ∷ ws) i 0) e

heaviest_of_lem : (ws : List ℕ) → All (λ w. w ≤ get_or ws (heaviest_of ws) 0) ws
unfolding heaviest_of
heaviest_of_lem [] = tt
heaviest_of_lem (w ∷ ws) =
    heaviest_loop_lem (λ i. get_or (w ∷ ws) i 0) 0 w 1 ws refl (λ k l. following w ws k)

-- The exact quotients, and the same with all that is left of the total added at one place.
abbrev pub floors : ℕ → List ℕ → List ℕ
floors total ws = map (floor_share total (sum ws)) ws

abbrev pub topped_up : ℕ → ℕ → List ℕ → List ℕ
topped_up total h shares = set shares h (get_or shares h 0 + (total - sum shares))

give_remainder-topped_up :
    (total h : ℕ) (shares : List ℕ)
    → total < 2 ^ 64
    → sum shares ≤ total
    → h < length shares
    → give_remainder (total - sum shares) h shares ≡ topped_up total h shares
unfolding give_remainder
give_remainder-topped_up total h shares fits l at = elim (Bool-cases (ltb 0 (total - sum shares))) [
  | inl t ↦ rw t (ap (set shares h) (omega (arith, fits, l, get_or-bounded shares h)))
  | inr f ↦
      let none_left : total - sum shares ≡ 0 = ground (arith, f) in
      rw f (rw none_left (sym (set-get_or shares h at)))
]

shares_lem :
    (total : ℕ) (ws : List ℕ)
    → total < 2 ^ 64
    → All (λ w. w < 2 ^ 64) ws
    → 0 < sum ws
    → 0 < length ws
    → let shares = share_loop total (sum ws) ws in
      let out = give_remainder (total - assigned_loop 0 shares) (heaviest_of ws) shares in
      (length out ≡ length ws)
      × (sum out ≡ total)
      × (out ≡ topped_up total (heaviest_of ws) (floors total ws))
shares_lem total ws fits small pos some_there =
    let shares = floors total ws in
    let bounded = floors_bounded total (sum ws) fits pos ws refl in
    let size = length-map-share total (sum ws) ws in
    let assigned : assigned_loop 0 shares ≡ sum shares =
      assigned_loop_lem 0 shares (omega (arith, bounded, fits)) ∙ omega arith in
    let inside : heaviest_of ws < length shares =
      omega (arith, heaviest_of-bounded ws some_there, size) in
    let (l, s) = give_remainder_lem total (heaviest_of ws) shares fits bounded inside in
    rw (share_loop_lem total (sum ws) fits pos ws small (omega arith), assigned)
      (l ∙ size, s, give_remainder-topped_up total (heaviest_of ws) shares fits bounded inside)

-- What the result says: as many shares as weights, which add up to the total, or no weight at all.
abbrev pub Attributed : ℕ → List ℕ → Option (List ℕ) → Type 0
Attributed total weights none = sum weights ≡ 0
Attributed total weights (some shares) =
    (0 < sum weights) × (length shares ≡ length weights) × (sum shares ≡ total)

-- Each share is the exact quotient of total times weight by the sum of the weights, and what is
-- left of the total is added to that of one of the heaviest.
abbrev pub IsExact : ℕ → List ℕ → Option (List ℕ) → Type 0
IsExact total weights none = sum weights ≡ 0
IsExact total weights (some shares) =
    (shares ≡ topped_up total (heaviest_of weights) (floors total weights))
    × All (λ w. w ≤ get_or weights (heaviest_of weights) 0) weights

-- For a u64 total and fewer than 2^32 weights of u64: where the weights are not all zero, there is
-- a share for each weight and the shares add up to exactly the total; each share is the quotient of
-- total times weight by the sum of the weights, computed without wrap-around and rounded down,
-- and one share, that of a weight no other exceeds, has in addition what is left of the total.
-- Otherwise, and where there are no weights, there is no result.
pub attribute_by_weight_lem :
    (total : ℕ) (weights : List ℕ)
    → total < 2 ^ 64
    → length weights < 2 ^ 32
    → All (λ w. w < 2 ^ 64) weights
    → Attributed total weights (attribute_by_weight total weights)
      × IsExact total weights (attribute_by_weight total weights)
unfolding attribute_by_weight
attribute_by_weight_lem total [] fits few small = (refl, refl)
attribute_by_weight_lem total (w ∷ ws) fits few small =
    let weights = w ∷ ws in
    let some_there : (length weights == 0) ≡ false = ground arith in
    let added : weight_loop 0 weights ≡ sum weights =
      weight_loop_lem 0 weights (omega (arith, few, sum_bounded weights small)) ∙ omega arith in
    elim (Bool-cases (sum weights == 0)) [
      | inl t ↦ rw (some_there, added, t) (ground arith, ground arith)
      | inr f ↦
          let pos : 0 < sum weights = ground arith in
          let (l, s, exact) = shares_lem total weights fits small pos (omega arith) in
          rw (some_there, added, f) ((pos, l, s), (exact, heaviest_of_lem weights))
    ]
