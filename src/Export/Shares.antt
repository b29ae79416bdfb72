-- ===== src/Export/Shares.antt =====
-- The energy of a cycle is attributed in full.
use vpma.Prelude.{
  ℕ, suc, ◌+◌, ◌-◌, ◌^◌, ◌≤◌, ◌<◌, ◌≡◌, refl, sym, ap, ◌∙◌, inl, inr, true, false, none, some, List,
  [], ◌∷◌, map, arith, ltb, ◌==◌, ==_iff, length, length-set, push, Bool-cases, All,
}
use vpma.Crypto.{Crypto}
use vpma.Chain.{max_u64}
use vpma.Attribution.{
  weight_loop, share_loop, assigned_loop, heaviest_of, give_remainder, attribute_by_weight,
}
use vpma.Attribution.Total.{sum}
use vpma.Merkle.{EnergyRecord, done, ◌>>=◌}
use vpma.Export.{Process, Floats, Bucket, all_idle, buckets_of, saturating_fold, record_loop}

length-share_loop : (total tw : ℕ) (ws : List ℕ) → length (share_loop total tw ws) ≡ length ws
unfolding share_loop
length-share_loop total tw [] = refl
length-share_loop total tw (w ∷ ws) = ap suc (length-share_loop total tw ws)

length-give_remainder : (r h : ℕ) (ss : List ℕ) → length (give_remainder r h ss) ≡ length ss
unfolding give_remainder
length-give_remainder r h ss = elim (Bool-cases (ltb 0 r)) [
  | inl t ↦ rw t (length-set ss h _)
  | inr f ↦ rw f refl
]

-- Whatever the weights, there are as many shares.
pub length-attribute_by_weight :
    (total : ℕ) (ws ss : List ℕ) → attribute_by_weight total ws ≡ some ss → length ss ≡ length ws
unfolding attribute_by_weight
length-attribute_by_weight total ws ss h = elim (Bool-cases (length ws == 0)) [
  | inl t ↦ let bad : none ≡ some ss = (rw t at h) in absurd cc
  | inr f ↦ elim (Bool-cases (weight_loop 0 ws == 0)) [
    | inl t ↦ let bad : none ≡ some ss = (rw (f, t) at h) in absurd cc
    | inr g ↦
        let shares = share_loop total (weight_loop 0 ws) ws in
        let made = give_remainder (total - assigned_loop 0 shares) (heaviest_of ws) shares in
        let same : some made ≡ some ss = (rw (f, g) at h) in
        let e : made ≡ ss = cc in
        ap length (sym e)
        ∙ (length-give_remainder _ _ shares ∙ length-share_loop total (weight_loop 0 ws) ws)
  ]
]

pub saturating_fold_lem :
    (a : ℕ) (ss : List ℕ) → a + sum ss ≤ max_u64 → saturating_fold a ss ≡ a + sum ss
unfolding saturating_fold
saturating_fold_lem a [] l = omega arith
saturating_fold_lem a (s ∷ ss) l =
    let small : ltb max_u64 (a + s) ≡ false = ground (arith, l) in
    rw small (saturating_fold_lem (a + s) ss (omega (arith, l)) ∙ omega arith)

abbrev pub ticks_of : List Bucket → List ℕ
ticks_of bs = map (λ b. b.ticks) bs

pub length-ticks_of : (bs : List Bucket) → length (ticks_of bs) ≡ length bs
length-ticks_of [] = refl
length-ticks_of (b ∷ bs) = ap suc (length-ticks_of bs)

busy : (bs : List Bucket) → all_idle bs ≡ false → 0 < sum (ticks_of bs)
unfolding all_idle
busy [] h = absurd cc
busy (b ∷ bs) h = elim (Bool-cases (b.ticks == 0)) [
  | inl t ↦ omega (arith, busy bs (ground arith))
  | inr f ↦ ground arith
]

-- Weights that `attribute_by_weight` takes: of u64, fewer than 2^32, and not all zero.
abbrev AreWeights : List Bucket → Type 0
AreWeights bs =
    All (λ w. w < 2 ^ 64) (ticks_of bs) × (length (ticks_of bs) < 2 ^ 32) × (0 < sum (ticks_of bs))

push-weights :
    (bs : List Bucket) (b : Bucket)
    → All (λ w. w < 2 ^ 64) (ticks_of bs)
    → b.ticks < 2 ^ 64
    → All (λ w. w < 2 ^ 64) (ticks_of (push bs b))
      × (length (ticks_of (push bs b)) ≡ length bs + 1)
      × (sum (ticks_of (push bs b)) ≡ sum (ticks_of bs) + b.ticks)
push-weights [] b small l = ((l, tt), omega arith, omega arith)
push-weights (x ∷ bs) b small l =
    let (s, n, e) = push-weights bs b small.1 l in
    ((small.0, s), omega (arith, n), omega (arith, e))

bucket : Process → Bucket
bucket p = let (pid, ticks) = p in record { pid = pid; ticks = ticks; is_placeholder = false }

plain-weights :
    (ps : List Process)
    → All (λ p. p.1 < 2 ^ 64) ps
    → All (λ w. w < 2 ^ 64) (ticks_of (map bucket ps))
      × (length (ticks_of (map bucket ps)) ≡ length ps)
      × (length (map bucket ps) ≡ length ps)
unfolding bucket
plain-weights [] small = (tt, refl, refl)
plain-weights (p ∷ ps) small =
    let (s, n, m) = plain-weights ps small.1 in ((small.0, s), ap suc n, ap suc m)

pub buckets_of_lem :
    (ps : List Process)
    → All (λ p. p.1 < 2 ^ 64) ps
    → length ps < 2 ^ 32 - 1
    → AreWeights (buckets_of ps)
unfolding buckets_of bucket
buckets_of_lem ps small few =
    let (s, n, m) = plain-weights ps small in
    elim (Bool-cases (all_idle (map bucket ps))) [
      | inl idle ↦
          let (s', n', e) =
            push-weights (map bucket ps) (record { pid = 0; ticks = 1; is_placeholder = true }) s
              (omega arith) in
          rw idle (s', omega (arith, n', m, few), omega (arith, e))
      | inr some_busy ↦ rw some_busy (s, omega (arith, n, few), busy (map bucket ps) some_busy)
    ]

-- What a request's output adds up to.
abbrev pub energy_of : List (ℕ × ℕ) → ℕ
energy_of [] = 0
energy_of (r ∷ rs) = r.1 + energy_of rs

module _ (c : Crypto) (master : List ℕ) (floats : Floats) where
  -- With a share for each bucket the loop ends without a panic, drops only shares of 0, and makes
  -- a record for each result.
  pub record_loop_lem :
      (make : Bucket → ℕ → EnergyRecord) (bs : List Bucket) (es : List ℕ)
      → length es ≡ length bs
      → (made : List (ℕ × ℕ) × List EnergyRecord) × (record_loop c master floats make bs es
          ≡ done made)
        × (energy_of made.0 ≡ sum es)
        × (length made.1 ≡ length made.0)
  unfolding record_loop
  record_loop_lem make [] [] l = (([], []), refl, refl, refl)
  record_loop_lem make [] (e ∷ es) l = absurd (omega (arith, l))
  record_loop_lem make (b ∷ bs) [] l = absurd (omega (arith, l))
  record_loop_lem make (b ∷ bs) (e ∷ es) l =
      let (made, eq, total, size) = record_loop_lem make bs es (omega (arith, l)) in
      elim (Bool-cases (e == 0)) [
        | inl t ↦ (made, rw (eq, ◌>>=◌, t) refl, omega (arith, total, (==_iff e 0).0 t), size)
        | inr f ↦ (
          ((b.pid, e) ∷ made.0, make b e ∷ made.1),
          rw (eq, ◌>>=◌, f) refl,
          omega (arith, total),
          ap suc size,
        )
      ]
