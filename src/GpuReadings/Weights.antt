-- ===== src/GpuReadings/Weights.antt =====
-- The buckets of a GPU are weights that the attribution takes.
use vpma.Prelude.{
  ℕ, suc, ◌-◌, if◌then◌else◌, ◌+◌, ◌*◌, ◌%◌, ◌^◌, ◌≤◌, ◌<◌, ◌≡◌, refl, ap, ◌∙◌, inl, inr, List, [],
  ◌∷◌, map, arith, ltb, leb, ◌==◌, length, push, Bool-cases, All,
}
use vpma.Attribution.Total.{sum}
use vpma.Exporter.{Text}
use vpma.GpuReadings.{
  GpuGroup, GpuProcSample, GpuBucket, proc_buckets, util_loop, gpu_buckets, max_uj_per_cycle,
}

abbrev pub utils_of : List GpuBucket → List ℕ
utils_of bs = map (λ b. b.util) bs

pub length-utils_of : (bs : List GpuBucket) → length (utils_of bs) ≡ length bs
length-utils_of [] = refl
length-utils_of (b ∷ bs) = ap suc (length-utils_of bs)

-- Weights of a percentage each: of u64, and their sum stays small.
abbrev ArePercents : List GpuBucket → Type 0
ArePercents bs = All (λ w. w < 2 ^ 64) (utils_of bs) × (sum (utils_of bs) ≤ 100 * length bs)

proc_buckets_lem :
    (node_id : Text) (gpu : GpuGroup) (ps : List GpuProcSample)
    → ArePercents (proc_buckets node_id gpu ps) × (length (proc_buckets node_id gpu ps) ≤ length ps)
unfolding proc_buckets
proc_buckets_lem node_id gpu [] = ((tt, omega arith), omega arith)
proc_buckets_lem node_id gpu (p ∷ ps) =
    let ((small, total), few) = proc_buckets_lem node_id gpu ps in
    elim (Bool-cases (p.util == 0)) [
      | inl t ↦ rw t ((small, total), omega (arith, few))
      | inr f ↦
          let cut : (if ltb 100 p.util then 100 else p.util) ≤ 100 = ground arith in
          rw f (((omega (arith, cut), small), omega (arith, total, cut)), omega (arith, few))
    ]

util_loop_lem :
    (t : ℕ) (bs : List GpuBucket)
    → t + sum (utils_of bs) < 2 ^ 64
    → util_loop t bs ≡ t + sum (utils_of bs)
unfolding util_loop
util_loop_lem t [] l = omega arith
util_loop_lem t (b ∷ bs) l =
    let same : (t + b.util) % 2 ^ 64 ≡ t + b.util = omega (arith, l) in
    rw same (util_loop_lem (t + b.util) bs (omega (arith, l)) ∙ omega arith)

push-All :
    (bs : List GpuBucket) (b : GpuBucket)
    → All (λ w. w < 2 ^ 64) (utils_of bs)
    → b.util < 2 ^ 64
    → All (λ w. w < 2 ^ 64) (utils_of (push bs b))
      × (length (push bs b) ≡ length bs + 1)
      × (sum (utils_of (push bs b)) ≡ sum (utils_of bs) + b.util)
push-All [] b small l = ((l, tt), omega arith, omega arith)
push-All (x ∷ bs) b small l =
    let (s, n, e) = push-All bs b small.1 l in ((small.0, s), omega (arith, n), omega (arith, e))

-- Of u64, fewer than 2^32, and not all zero.
abbrev pub AreWeights : List GpuBucket → Type 0
AreWeights bs = All (λ w. w < 2 ^ 64) (utils_of bs) × (length bs < 2 ^ 32) × (0 < sum (utils_of bs))

pad_lem :
    (bs : List GpuBucket) (b : GpuBucket)
    → ArePercents bs
    → length bs < 2 ^ 32 - 1
    → b.util ≡ 1
    → AreWeights (if util_loop 0 bs == 0 then push bs b else bs)
pad_lem bs b (small, most) few one =
    let summed = util_loop_lem 0 bs (omega (arith, most, few)) in
    elim (Bool-cases (util_loop 0 bs == 0)) [
      | inl t ↦
          let (s, n, e) = push-All bs b small (omega (arith, one)) in
          rw t (s, omega (arith, n, few), omega (arith, e, one))
      | inr f ↦ rw f (small, omega (arith, few), ground (arith, f, summed))
    ]

pub gpu_buckets_lem :
    (node_id : Text) (gpu : GpuGroup) (delta : ℕ)
    → length gpu.procs < 2 ^ 32 - 1
    → AreWeights (gpu_buckets node_id gpu delta)
unfolding gpu_buckets
gpu_buckets_lem node_id gpu delta few =
    let (percents, fewer) = proc_buckets_lem node_id gpu gpu.procs in
    elim (Bool-cases (leb delta max_uj_per_cycle)) [
      | inl t ↦ rw t (pad_lem _ _ percents (omega (arith, fewer, few)) refl)
      | inr f ↦ rw f (pad_lem [] _ (tt, omega arith) (omega arith) refl)
    ]
