-- ===== src/Gpu/Charged.antt =====
-- What the loop over the readings charges, and on which readings.
use vpma.Prelude.{
  ℕ, suc, ◌+◌, ◌-◌, ◌^◌, ◌≤◌, ◌<◌, ◌≡◌, refl, sym, ap, ◌∙◌, inl, inr, Bool, Option, none, some,
  List, [], ◌∷◌, ◌++◌, arith, ◌==◌, ==_iff, ℤ, length, length-append, Bool-cases, Option-cases, All,
  ◌⊎◌, lookup,
}
use vpma.Crypto.{Crypto}
use vpma.Attribution.Total.{sum, Attributed, attribute_by_weight_lem}
use vpma.Merkle.{EnergyRecord, done, ◌>>=◌}
use vpma.Exporter.{Text}
use vpma.GpuReadings.{
  GpuGuest, GpuGroup, GpuDbExportReq, GpuSurroundings, GpuBucket, check_tag, delta_of, state_key,
  gpu_buckets,
}
use vpma.GpuReadings.Baselines.{
  Baselines, total, first_of, observe, total-observe, Grows, Grows-refl, Grows-trans, observe-Grows,
}
use vpma.GpuReadings.Weights.{utils_of, length-utils_of, gpu_buckets_lem}
use vpma.Gpu.{
  Cycle, LoopEnd, ends, returns, GpuFloats, gpu_record, bucket_loop, share_out, attribute_delta,
  charge, charged, return_or, gpu_loop,
}
use vpma.GpuReadings.Evident.{Evident, check_tag-Evident}

-- What a list of results adds up to.
abbrev pub energy_of : List (Text × ℕ) → ℕ
energy_of [] = 0
energy_of (r ∷ rs) = r.1 + energy_of rs

pub energy_of-append :
    (rs qs : List (Text × ℕ)) → energy_of (rs ++ qs) ≡ energy_of rs + energy_of qs
energy_of-append [] qs = omega arith
energy_of-append (r ∷ rs) qs = omega (arith, energy_of-append rs qs)

-- A counter of u64, and fewer than 2^32 - 1 processes.
abbrev pub IsReading : GpuGroup → Type 0
IsReading gpu = (gpu.energy_uj < 2 ^ 64) × (length gpu.procs < 2 ^ 32 - 1)

-- The energy of the first samples among the readings, which is not charged.
abbrev pub firsts : Text → List GpuGroup → Baselines → ℕ
firsts node_id [] m = 0
firsts node_id (gpu ∷ gpus) m =
    first_of (lookup (state_key node_id gpu) m) gpu.energy_uj
    + firsts node_id gpus (observe (state_key node_id gpu) gpu.energy_uj m)

delta_of-bounded : (last : Option ℕ) (e : ℕ) → delta_of last e ≤ e
unfolding delta_of
delta_of-bounded none e = omega arith
delta_of-bounded (some last) e = ground arith

-- What the loop leaves of the state: only the baselines, the records and the cache of bindings may
-- change.
abbrev pub Touches : GpuGuest → GpuGuest → Type 0
Touches s s' = s' ≡ record s {
  bindings = s'.bindings;
  gpu_energy_state = s'.gpu_energy_state;
  guest = record s.guest { accumulated_records = s'.guest.accumulated_records };
}

-- The baselines grow, in all by the results and the first samples, and each result has a record.
abbrev Accounts : Text → List GpuGroup → Cycle → Cycle → Type 0
Accounts node_id gpus cycle next =
    Touches cycle.state next.state
    × Grows cycle.state.gpu_energy_state next.state.gpu_energy_state
    × (total next.state.gpu_energy_state + energy_of cycle.results
        ≡ total cycle.state.gpu_energy_state
          + energy_of next.results
          + firsts node_id gpus cycle.state.gpu_energy_state)
    × (length next.state.guest.accumulated_records + length cycle.results
        ≡ length cycle.state.guest.accumulated_records + length next.results)

-- A reading whose tag is refused with this status.
abbrev pub Denied : GpuDbExportReq → Bool → List GpuGroup → ℤ → Type 0
Denied req tag_enforced [] code = ⊥
Denied req tag_enforced (gpu ∷ gpus) code =
    (check_tag req tag_enforced gpu gpu.tag ≡ some code) ⊎ Denied req tag_enforced gpus code

-- How the loop comes to its end: with every reading charged, or at one whose tag is refused.
pub data Looped (req : GpuDbExportReq) (tag_enforced : Bool) (gpus : List GpuGroup) (cycle : Cycle)
    : LoopEnd → Type 0 where
  all_charged :
      (next : Cycle)
      → All (Evident req tag_enforced) gpus
      → Accounts req.node_id gpus cycle next
      → Looped req tag_enforced gpus cycle (ends next)
  one_denied :
      (code : ℤ) (s : GpuGuest)
      → Denied req tag_enforced gpus code
      → Touches cycle.state s
      → Grows cycle.state.gpu_energy_state s.gpu_energy_state
      → total cycle.state.gpu_energy_state ≤ total s.gpu_energy_state
      → Looped req tag_enforced gpus cycle (returns code s)

Touches-trans : (s t u : GpuGuest) → Touches s t → Touches t u → Touches s u
Touches-trans s t u h k =
    k
    ∙ ap
        (λ (v : GpuGuest). record v {
          bindings = u.bindings;
          gpu_energy_state = u.gpu_energy_state;
          guest = record v.guest { accumulated_records = u.guest.accumulated_records };
        })
        h

Looped-step :
    (req : GpuDbExportReq) (tag_enforced : Bool) (gpu : GpuGroup) (gpus : List GpuGroup)
    (cycle next : Cycle) (e : LoopEnd)
    → Evident req tag_enforced gpu
    → Accounts req.node_id (gpu ∷ []) cycle next
    → next.state.gpu_energy_state
      ≡ observe (state_key req.node_id gpu) gpu.energy_uj cycle.state.gpu_energy_state
    → Looped req tag_enforced gpus next e
    → Looped req tag_enforced (gpu ∷ gpus) cycle e
Looped-step req tag_enforced gpu gpus cycle next e evident (touch, grow, sums, sizes) observed
      (all_charged last ev (touch', grow', sums', sizes')) =
    all_charged last (evident, ev)
      (
        Touches-trans cycle.state next.state last.state touch touch',
        Grows-trans _ _ _ grow grow',
        omega (arith, sums, sums', ap (λ m. firsts req.node_id gpus m) observed),
        omega (arith, sizes, sizes'),
      )
Looped-step req tag_enforced gpu gpus cycle next e evident (touch, grow, sums, sizes) observed
      (one_denied code s bad touch' grow' more) =
    one_denied code s (inr bad) (Touches-trans cycle.state next.state s touch touch')
      (Grows-trans _ _ _ grow grow')
      (omega (
        arith,
        more,
        ap total observed,
        total-observe (state_key req.node_id gpu) gpu.energy_uj cycle.state.gpu_energy_state,
      ))

Accounts-refl : (node_id : Text) (cycle : Cycle) → Accounts node_id [] cycle cycle
Accounts-refl node_id cycle = (refl, Grows-refl cycle.state.gpu_energy_state, omega arith, refl)

module _ (c : Crypto) (master : List ℕ) (floats : GpuFloats) where
  -- Results and their records: they add up to a delta, with a record for each.
  abbrev Made : ℕ → List (Text × ℕ) × List EnergyRecord → Type 0
  Made delta made = (energy_of made.0 ≡ delta) × (length made.1 ≡ length made.0)

  bucket_loop_lem :
      (env : GpuSurroundings) (bs : List GpuBucket) (es : List ℕ)
      → length es ≡ length bs
      → (made : List (Text × ℕ) × List EnergyRecord) × (bucket_loop c master floats env bs es
          ≡ done made)
        × Made (sum es) made
  unfolding bucket_loop
  bucket_loop_lem env [] [] l = (([], []), refl, (refl, refl))
  bucket_loop_lem env [] (e ∷ es) l = absurd (omega (arith, l))
  bucket_loop_lem env (b ∷ bs) [] l = absurd (omega (arith, l))
  bucket_loop_lem env (b ∷ bs) (e ∷ es) l =
      let (made, eq, (summed, size)) = bucket_loop_lem env bs es (omega (arith, l)) in
      elim (Bool-cases (e == 0)) [
        | inl t ↦ (made, rw (eq, ◌>>=◌, t) refl, (omega (arith, summed, (==_iff e 0).0 t), size))
        | inr f ↦ (
          ((b.label, e) ∷ made.0, gpu_record c master floats env b e ∷ made.1),
          rw (eq, ◌>>=◌, f) refl,
          (omega (arith, summed), ap suc size),
        )
      ]

  share_out_lem :
      (env : GpuSurroundings) (bs : List GpuBucket) (delta : ℕ) (r : Option (List ℕ))
      → 0 < sum (utils_of bs)
      → Attributed delta (utils_of bs) r
      → (made : List (Text × ℕ) × List EnergyRecord) × (share_out c master floats env bs r
          ≡ done made)
        × Made delta made
  unfolding share_out
  share_out_lem env bs delta none busy idle = absurd (omega (arith, busy, idle))
  share_out_lem env bs delta (some shares) busy (_, size, summed) =
      let (made, eq, (same, records)) = bucket_loop_lem env bs shares (size ∙ length-utils_of bs) in
      (made, eq, (same ∙ summed, records))

  attribute_lem :
      (req : GpuDbExportReq) (env : GpuSurroundings) (gpu : GpuGroup) (delta : ℕ)
      → delta < 2 ^ 64
      → length gpu.procs < 2 ^ 32 - 1
      → (made : List (Text × ℕ) × List EnergyRecord) × (attribute_delta c master floats req env gpu
            delta
          ≡ done made)
        × Made delta made
  unfolding attribute_delta
  attribute_lem req env gpu delta small few = elim (Bool-cases (delta == 0)) [
    | inl t ↦ (([], []), rw t refl, (sym ((==_iff delta 0).0 t), refl))
    | inr f ↦
        let bs = gpu_buckets req.node_id gpu delta in
        let (weights, count, busy) = gpu_buckets_lem req.node_id gpu delta few in
        rw f (
          share_out_lem env bs delta _ busy
            (attribute_by_weight_lem delta (utils_of bs) small
              (omega (arith, length-utils_of bs, count)) weights).0)
  ]

  charge_lem :
      (req : GpuDbExportReq) (env : GpuSurroundings) (gpu : GpuGroup) (cycle : Cycle)
      → IsReading gpu
      → (next : Cycle) × (charge c master floats req env gpu cycle ≡ done next)
        × Accounts req.node_id (gpu ∷ []) cycle next
        × (next.state.gpu_energy_state
            ≡ observe (state_key req.node_id gpu) gpu.energy_uj cycle.state.gpu_energy_state)
  unfolding charge charged
  charge_lem req env gpu cycle (small, few) =
      let s = cycle.state in
      let key = state_key req.node_id gpu in
      let delta = delta_of (lookup key s.gpu_energy_state) gpu.energy_uj in
      let less = delta_of-bounded (lookup key s.gpu_energy_state) gpu.energy_uj in
      let (made, eq, (summed, size)) =
        attribute_lem req env gpu delta (omega (arith, less, small)) few in
      let grown = total-observe key gpu.energy_uj s.gpu_energy_state in
      (
        charged c master floats req gpu cycle made,
        rw (eq, ◌>>=◌) refl,
        (
          refl,
          observe-Grows key gpu.energy_uj s.gpu_energy_state,
          omega (arith, grown, energy_of-append cycle.results made.0, summed),
          omega (
            arith,
            length-append s.guest.accumulated_records made.1,
            length-append cycle.results made.0,
            size,
          ),
        ),
        refl,
      )

  pub gpu_loop_lem :
      (req : GpuDbExportReq) (env : GpuSurroundings) (tag_enforced : Bool) (gpus : List GpuGroup)
      (cycle : Cycle)
      → All IsReading gpus
      → (e : LoopEnd) × (gpu_loop c master floats req env tag_enforced gpus cycle ≡ done e)
        × Looped req tag_enforced gpus cycle e
  unfolding gpu_loop return_or
  gpu_loop_lem req env tag_enforced [] cycle readings =
      (ends cycle, refl, all_charged cycle tt (Accounts-refl req.node_id cycle))
  gpu_loop_lem req env tag_enforced (gpu ∷ gpus) cycle readings =
      elim (Option-cases (check_tag req tag_enforced gpu gpu.tag)) [
        | inl passed ↦
            let (next, eq, accounts, observed) = charge_lem req env gpu cycle readings.0 in
            let (e, ran, looped) = gpu_loop_lem req env tag_enforced gpus next readings.1 in
            (
              e,
              rw (passed, eq, ◌>>=◌, ran) refl,
              Looped-step req tag_enforced gpu gpus cycle next e
                  (check_tag-Evident req tag_enforced gpu gpu.tag refl passed) accounts observed
                  looped,
            )
        | inr (code, bad) ↦ (
          returns code cycle.state,
          rw bad refl,
          one_denied code cycle.state (inl bad) refl (Grows-refl cycle.state.gpu_energy_state)
              (omega arith),
        )
      ]
