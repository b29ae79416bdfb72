-- ===== src/Gpu/Runs.antt =====
-- What a run of calls of `handle_gpu_db_export` charges and stores.
use vpma.Prelude.{
  ℕ, ◌+◌, ◌^◌, ◌≤◌, ◌<◌, ◌≡◌, refl, sym, ap, subst, ◌∙◌, true, Option, none, some, List, [], ◌∷◌,
  ◌++◌, arith, length, All,
}
use vpma.Crypto.{Crypto}
use vpma.Merkle.{Outcome, done, ◌>>=◌}
use vpma.Blockchain.{Block, chain_valid, verify_loop}
use vpma.Export.Stored.{Stores, Stores-same, stays}
use vpma.Export.Runs.{with_stored, stored-IsChain, stored_at_most}
use vpma.Exporter.{Text}
use vpma.GpuReadings.{GpuGuest, GpuDbExportReq, GpuSurroundings, GpuResponse, GpuHandled, Stored}
use vpma.GpuReadings.Baselines.{total, Grows, Grows-refl, Grows-trans}
use vpma.GpuFlush.Resumes.{running, unreachable, compared}
use vpma.GpuFlush.Stores.{block_of, Flushed, held, refused_now, appends}
use vpma.Gpu.{GpuFloats, handle_gpu_db_export}
use vpma.Gpu.Charged.{energy_of, energy_of-append, IsReading}
use vpma.Gpu.Calls.{
  Counts, Ends, gathers, flushes, Answer, refuses, denies, charges, handle_gpu_db_export_lem,
}

abbrev pub GpuCall : Type 0
GpuCall = GpuDbExportReq × GpuSurroundings

abbrev pub results_of : GpuResponse → List (Text × ℕ)
results_of r = unwrap_or r.output_data
  where
    unwrap_or : Option (List (Text × ℕ)) → List (Text × ℕ)
    unwrap_or none = []
    unwrap_or (some rs) = rs

-- The calls of one run in turn: the last state, what has been charged, and the blocks stored.
unfoldable pub run_gpu_exports :
    Crypto
    → List ℕ
    → GpuFloats
    → GpuGuest
    → List GpuCall
    → Outcome (GpuGuest × List (Text × ℕ) × List Block)
run_gpu_exports c master floats s [] = done (s, [], [])
run_gpu_exports c master floats s (call ∷ calls) = do
  h ← handle_gpu_db_export c master floats s call.0 call.1
  rest ← run_gpu_exports c master floats h.0 calls
  done (rest.0, results_of h.1 ++ rest.1, with_stored (block_of h.2) rest.2)

module _ (c : Crypto) (master : List ℕ) (floats : GpuFloats) where
  -- With a state that is initialized a flush goes on from it.
  Flushed-Stores :
      (t : GpuGuest) (tenant : List ℕ) (env : GpuSurroundings) (r : GpuGuest × Stored)
      → t.guest.state_initialized ≡ true
      → Flushed c master t tenant env r
      → Stores c t.guest r.0.guest (block_of r.1)
        × (r.0.guest.state_initialized ≡ true)
        × (r.0.gpu_energy_state ≡ t.gpu_energy_state)
  Flushed-Stores t tenant env r on (held e) = (stays refl refl refl, on, refl)
  Flushed-Stores t tenant env r on (refused_now u e (compared _ off up same)) = absurd cc
  Flushed-Stores t tenant env r on (appends u _ e (running _) stored attested empty) = (
    stored,
    ap (λ (g : GpuGuest). g.guest.state_initialized) empty ∙ on,
    ap (λ (g : GpuGuest). g.gpu_energy_state) empty,
  )
  Flushed-Stores t tenant env r on (appends u _ e (unreachable off _) stored attested empty) =
      absurd cc
  Flushed-Stores t tenant env r on (appends u _ e (compared _ off up same) stored attested empty) =
      absurd cc

  -- What a call does to the chain and to the accounts, from a state that is initialized.
  abbrev Steps : GpuGuest → GpuHandled → Type 0
  Steps s h =
      Stores c s.guest h.0.guest (block_of h.2)
      × (h.0.guest.state_initialized ≡ true)
      × Grows s.gpu_energy_state h.0.gpu_energy_state
      × (energy_of (results_of h.1) + total s.gpu_energy_state ≤ total h.0.gpu_energy_state)

  Ends-Steps :
      (s t : GpuGuest) (tenant : List ℕ) (env : GpuSurroundings) (h : GpuHandled)
      → s.guest.state_initialized ≡ true
      → Counts c master floats s t
      → Ends c master floats t tenant env h
      → Stores c s.guest h.0.guest (block_of h.2)
        × (h.0.guest.state_initialized ≡ true)
        × (h.0.gpu_energy_state ≡ t.gpu_energy_state)
  Ends-Steps s t tenant env h on counts (gathers room same none_stored) = (
    stays (ap block_of none_stored) (ap (λ (u : GpuGuest). u.guest.block_number) (same ∙ counts))
        (ap (λ (u : GpuGuest). u.guest.latest_chained_root) (same ∙ counts)),
    ap (λ (u : GpuGuest). u.guest.state_initialized) (same ∙ counts) ∙ on,
    ap (λ (u : GpuGuest). u.gpu_energy_state) same,
  )
  Ends-Steps s t tenant env h on counts (flushes full flushed) =
      let (stored, init, kept) =
        Flushed-Stores t tenant env (h.0, h.2)
          (ap (λ (u : GpuGuest). u.guest.state_initialized) counts ∙ on) flushed in
      (
        Stores-same c s.guest t.guest h.0.guest (block_of h.2)
            (ap (λ (u : GpuGuest). u.guest.block_number) counts)
            (ap (λ (u : GpuGuest). u.guest.latest_chained_root) counts) stored,
        init,
        kept,
      )

  Answer-Steps :
      (s : GpuGuest) (req : GpuDbExportReq) (env : GpuSurroundings) (h : GpuHandled)
      → s.guest.state_initialized ≡ true
      → Answer c master floats s req env h
      → Steps s h
  Answer-Steps s req env h on (refuses code e why none_stored same) = (
    stays (ap block_of none_stored) (ap (λ (u : GpuGuest). u.guest.block_number) same)
        (ap (λ (u : GpuGuest). u.guest.latest_chained_root) same),
    ap (λ (u : GpuGuest). u.guest.state_initialized) same ∙ on,
    subst (λ m. Grows s.gpu_energy_state m) (sym (ap (λ (u : GpuGuest). u.gpu_energy_state) same))
        (Grows-refl s.gpu_energy_state),
    omega (
      arith,
      ap (λ r. energy_of (results_of r)) e,
      ap (λ (u : GpuGuest). total u.gpu_energy_state) same,
    ),
  )
  Answer-Steps s req env h on (denies code e why none_stored same grow more) = (
    stays (ap block_of none_stored) (ap (λ (u : GpuGuest). u.guest.block_number) same)
        (ap (λ (u : GpuGuest). u.guest.latest_chained_root) same),
    ap (λ (u : GpuGuest). u.guest.state_initialized) same ∙ on,
    grow,
    omega (arith, ap (λ r. energy_of (results_of r)) e, more),
  )
  Answer-Steps s req env h on (charges results t e evident grow sums counts ways) =
      let (stored, init, kept) = Ends-Steps s t req.node_id env h on counts ways in
      (
        stored,
        init,
        subst (λ m. Grows s.gpu_energy_state m) (sym kept) grow,
        omega (arith, ap (λ r. energy_of (results_of r)) e, ap total kept, sums),
      )

  -- From a guest whose state is initialized, whatever is requested and found, and whether or not blocks can be inserted: while the
  -- block numbers stay below 2^64 and the readings are of u64, the calls end without a panic; the
  -- blocks that they insert with success are one good chain from the head at the start to that at the end; no
  -- baseline falls; and all energy that they charge, in whatever calls, is at most what the
  -- baselines have grown by, so none is charged twice.
  pub run_gpu_exports_lem :
      (s : GpuGuest) (calls : List GpuCall)
      → s.guest.state_initialized ≡ true
      → s.guest.block_number + length calls < 2 ^ 64
      → All (λ call. All IsReading call.0.gpus) calls
      → (r : GpuGuest × List (Text × ℕ) × List Block) × (run_gpu_exports c master floats s calls
          ≡ done r)
        × (verify_loop c s.guest.block_number s.guest.latest_chained_root r.2
            ≡ done (chain_valid r.0.guest.block_number))
        × (r.0.guest.block_number ≡ s.guest.block_number + length r.2)
        × Grows s.gpu_energy_state r.0.gpu_energy_state
        × (energy_of r.1 + total s.gpu_energy_state ≤ total r.0.gpu_energy_state)
  unfolding run_gpu_exports
  run_gpu_exports_lem s [] on room readings = (
    (s, [], []),
    refl,
    unfold verify_loop in refl,
    omega arith,
    Grows-refl s.gpu_energy_state,
    omega arith,
  )
  run_gpu_exports_lem s (call ∷ calls) on room readings =
      let (h, handled, answer) =
        handle_gpu_db_export_lem c master floats s call.0 call.1 (omega (arith, room)) readings.0 in
      let (stored, still, grow, charged) = Answer-Steps s call.0 call.1 h on answer in
      let room_here : s.guest.block_number + 1 < 2 ^ 64 = omega (arith, room) in
      let most = stored_at_most c s.guest h.0.guest (block_of h.2) room_here stored in
      let (r, ran, chained, count, grow', charged') =
        run_gpu_exports_lem h.0 calls still (omega (arith, room, most)) readings.1 in
      let grown =
        stored-IsChain c s.guest h.0.guest (block_of h.2) r.2 r.0.guest room_here stored
          (chained, count) in
      (
        (r.0, results_of h.1 ++ r.1, with_stored (block_of h.2) r.2),
        rw (handled, ◌>>=◌, ran, ◌>>=◌) refl,
        grown.0,
        grown.1,
        Grows-trans s.gpu_energy_state h.0.gpu_energy_state r.0.gpu_energy_state grow grow',
        omega (arith, energy_of-append (results_of h.1) r.1, charged, charged'),
      )
