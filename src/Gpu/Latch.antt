-- ===== src/Gpu/Latch.antt =====
-- Once a resumption has been refused, no call stores a block.
use vpma.Prelude.{ℕ, ◌^◌, ◌<◌, ◌≡◌, refl, ap, ◌∙◌, true, none, List, [], ◌∷◌, ◌++◌, All}
use vpma.Crypto.{Crypto}
use vpma.Merkle.{done, ◌>>=◌}
use vpma.Blockchain.{Block}
use vpma.Export.Runs.{with_stored}
use vpma.Exporter.{Text}
use vpma.GpuReadings.{GpuGuest, GpuDbExportReq, GpuSurroundings, GpuHandled, Stored}
use vpma.GpuFlush.Stores.{block_of, Flushed, held, refused_now, appends}
use vpma.Gpu.{GpuFloats}
use vpma.Gpu.Charged.{IsReading}
use vpma.Gpu.Calls.{
  Ends, gathers, flushes, Answer, refuses, denies, charges, handle_gpu_db_export_lem,
}
use vpma.Gpu.Runs.{GpuCall, results_of, run_gpu_exports}

-- Nothing is stored, and the latch and the chain stand as they stood.
abbrev IsHeld : GpuGuest → GpuGuest → Stored → Type 0
IsHeld s s' stored =
    (stored ≡ none)
    × (s'.chain_resume_refused ≡ s.chain_resume_refused)
    × (s'.guest.block_number ≡ s.guest.block_number)
    × (s'.guest.latest_chained_root ≡ s.guest.latest_chained_root)

module _ (c : Crypto) (master : List ℕ) (floats : GpuFloats) where
  Flushed-IsHeld :
      (t : GpuGuest) (tenant : List ℕ) (env : GpuSurroundings) (r : GpuGuest × Stored)
      → t.chain_resume_refused ≡ true
      → Flushed c master t tenant env r
      → IsHeld t r.0 r.1
  Flushed-IsHeld t tenant env r on (held e) = (refl, refl, refl, refl)
  Flushed-IsHeld t tenant env r on (refused_now u e begun) = absurd cc
  Flushed-IsHeld t tenant env r on (appends u _ e begun stored attested empty) = absurd cc

  Ends-IsHeld :
      (t : GpuGuest) (tenant : List ℕ) (env : GpuSurroundings) (h : GpuHandled)
      → t.chain_resume_refused ≡ true
      → Ends c master floats t tenant env h
      → IsHeld t h.0 h.2
  Ends-IsHeld t tenant env h on (gathers room same none_stored) = (
    none_stored,
    ap (λ (u : GpuGuest). u.chain_resume_refused) same,
    ap (λ (u : GpuGuest). u.guest.block_number) same,
    ap (λ (u : GpuGuest). u.guest.latest_chained_root) same,
  )
  Ends-IsHeld t tenant env h on (flushes full flushed) =
      Flushed-IsHeld t tenant env (h.0, h.2) on flushed

  Answer-IsHeld :
      (s : GpuGuest) (req : GpuDbExportReq) (env : GpuSurroundings) (h : GpuHandled)
      → s.chain_resume_refused ≡ true
      → Answer c master floats s req env h
      → IsHeld s h.0 h.2
  Answer-IsHeld s req env h on (refuses code e why none_stored same) = (
    none_stored,
    ap (λ (u : GpuGuest). u.chain_resume_refused) same,
    ap (λ (u : GpuGuest). u.guest.block_number) same,
    ap (λ (u : GpuGuest). u.guest.latest_chained_root) same,
  )
  Answer-IsHeld s req env h on (denies code e why none_stored same grow more) = (
    none_stored,
    ap (λ (u : GpuGuest). u.chain_resume_refused) same,
    ap (λ (u : GpuGuest). u.guest.block_number) same,
    ap (λ (u : GpuGuest). u.guest.latest_chained_root) same,
  )
  Answer-IsHeld s req env h on (charges results t e evident grow sums counts ways) =
      let latched = ap (λ (u : GpuGuest). u.chain_resume_refused) counts in
      let (none_stored, latch, number, root) =
        Ends-IsHeld t req.node_id env h (latched ∙ on) ways in
      (
        none_stored,
        latch ∙ latched,
        number ∙ ap (λ (u : GpuGuest). u.guest.block_number) counts,
        root ∙ ap (λ (u : GpuGuest). u.guest.latest_chained_root) counts,
      )

  -- From a guest whose latch is set, whatever is requested, found and answered, and however many
  -- batches fill up, the calls end without a panic and store no block; the latch stays set and the
  -- head of the chain where it was.
  pub run_gpu_exports-refused :
      (s : GpuGuest) (calls : List GpuCall)
      → s.chain_resume_refused ≡ true
      → s.guest.block_number < 2 ^ 64
      → All (λ call. All IsReading call.0.gpus) calls
      → (r : GpuGuest × List (Text × ℕ) × List Block) × (run_gpu_exports c master floats s calls
          ≡ done r)
        × (r.2 ≡ [])
        × (r.0.chain_resume_refused ≡ true)
        × (r.0.guest.block_number ≡ s.guest.block_number)
        × (r.0.guest.latest_chained_root ≡ s.guest.latest_chained_root)
  unfolding run_gpu_exports
  run_gpu_exports-refused s [] on small readings = ((s, [], []), refl, refl, on, refl, refl)
  run_gpu_exports-refused s (call ∷ calls) on small readings =
      let (h, handled, answer) =
        handle_gpu_db_export_lem c master floats s call.0 call.1 small readings.0 in
      let (none_stored, latch, number, root) = Answer-IsHeld s call.0 call.1 h on answer in
      let (r, ran, nothing, latched, number', root') =
        run_gpu_exports-refused h.0 calls (latch ∙ on) (rw number small) readings.1 in
      (
        (r.0, results_of h.1 ++ r.1, with_stored (block_of h.2) r.2),
        rw (handled, ◌>>=◌, ran, ◌>>=◌) refl,
        ap (λ o. with_stored (block_of o) r.2) none_stored ∙ nothing,
        latched,
        number' ∙ number,
        root' ∙ root,
      )
