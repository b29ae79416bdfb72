-- ===== src/GpuFlush.antt =====
-- `flush_gpu_block_to_redis` of sgx_vm/src/main.rs: the first flush resumes the chain from its
-- anchor, each stores a block and its anchor. The master key that the enclave derives for the label
-- `anchor` is an argument, and so is what the server answers.
pub mod Resumes
pub mod Stores
mod Examples
use vpma.Prelude.{
  ℕ, zero, suc, ◌+◌, ◌-◌, ◌%◌, ◌^◌, Bool, true, false, not, ◌&&◌, ◌||◌, Option, none, some, List,
  [], ◌∷◌, ◌++◌, map, ltb, leb, ◌==◌, if◌then◌else◌, ℤ, pos, negsuc, length, push, take, drop,
  lookup, insert,
}
use vpma.Crypto.{Crypto, zero32}
use vpma.Text.{is_valid_tenant_label, slices_eq}
use vpma.Text.Numbers.{show_u64}
use vpma.Chain.{max_u64, States, sign_energy_chain}
use vpma.Siptag.{siptag}
use vpma.Attribution.{attribute_by_weight}
use vpma.Admission.{
  ResumeDecision, fresh, resume, refuse, decide_resume, TagAdmitted, admit_measurement_tag,
}
use vpma.Anchor.{checkpoint_line, verify_checkpoint_line}
use vpma.Merkle.{EnergyRecord, Outcome, done, panic, ◌>>=◌}
use vpma.Blockchain.{Block, new_block}
use vpma.Export.{Guest, is_negative}
use vpma.Exporter.{Text, starts_with}
use vpma.GpuOwner.{resolve_gpu_owner}
use vpma.GpuReadings.{GpuGuest, GpuSurroundings, Stored}

module _ (c : Crypto) (master : List ℕ) where
  -- The roots and numbers that `decide_resume` sees.
  head_or_zero : Option (ℕ × List ℕ) → Bool × ℕ × List ℕ
  head_or_zero none = (false, 0, zero32)
  head_or_zero (some (n, root)) = (true, n, root)

  -- The answer to GET, verified.
  unfoldable pub anchor_stored : List ℕ → Option (List ℕ) → Option (ℕ × List ℕ)
  anchor_stored tenant none = none
  anchor_stored tenant (some line) = verify_checkpoint_line c master tenant line

  -- The match on the decision: the state, and whether the flush goes on.
  pub on_decision : GpuGuest → List ℕ → ResumeDecision → GpuGuest × Bool
  on_decision s anchor_root (resume block_number) = (
    record s {
      guest = record s.guest {
        block_number = (block_number + 1) % 2 ^ 64;
        latest_chained_root = anchor_root;
        state_initialized = true;
      };
    },
    true,
  )
  on_decision s anchor_root fresh =
      (record s { guest = record s.guest { state_initialized = true } }, true)
  on_decision s anchor_root (refuse reason) = (record s { chain_resume_refused = true }, false)

  pub resume_from : GpuGuest → Option (ℕ × List ℕ) → Option (ℕ × List ℕ) → GpuGuest × Bool
  resume_from s anchor stored =
      let (have_anchor, anchor_block, anchor_root) = head_or_zero anchor in
      let (have_stored, stored_block, stored_root) = head_or_zero stored in
      on_decision s anchor_root (
        decide_resume have_anchor anchor_block have_stored stored_block
          (slices_eq anchor_root stored_root))

  pub initialize : GpuGuest → List ℕ → GpuSurroundings → GpuGuest × Bool
  initialize s tenant env =
      if s.guest.state_initialized || not env.connects
      then (s, true)
      else resume_from s (anchor_stored tenant env.anchor_line) env.latest_block

  -- The block of a full batch and its anchor, where the insertion has succeeded. The second signature, of mbedtls, is left out.
  pub store_block : GpuGuest → List ℕ → GpuSurroundings → Outcome (GpuGuest × Stored)
  store_block s tenant env = do
    block ←
        new_block c s.guest.block_number tenant s.guest.latest_chained_root
          s.guest.accumulated_records env.timestamp
    let g =
        if env.insert_succeeds
        then record s.guest {
          block_number = (s.guest.block_number + 1) % 2 ^ 64;
          latest_chained_root = block.chained_root;
        }
        else s.guest
    done (
      record s { guest = record g { iteration_count = 0; accumulated_records = [] } },
      if env.insert_succeeds
          then some (block, checkpoint_line c master tenant block.block_number block.chained_root)
          else none,
    )

  pub flush_gpu_block_to_redis : GpuGuest → List ℕ → GpuSurroundings → Outcome (GpuGuest × Stored)
  flush_gpu_block_to_redis s tenant env =
      if s.chain_resume_refused
      then done (s, none)
      else let (t, goes_on) = initialize s tenant env in
        if goes_on then store_block t tenant env else done (t, none)
