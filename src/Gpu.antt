-- ===== src/Gpu.antt =====
-- `handle_gpu_db_export` of sgx_vm/src/main.rs: one cycle of the guest enclave's GPU accounting. It
-- checks the readings, attributes what each counter has grown by to the processes, gathers the
-- records, signs the step of the node's chain and, each hundred cycles, flushes. The static
-- variables are a record that is passed in and out; the request is the parsed one.
pub mod Charged
pub mod Calls
pub mod Runs
pub mod Latch
mod Examples
use vpma.Prelude.{
  ℕ, zero, suc, ◌+◌, ◌-◌, ◌%◌, ◌^◌, Bool, true, false, not, ◌&&◌, ◌||◌, Option, none, some, List,
  [], ◌∷◌, ◌++◌, map, ltb, leb, ◌==◌, if◌then◌else◌, ℤ, pos, negsuc, length, push, take, drop,
  lookup, insert,
}
use vpma.Crypto.{Crypto, zero32}
use vpma.Text.{is_valid_tenant_label, slices_eq}
use vpma.Text.Numbers.{show_u64}
use vpma.Chain.{max_u64, States, sign_energy_chain}
use vpma.Siptag.{siptag}
use vpma.Attribution.{attribute_by_weight}
use vpma.Admission.{
  ResumeDecision, fresh, resume, refuse, decide_resume, TagAdmitted, admit_measurement_tag,
}
use vpma.Anchor.{checkpoint_line, verify_checkpoint_line}
use vpma.Merkle.{EnergyRecord, Outcome, done, panic, ◌>>=◌}
use vpma.Blockchain.{Block, new_block}
use vpma.Export.{Guest, is_negative}
use vpma.Exporter.{Text, starts_with}
use vpma.GpuOwner.{resolve_gpu_owner}
use vpma.GpuReadings.{
  GpuGuest, GpuDbExportReq, GpuSurroundings, GpuGroup, GpuResponse, gpu_refusal, GpuHandled,
  binding_enforced_key, tag_enforced_key, gpu_prefix, has_duplicate, cached, binding_loop,
  check_tag, delta_of, baseline_of, saturate_add, GpuBucket, gpu_buckets, state_key,
}
use vpma.GpuFlush.{flush_gpu_block_to_redis}

abbrev pub gpu_batch_size : ℕ
gpu_batch_size = 100

-- What the loop over the GPUs carries.
pub record Cycle : Type 0 where
  pub state : GpuGuest
  pub results : List (Text × ℕ)
  pub node_energy_uj : ℕ
  pub node_delta : ℕ

-- The loop ends, or the handler returns out of it.
pub data LoopEnd : Type 0 where
  ends : Cycle → LoopEnd
  returns : ℤ → GpuGuest → LoopEnd

-- The conversions of f64, as bit patterns, those of 0.0 being 0: of a u64, and joules of
-- microjoules.
pub record GpuFloats : Type 0 where
  pub of_u64 : ℕ → ℕ
  pub joules : ℕ → ℕ

module _ (c : Crypto) (master : List ℕ) (floats : GpuFloats) where
  pub gpu_record : GpuSurroundings → GpuBucket → ℕ → EnergyRecord
  gpu_record env b out_energy = record {
    pid = b.pid;
    cpu_time = floats.of_u64 b.util;
    energy_joules = floats.joules out_energy;
    power_watts = 0;
    vm_name = b.label;
    timestamp = env.timestamp;
  }

  -- The loop over the buckets; `shares[i]` out of range is a panic.
  pub bucket_loop :
      GpuSurroundings → List GpuBucket → List ℕ → Outcome (List (Text × ℕ) × List EnergyRecord)
  bucket_loop env [] shares = done ([], [])
  bucket_loop env (b ∷ bs) [] = panic
  bucket_loop env (b ∷ bs) (e ∷ es) = do
    rest ← bucket_loop env bs es
    done (if e == 0 then rest else ((b.label, e) ∷ rest.0, gpu_record env b e ∷ rest.1))

  -- The results and the records of a delta that is not 0.
  pub share_out :
      GpuSurroundings
      → List GpuBucket
      → Option (List ℕ)
      → Outcome (List (Text × ℕ) × List EnergyRecord)
  share_out env buckets none = done ([], [])
  share_out env buckets (some shares) = bucket_loop env buckets shares

  pub attribute_delta :
      GpuDbExportReq
      → GpuSurroundings
      → GpuGroup
      → ℕ
      → Outcome (List (Text × ℕ) × List EnergyRecord)
  attribute_delta req env gpu delta =
      if delta == 0
      then done ([], [])
      else let buckets = gpu_buckets req.node_id gpu delta in
        share_out env buckets (attribute_by_weight delta (map (λ b. b.util) buckets))

  -- What a reading leaves, with its results and records.
  pub charged : GpuDbExportReq → GpuGroup → Cycle → List (Text × ℕ) × List EnergyRecord → Cycle
  charged req gpu cycle made =
      let s = cycle.state in
      let key = state_key req.node_id gpu in
      let previous = lookup key s.gpu_energy_state in
      record {
        state = record s {
          gpu_energy_state = insert key (baseline_of previous gpu.energy_uj) s.gpu_energy_state;
          guest = record s.guest { accumulated_records = s.guest.accumulated_records ++ made.1 };
        };
        results = cycle.results ++ made.0;
        node_energy_uj = saturate_add cycle.node_energy_uj gpu.energy_uj;
        node_delta = saturate_add cycle.node_delta (delta_of previous gpu.energy_uj);
      }

  -- The body of the loop, once the tag has been checked.
  pub charge : GpuDbExportReq → GpuSurroundings → GpuGroup → Cycle → Outcome Cycle
  charge req env gpu cycle =
      let previous = lookup (state_key req.node_id gpu) cycle.state.gpu_energy_state in
      attribute_delta req env gpu (delta_of previous gpu.energy_uj)
      >>= (λ made. done (charged req gpu cycle made))

  -- `return`, or the rest of the loop.
  pub return_or : Option ℤ → GpuGuest → Outcome LoopEnd → Outcome LoopEnd
  return_or none s rest = rest
  return_or (some code) s rest = done (returns code s)

  pub gpu_loop : GpuDbExportReq → GpuSurroundings → Bool → List GpuGroup → Cycle → Outcome LoopEnd
  gpu_loop req env tag_enforced [] cycle = done (ends cycle)
  gpu_loop req env tag_enforced (gpu ∷ gpus) cycle =
      return_or (check_tag req tag_enforced gpu gpu.tag) cycle.state
        (charge req env gpu cycle >>= (λ next. gpu_loop req env tag_enforced gpus next))

  -- The end of a cycle, once the step of the chain has been signed.
  pub count_cycle :
      GpuDbExportReq → GpuSurroundings → List (Text × ℕ) → GpuGuest → Outcome GpuHandled
  count_cycle req env results s =
      let n = (s.guest.iteration_count + 1) % 2 ^ 64 in
      let t = record s { guest = record s.guest { iteration_count = n } } in
      (if n == gpu_batch_size
        then flush_gpu_block_to_redis c master t req.node_id env
        else done (t, none))
      >>= (λ flushed.
          done (flushed.0, record { status = pos 0; output_data = some results }, flushed.1))

  pub sign_node : GpuDbExportReq → Cycle → States × ℤ
  sign_node req cycle =
      let (states, link, code) =
        sign_energy_chain c master cycle.state.guest.chains (gpu_prefix ++ req.node_id)
          cycle.node_energy_uj cycle.node_delta in
      (states, code)

  pub on_signed : GpuDbExportReq → GpuSurroundings → Cycle → States × ℤ → Outcome GpuHandled
  on_signed req env cycle (chains, code) =
      let s = record cycle.state { guest = record cycle.state.guest { chains = chains } } in
      if is_negative code
      then done (s, gpu_refusal code, none)
      else count_cycle req env cycle.results s

  pub after_loop : GpuDbExportReq → GpuSurroundings → LoopEnd → Outcome GpuHandled
  after_loop req env (returns code s) = done (s, gpu_refusal code, none)
  after_loop req env (ends cycle) = on_signed req env cycle (sign_node req cycle)

  -- From the loop over the readings on.
  pub process_gpus : GpuGuest → GpuDbExportReq → GpuSurroundings → Bool → Outcome GpuHandled
  process_gpus s req env tag_enforced =
      gpu_loop req env tag_enforced req.gpus
        (record { state = s; results = []; node_energy_uj = 0; node_delta = 0 })
      >>= after_loop req env

  -- The registry's part: the cache, whether the cards are admitted, and whether tags are enforced.
  pub check_bindings :
      GpuGuest → GpuDbExportReq → GpuSurroundings → List (Text × Bool) × Bool × Bool
  check_bindings s req env =
      if length req.immudb_addr == 0
      then (s.bindings, true, false)
      else let (b0, enforced) = cached env.registered s.bindings binding_enforced_key in
        let (b1, tag_enforced) = cached env.registered b0 tag_enforced_key in
        let (b2, admitted) = binding_loop env.registered enforced b1 req.gpus in
        (b2, admitted, tag_enforced)

  pub with_bindings :
      GpuGuest
      → GpuDbExportReq
      → GpuSurroundings
      → List (Text × Bool) × Bool × Bool
      → Outcome GpuHandled
  with_bindings s req env (bindings, admitted, tag_enforced) =
      let s = record s { bindings = bindings } in
      if not admitted
      then done (s, gpu_refusal (negsuc 12), none)
      else process_gpus s req env tag_enforced

  pub handle_gpu_db_export : GpuGuest → GpuDbExportReq → GpuSurroundings → Outcome GpuHandled
  handle_gpu_db_export s req env =
      if not (is_valid_tenant_label req.node_id)
      then done (s, gpu_refusal (negsuc 101), none)
      else if has_duplicate [] req.gpus
      then done (s, gpu_refusal (negsuc 102), none)
      else with_bindings s req env (check_bindings s req env)
