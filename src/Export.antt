-- ===== src/Export.antt =====
-- `handle_db_export` of sgx_vm/src/main.rs: one cycle of the guest enclave. It verifies the host's
-- chain step, attributes the energy to processes, gathers the records and, each hundred cycles,
-- seals them into a block and stores it. The handler's static variables are a record that is
-- passed in and out; the request is the parsed one, its hexadecimal fields as `hex::decode` returns
-- them. The answers of the Redis server and the clock are arguments.
pub mod Shares
pub mod Stored
pub mod Calls
pub mod Runs
mod Examples
use vpma.Prelude.{
  ℕ, zero, suc, ◌+◌, ◌%◌, ◌^◌, Bool, true, false, not, ◌&&◌, Option, none, some, List, [], ◌∷◌,
  ◌++◌, map, ltb, leb, ◌==◌, if◌then◌else◌, ℤ, pos, negsuc, length, push,
}
use vpma.Crypto.{Crypto, zero32}
use vpma.Chain.{max_u64, States, Link, SignedLink, verify_energy_chain}
use vpma.Attribution.{attribute_by_weight}
use vpma.Merkle.{EnergyRecord, Outcome, done, panic, ◌>>=◌}
use vpma.Blockchain.{Block, new_block}

abbrev pub batch_size : ℕ
batch_size = 100

-- ITERATION_COUNT, ACCUMULATED_RECORDS, BLOCK_NUMBER, LATEST_CHAINED_ROOT, STATE_INITIALIZED,
-- PREV_CYCLE_AT and VM_CHAIN_STATES.
pub record Guest : Type 0 where
  pub iteration_count : ℕ
  pub accumulated_records : List EnergyRecord
  pub block_number : ℕ
  pub latest_chained_root : List ℕ
  pub state_initialized : Bool
  pub prev_cycle_at : Option ℕ
  pub chains : States

abbrev pub new_guest : Guest
new_guest = record {
  iteration_count = 0;
  accumulated_records = [];
  block_number = 0;
  latest_chained_root = zero32;
  state_initialized = false;
  prev_cycle_at = none;
  chains = [];
}

-- A process: its id and its clock ticks.
abbrev pub Process : Type 0
Process = ℕ × ℕ

-- The fields that the handler reads.
pub record DbExportReq : Type 0 where
  pub vm_name : List ℕ
  pub energy_uj : ℕ
  pub counter : ℕ
  pub previous_hash : Option (List ℕ)
  pub signature : Option (List ℕ)
  pub energy_delta : ℕ
  pub processes : List Process

-- What `get_latest_block_state` answers, or that the server cannot be reached.
pub data LatestBlock : Type 0 where
  unreachable failed nothing : LatestBlock
  found : ℕ → List ℕ → LatestBlock

-- What one call meets: the instant, the timestamp, the state in the store, and whether the
-- connection and the insertion of a block succeed. An insertion that fails may have written part of
-- the block; the call then treats it as not stored, and so does this model.
pub record Surroundings : Type 0 where
  pub now : ℕ
  pub timestamp : List ℕ
  pub latest_block : LatestBlock
  pub insert_succeeds : Bool

-- The status and the results; the message, a text for the log, is left out.
pub record EnclaveResponse : Type 0 where
  pub status : ℤ
  pub output_data : Option (List (ℕ × ℕ))

abbrev pub refusal : ℤ → EnclaveResponse
refusal code = record { status = code; output_data = none }

-- What a call leaves: the state, the response and the block that it stored.
abbrev pub Handled : Type 0
Handled = Guest × EnclaveResponse × Option Block

-- The guard `Ok(v) if v.len() == 32`.
pub decoded_32 : Option (List ℕ) → Option (List ℕ)
decoded_32 none = none
decoded_32 (some v) = if length v == 32 then some v else none

-- (pid, ticks, is_placeholder)
pub record Bucket : Type 0 where
  pub pid : ℕ
  pub ticks : ℕ
  pub is_placeholder : Bool

pub all_idle : List Bucket → Bool
all_idle [] = true
all_idle (b ∷ bs) = b.ticks == 0 && all_idle bs

pub buckets_of : List Process → List Bucket
buckets_of processes =
    let buckets =
      map (λ p. let (pid, ticks) = p in record { pid = pid; ticks = ticks; is_placeholder = false })
        processes in
    if all_idle buckets
    then push buckets (record { pid = 0; ticks = 1; is_placeholder = true })
    else buckets

-- shares.iter().fold(0u64, |a, s| a.saturating_add(*s))
pub saturating_fold : ℕ → List ℕ → ℕ
saturating_fold a [] = a
saturating_fold a (s ∷ ss) = saturating_fold (if ltb max_u64 (a + s) then max_u64 else a + s) ss

unfoldable pub is_negative : ℤ → Bool
is_negative (pos n) = false
is_negative (negsuc n) = true

pub is_skip : ℤ → Bool
is_skip (pos n) = n == 2
is_skip (negsuc n) = false

pub resume_state : Guest → LatestBlock → Guest
resume_state s unreachable = s
resume_state s failed = record s { state_initialized = true }
resume_state s nothing = record s { state_initialized = true }
resume_state s (found block_num chained_root) = record s {
  block_number = (block_num + 1) % 2 ^ 64;
  latest_chained_root = chained_root;
  state_initialized = true;
}

-- The conversions to f64, as bit patterns: seconds of ticks (of a placeholder or not), joules of
-- microjoules, and watts from the last instant, this one and the microjoules.
pub record Floats : Type 0 where
  pub cpu_time : Bool → ℕ → ℕ
  pub joules : ℕ → ℕ
  pub watts : Option ℕ → ℕ → ℕ → ℕ

module _ (c : Crypto) (master : List ℕ) (floats : Floats) where
  pub record_of : Guest → DbExportReq → Surroundings → Bucket → ℕ → EnergyRecord
  record_of s req env b out_energy = record {
    pid = b.pid;
    cpu_time = floats.cpu_time b.is_placeholder b.ticks;
    energy_joules = floats.joules out_energy;
    power_watts = floats.watts s.prev_cycle_at env.now out_energy;
    vm_name = req.vm_name;
    timestamp = env.timestamp;
  }

  -- The loop over the buckets; `shares[i]` out of range is a panic.
  pub record_loop :
      (Bucket → ℕ → EnergyRecord)
      → List Bucket
      → List ℕ
      → Outcome (List (ℕ × ℕ) × List EnergyRecord)
  record_loop make [] shares = done ([], [])
  record_loop make (b ∷ bs) [] = panic
  record_loop make (b ∷ bs) (e ∷ es) = do
    rest ← record_loop make bs es
    done (if e == 0 then rest else ((b.pid, e) ∷ rest.0, make b e ∷ rest.1))

  -- The block of a full batch, and whether its insertion has succeeded.
  pub seal_batch : Guest → DbExportReq → Surroundings → Outcome (Guest × Option Block)
  seal_batch s req env = do
    let s = if not s.state_initialized then resume_state s env.latest_block else s
    block ←
        new_block c s.block_number req.vm_name s.latest_chained_root s.accumulated_records
          env.timestamp
    let s =
        if env.insert_succeeds
        then record s {
          block_number = (s.block_number + 1) % 2 ^ 64;
          latest_chained_root = block.chained_root;
        }
        else s
    done (
      record s { iteration_count = 0; accumulated_records = [] },
      if env.insert_succeeds then some block else none,
    )

  -- From the loop that makes the records on.
  pub gather : Guest → DbExportReq → Surroundings → List Bucket → List ℕ → Outcome Handled
  gather s req env buckets shares = do
    made ← record_loop (record_of s req env) buckets shares
    let s = record s {
      prev_cycle_at = some env.now;
      accumulated_records = s.accumulated_records ++ made.1;
      iteration_count = (s.iteration_count + 1) % 2 ^ 64;
    }
    sealed ← if s.iteration_count == batch_size then seal_batch s req env else done (s, none)
    done (sealed.0, record { status = pos 0; output_data = some made.0 }, sealed.1)

  -- The conservation test on the shares.
  pub conserve :
      Guest → DbExportReq → Surroundings → List Bucket → Option (List ℕ) → Outcome Handled
  conserve s req env buckets none = done (s, refusal (negsuc 104), none)
  conserve s req env buckets (some shares) =
      if not (saturating_fold 0 shares == req.energy_delta)
      then done (s, refusal (negsuc 105), none)
      else gather s req env buckets shares

  -- From the attribution on, once the chain has accepted the step.
  pub attribute : Guest → DbExportReq → Surroundings → Outcome Handled
  attribute s req env =
      if leb 0xFFFFFFFF (length req.processes)
      then done (s, refusal (negsuc 103), none)
      else let buckets = buckets_of req.processes in
        let weights = map (λ b. b.ticks) buckets in
        conserve s req env buckets (attribute_by_weight req.energy_delta weights)

  pub verify_request : Guest → DbExportReq → List ℕ → List ℕ → States × ℤ
  verify_request s req previous_hash signature =
      verify_energy_chain c master s.chains req.vm_name (record {
        link = record {
          counter = req.counter;
          energy_uj = req.energy_uj;
          energy_delta = req.energy_delta;
          previous_hash = previous_hash;
        };
        signature = signature;
      })

  pub on_verdict : Guest → DbExportReq → Surroundings → States × ℤ → Outcome Handled
  on_verdict s req env (chains, code) =
      let s = record s { chains = chains } in
      if is_negative code
      then done (s, refusal code, none)
      else if is_skip code
      then done (s, refusal (pos 2), none)
      else attribute s req env

  pub with_hashes :
      Guest → DbExportReq → Surroundings → Option (List ℕ) → Option (List ℕ) → Outcome Handled
  with_hashes s req env none signature = done (s, refusal (negsuc 101), none)
  with_hashes s req env (some previous_hash) none = done (s, refusal (negsuc 102), none)
  with_hashes s req env (some previous_hash) (some signature) =
      on_verdict s req env (verify_request s req previous_hash signature)

  pub handle_db_export : Guest → DbExportReq → Surroundings → Outcome Handled
  handle_db_export s req env =
      with_hashes s req env (decoded_32 req.previous_hash) (decoded_32 req.signature)
