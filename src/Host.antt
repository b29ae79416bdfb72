-- ===== src/Host.antt =====
-- The host enclave's energy accounting, sgx/src/lib.rs: the tag check of the readings in
-- `ecall_compute_vm_energy_simple` and `ecall_compute_vm_energy_cgroup`, the chain of each virtual
-- machine that both sign, and `ecall_get_chain_state`. Tag key and chains are the values of
-- RAPL_TAG_KEY and VM_CHAINS; the arguments are parsed, `none` where the parser refuses. The
-- copies into the caller's buffer and the call-outs that write each update to a file are left out.
pub mod Readings
pub mod Signing
pub mod Refusals
mod Examples
use vpma.Prelude.{
  ℕ, zero, suc, ◌+◌, ◌%◌, ◌^◌, Bool, true, false, not, Option, none, some, List, [], ◌∷◌, ◌++◌, ltb,
  leb, ◌==◌, ◌===◌, lookup, insert, if◌then◌else◌, ℤ, pos, negsuc, push,
}
use vpma.Crypto.{Crypto, zero32}
use vpma.Text.Numbers.{show_u64}
use vpma.Chain.{max_u64}
use vpma.Exporter.{
  VmEnergyUpdate, CompactProcessSample, VmCgroupSample, PrevCpuSample, CpuFloats, iterate_compact,
  iterate_cgroup,
}
use vpma.Merkle.{Outcome, done, panic, ◌>>=◌}
use vpma.Siptag.{Measurement, siptag}
use vpma.Admission.{admit_measurement_tag}

-- k0, k1, epoch and producer.
pub record TagKey : Type 0 where
  pub k0 : ℕ
  pub k1 : ℕ
  pub epoch : ℕ
  pub producer : ℕ

pub record RaplReading : Type 0 where
  pub energy_uj : ℕ
  pub timestamp_ns : ℕ
  pub socket_id : ℕ
  pub domain_id : ℕ
  pub hash : ℕ
  pub valid : ℕ

abbrev pub siptag_version : ℕ
siptag_version = 1

pub recomputed : TagKey → RaplReading → ℕ
recomputed key r = siptag key.k0 key.k1 (record {
  energy_uj = r.energy_uj;
  timestamp_ns = r.timestamp_ns;
  unit_id = r.socket_id;
  domain_id = r.domain_id;
  version = siptag_version;
  producer = key.producer;
  key_epoch = key.epoch;
})

pub is_some : {A : Type 0} → Option A → Bool
is_some none = false
is_some (some a) = true

unfoldable pub verify_rapl_hash : Option TagKey → RaplReading → Bool
verify_rapl_hash none r = false
verify_rapl_hash (some key) r = is_some (admit_measurement_tag r.hash (recomputed key r))

-- The loop of `ecall_compute_vm_energy_simple`: the code that it returns, or `none` to go on.
unfoldable pub check_readings : Option TagKey → List RaplReading → Option ℤ
check_readings key [] = none
check_readings key (r ∷ rs) =
    if not (r.valid == 1)
    then check_readings key rs
    else if not (verify_rapl_hash key r)
    then some (negsuc 1)
    else check_readings key rs

-- The loop of `ecall_compute_vm_energy_cgroup`.
unfoldable pub check_readings_cgroup : Option TagKey → List RaplReading → Option ℤ
check_readings_cgroup key [] = none
check_readings_cgroup key (r ∷ rs) =
    if not (r.valid == 1) then check_readings_cgroup key rs else elim (key) [
      | none ↦ some (negsuc 0)
      | some k ↦
          if not (is_some (admit_measurement_tag r.hash (recomputed k r)))
          then some (negsuc 1)
          else check_readings_cgroup key rs
    ]

-- Before the loop: `none` where there is no buffer of readings, `some none` where it cannot be parsed.
unfoldable pub check_hashes :
    (List RaplReading → Option ℤ) → Option (Option (List RaplReading)) → Option ℤ
check_hashes check none = none
check_hashes check (some none) = some (negsuc 0)
check_hashes check (some (some readings)) = check readings

pub record VmChainState : Type 0 where
  pub hmac_key : List ℕ
  pub chain_state : List ℕ
  pub counter : ℕ
  pub cumulative_energy_uj : ℕ

abbrev pub Chains : Type 0
Chains = List (List ℕ × VmChainState)

pub record SignedVmUpdate : Type 0 where
  pub vm_name : List ℕ
  pub uj_value : ℕ
  pub counter : ℕ
  pub previous_hash : List ℕ
  pub signature : List ℕ

pub saturating_add : ℕ → ℕ → ℕ
saturating_add a b = if ltb max_u64 (a + b) then max_u64 else a + b

-- `ecall_initialize_sealed_key`
pub initialize_sealed_key : Option Chains
initialize_sealed_key = some []

-- `ecall_get_chain_state`: the code, with the chain state and the counter.
pub get_chain_state : Option Chains → List ℕ → ℤ × Option (List ℕ × ℕ)
get_chain_state none vm_name = (pos 3, none)
get_chain_state (some chains) vm_name = elim (lookup vm_name chains) [
  | none ↦ (pos 4, none)
  | some s ↦ (pos 0, some (s.chain_state, s.counter))
]

module _ (c : Crypto) (master : List ℕ) where
  pub derive_vm_key : List ℕ → List ℕ
  derive_vm_key vm_name = c.hmac master (118 ∷ 109 ∷ 58 ∷ vm_name)

  pub or_started : List ℕ → Option VmChainState → VmChainState
  or_started vm_name none = record {
    hmac_key = derive_vm_key vm_name;
    chain_state = zero32;
    counter = 0;
    cumulative_energy_uj = 0;
  }
  or_started vm_name (some s) = s

  -- `vm_chains.entry(...).or_insert_with(...)`
  pub chain_entry : List ℕ → Chains → VmChainState
  chain_entry vm_name chains = or_started vm_name (lookup vm_name chains)

  pub data_to_sign : List ℕ → ℕ → VmChainState → List ℕ
  data_to_sign vm_name uj s =
      show_u64 s.counter
      ++ (124
          ∷ (vm_name
              ++ (124
                  ∷ (show_u64 s.cumulative_energy_uj
                      ++ (124 ∷ (show_u64 uj ++ (124 ∷ c.hex_encode s.chain_state)))))))

  -- One turn of the signing loop on the state of its virtual machine.
  pub sign_update : VmChainState → VmEnergyUpdate → VmChainState × SignedVmUpdate
  sign_update s update =
      let s = record s {
        counter = (s.counter + 1) % 2 ^ 64;
        cumulative_energy_uj = saturating_add s.cumulative_energy_uj update.uj_to_add;
      } in
      let signature = c.hmac s.hmac_key (data_to_sign update.vm_name update.uj_to_add s) in
      (
        record s { chain_state = signature },
        record {
          vm_name = update.vm_name;
          uj_value = update.uj_to_add;
          counter = s.counter;
          previous_hash = c.hex_encode s.chain_state;
          signature = c.hex_encode signature;
        },
      )

  pub sign_loop : Chains → List VmEnergyUpdate → Chains × List SignedVmUpdate
  sign_loop chains [] = (chains, [])
  sign_loop chains (update ∷ updates) =
      let (s, signed) = sign_update (chain_entry update.vm_name chains) update in
      let (last, rest) = sign_loop (insert update.vm_name s chains) updates in (last, signed ∷ rest)

  -- `VM_CHAINS.as_mut().unwrap()` in each turn of the loop.
  pub sign_updates :
      Option Chains → List VmEnergyUpdate → Outcome (Option Chains × List SignedVmUpdate)
  sign_updates none [] = done (none, [])
  sign_updates none (update ∷ updates) = panic
  sign_updates (some chains) updates =
      let (last, signed) = sign_loop chains updates in done (some last, signed)

  -- `ecall_compute_vm_energy_simple` from the check on: the code, the chains and the signed updates.
  unfoldable pub simple_after :
      CpuFloats
      → Option ℤ
      → Option Chains
      → Option (List ℕ)
      → Option (List (List CompactProcessSample))
      → Outcome (ℤ × Option Chains × List SignedVmUpdate)
  simple_after floats (some code) chains topo processes = done (code, chains, [])
  simple_after floats none chains none processes = done (pos 2, chains, [])
  simple_after floats none chains (some topo) none = done (pos 3, chains, [])
  simple_after floats none chains (some topo) (some processes) = do
    updates ← iterate_compact floats topo processes
    r ← sign_updates chains updates
    done (pos 0, r.0, r.1)

  unfoldable pub compute_vm_energy_simple :
      CpuFloats
      → Option TagKey
      → Option (Option (List RaplReading))
      → Option Chains
      → Option (List ℕ)
      → Option (List (List CompactProcessSample))
      → Outcome (ℤ × Option Chains × List SignedVmUpdate)
  compute_vm_energy_simple floats key hashes =
      simple_after floats (check_hashes (check_readings key) hashes)

  -- The same for `ecall_compute_vm_energy_cgroup`, which also leaves its samples.
  unfoldable pub cgroup_after :
      CpuFloats
      → Option ℤ
      → Option Chains
      → Option (List ℕ)
      → List (List ℕ × PrevCpuSample)
      → Option (List VmCgroupSample)
      → Outcome (ℤ × Option Chains × List (List ℕ × PrevCpuSample) × List SignedVmUpdate)
  cgroup_after floats (some code) chains topo prev samples = done (code, chains, prev, [])
  cgroup_after floats none chains none prev samples = done (pos 2, chains, prev, [])
  cgroup_after floats none chains (some topo) prev none = done (pos 3, chains, prev, [])
  cgroup_after floats none chains (some topo) prev (some samples) =
      let (kept, updates) = iterate_cgroup floats prev topo samples in
      sign_updates chains updates >>= λ r. done (pos 0, r.0, kept, r.1)

  unfoldable pub compute_vm_energy_cgroup :
      CpuFloats
      → Option TagKey
      → Option (Option (List RaplReading))
      → Option Chains
      → Option (List ℕ)
      → List (List ℕ × PrevCpuSample)
      → Option (List VmCgroupSample)
      → Outcome (ℤ × Option Chains × List (List ℕ × PrevCpuSample) × List SignedVmUpdate)
  compute_vm_energy_cgroup floats key hashes =
      cgroup_after floats (check_hashes (check_readings_cgroup key) hashes)
