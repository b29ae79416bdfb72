-- ===== src/Host/Examples.antt =====
-- The host's accounting at concrete inputs.
use vpma.Prelude.{pos, ◌≢◌, ℤ, ℕ, ◌≡◌, ◌↔◌, none, some, List, [], ◌∷◌, All}
use vpma.Crypto.Toy.{toy}
use vpma.Merkle.{done}
use vpma.Exporter.{VmEnergyUpdate, CpuFloats, PrevCpuSample}
use vpma.Host.Refusals.{compute_vm_energy_refused}
use vpma.Host.{
  compute_vm_energy_simple, compute_vm_energy_cgroup, TagKey, RaplReading, recomputed,
  check_readings, check_readings_cgroup, verify_rapl_hash, chain_entry, VmChainState, sign_loop,
}
use vpma.Host.Readings.{Genuine, check_readings_iff}
use vpma.Host.Signing.{host_after, own, own_signed, signed_updates, sign_loop_lem}

abbrev key : TagKey
key = record { k0 = 1; k1 = 2; epoch = 3; producer = 4 }

abbrev reading : ℕ → ℕ → RaplReading
reading valid hash = record {
  energy_uj = 5;
  timestamp_ns = 6;
  socket_id = 0;
  domain_id = 1;
  hash = hash;
  valid = valid;
}

abbrev readings : List RaplReading
readings = reading 1 (recomputed key (reading 1 0)) ∷ reading 0 7 ∷ []

check_readings_iff_example :
    ((check_readings (some key) readings ≡ none) ↔ All (Genuine (some key)) readings)
    × ((check_readings_cgroup (some key) readings ≡ none) ↔ All (Genuine (some key)) readings)
check_readings_iff_example = check_readings_iff (some key) readings

abbrev master : List ℕ
master = 7 ∷ []

abbrev vm : List ℕ
vm = 118 ∷ []

abbrev other_vm : List ℕ
other_vm = 119 ∷ []

abbrev energy_update : List ℕ → ℕ → VmEnergyUpdate
energy_update name uj = record { vm_name = name; uj_to_add = uj; hmac_signature = [] }

abbrev updates : List VmEnergyUpdate
updates = energy_update vm 30 ∷ energy_update vm 40 ∷ []

abbrev started : VmChainState
started = chain_entry toy master vm []

sign_loop_lem_example :
    (chain_entry toy master vm
        (sign_loop toy master []
          (energy_update vm 30 ∷ energy_update other_vm 1 ∷ energy_update vm 40 ∷ [])).0
      ≡ host_after toy master vm (chain_entry toy master vm []) (
          own toy master vm
            (energy_update vm 30 ∷ energy_update other_vm 1 ∷ energy_update vm 40 ∷ [])))
    × (own_signed toy master vm
          (sign_loop toy master []
            (energy_update vm 30 ∷ energy_update other_vm 1 ∷ energy_update vm 40 ∷ [])).1
        ≡ signed_updates toy master vm (chain_entry toy master vm []) (
            own toy master vm
              (energy_update vm 30 ∷ energy_update other_vm 1 ∷ energy_update vm 40 ∷ [])))
sign_loop_lem_example =
    sign_loop_lem toy master vm []
      (energy_update vm 30 ∷ energy_update other_vm 1 ∷ energy_update vm 40 ∷ [])

abbrev floats : CpuFloats
floats = record {
  parse_f64 = λ s. 0;
  percent = λ delta elapsed. 0;
  microjoules = λ percent topo. 0;
}

abbrev forged : List RaplReading
forged = reading 1 0 ∷ []

forged_lem : ¬ All (Genuine none) forged
forged_lem h =
    let bad = (check_readings_iff none forged).0.1 h in unfold check_readings verify_rapl_hash in cc

-- The samples of an earlier call are kept.
abbrev earlier : List (List ℕ × PrevCpuSample)
earlier = (vm, record { cpu_usage_ns = 1; timestamp_ns = 2 }) ∷ []

compute_vm_energy_refused_example :
    ((code : ℤ) × (code ≢ pos 0)
      × (compute_vm_energy_simple toy master floats none
            (some (some forged))
            (some [])
            (some [])
            (some [])
          ≡ done (code, some [], [])))
    × ((code : ℤ) × (code ≢ pos 0)
        × (compute_vm_energy_cgroup toy master floats none
              (some (some forged))
              (some [])
              (some [])
              earlier
              (some [])
            ≡ done (code, some [], earlier, [])))
compute_vm_energy_refused_example =
    compute_vm_energy_refused toy master floats none forged (some []) (some []) (some []) earlier
      (some []) forged_lem
