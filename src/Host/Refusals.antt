-- ===== src/Host/Refusals.antt =====
-- Nothing is signed for readings that fail the check.
use vpma.Prelude.{
  ℕ, ◌≡◌, ◌≢◌, refl, inl, inr, Option, some, Option-cases, List, [], ◌∷◌, ℤ, pos, All, arith,
}
use vpma.Crypto.{Crypto}
use vpma.Merkle.{done}
use vpma.Exporter.{CpuFloats, CompactProcessSample, VmCgroupSample, PrevCpuSample}
use vpma.Host.{
  TagKey, RaplReading, Chains, check_readings, check_readings_cgroup, check_hashes, simple_after,
  compute_vm_energy_simple, cgroup_after, compute_vm_energy_cgroup,
}
use vpma.Host.Readings.{Genuine, check_readings_iff}

module _ (c : Crypto) (master : List ℕ) (floats : CpuFloats) (key : Option TagKey) where
  check_readings_code :
      (rs : List RaplReading) (code : ℤ) → check_readings key rs ≡ some code → code ≢ pos 0
  unfolding check_readings
  check_readings_code [] code e = cc
  check_readings_code (r ∷ rs) code e =
      let rest = check_readings_code rs code in ground (arith, rest)

  check_readings_cgroup_code :
      (rs : List RaplReading) (code : ℤ) → check_readings_cgroup key rs ≡ some code → code ≢ pos 0
  unfolding check_readings_cgroup
  check_readings_cgroup_code [] code e = cc
  check_readings_cgroup_code (r ∷ rs) code e =
      let rest = check_readings_cgroup_code rs code in ground (arith, rest)

  -- Given readings that are not all genuine, a call of either kind ends with the code of the check,
  -- which is not 0, and leaves everything as it was: the chains, the previous samples, and no
  -- update signed. This holds of both calls, whatever else they are given.
  pub compute_vm_energy_refused :
      (rs : List RaplReading) (chains : Option Chains) (topo : Option (List ℕ))
      (processes : Option (List (List CompactProcessSample))) (prev : List (List ℕ × PrevCpuSample))
      (samples : Option (List VmCgroupSample))
      → ¬ All (Genuine key) rs
      → ((code : ℤ) × (code ≢ pos 0)
          × (compute_vm_energy_simple c master floats key (some (some rs)) chains topo processes
              ≡ done (code, chains, [])))
        × ((code : ℤ) × (code ≢ pos 0)
            × (compute_vm_energy_cgroup c master floats key
                  (some (some rs))
                  chains
                  topo
                  prev
                  samples
                ≡ done (code, chains, prev, [])))
  unfolding compute_vm_energy_simple compute_vm_energy_cgroup check_hashes simple_after cgroup_after
  compute_vm_energy_refused rs chains topo processes prev samples forged =
      let (simple, cgroup) = check_readings_iff key rs in
      (
        elim (Option-cases (check_readings key rs)) [
          | inl passed ↦ absurd (forged (simple.0 passed))
          | inr (code, e) ↦ (code, check_readings_code rs code e, rw e refl)
        ],
        elim (Option-cases (check_readings_cgroup key rs)) [
          | inl passed ↦ absurd (forged (cgroup.0 passed))
          | inr (code, e) ↦ (code, check_readings_cgroup_code rs code e, rw e refl)
        ],
      )
