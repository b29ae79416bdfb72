-- ===== src/Exporter/Examples.antt =====
-- The exporters at concrete inputs.
use vpma.Prelude.{◌===◌, ℕ, ◌*◌, ◌/◌, ◌≡◌, refl, List, [], ◌∷◌, ◌++◌, arith, All, length}
use vpma.Merkle.{done}
use vpma.Exporter.{
  starts_with, contains, keeps_arg, Text, guest_prefix, name_option, qemu_system, ProcessSample,
  CompactProcessSample, VmCgroupSample, CpuFloats, compactify_processes, iterate, iterate_compact,
  iterate_cgroup,
}
use vpma.Exporter.Compact.{Fits, iterate_compact-compactify}
use vpma.Exporter.Cgroup.{iterate_cgroup-again}

abbrev floats : CpuFloats
floats = record {
  parse_f64 = λ s. length s;
  percent = λ delta elapsed. delta * 100 / elapsed;
  microjoules = λ percent topo. percent * topo / 100;
}

-- "vm" and ",debug"
abbrev vm : Text
vm = 118 ∷ 109 ∷ []

abbrev options : Text
options = 44 ∷ 100 ∷ []

abbrev process : ProcessSample
process = record {
  pid = 7;
  cmdline = qemu_system ∷ name_option ∷ (guest_prefix ++ vm) ∷ (47 ∷ []) ∷ [];
  cpu_usage_percentage = 49 ∷ [];
}

process-Fits : Fits process
unfolding keeps_arg contains starts_with ◌===◌
process-Fits = (omega arith, (omega arith, (omega arith, (omega arith, tt))))

iterate_compact-compactify_example :
    (compacted : List (List CompactProcessSample)) × (compactify_processes ((process ∷ []) ∷ [])
      ≡ done compacted)
    × (iterate_compact floats (49 ∷ []) compacted ≡ iterate floats (49 ∷ []) ((process ∷ []) ∷ []))
iterate_compact-compactify_example =
    iterate_compact-compactify floats (49 ∷ []) ((process ∷ []) ∷ []) ((process-Fits, tt), tt)

abbrev sample : Text → ℕ → VmCgroupSample
sample name n = record { vm_name = name; cpu_usage_ns = n; timestamp_ns = 1000 }

iterate_cgroup-again_example :
    All
      (λ u. u.uj_to_add ≡ 0)
      (iterate_cgroup floats
        (iterate_cgroup floats [] (49 ∷ []) (sample vm 5 ∷ sample options 6 ∷ [])).0
        (50 ∷ [])
        (sample vm 5 ∷ sample options 6 ∷ [])).1
iterate_cgroup-again_example =
    iterate_cgroup-again floats [] (49 ∷ []) (50 ∷ []) (sample vm 5 ∷ sample options 6 ∷ []) refl
      ((λ e. absurd cc, tt), (tt, tt))
