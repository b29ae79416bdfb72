-- ===== src/GpuOwner/Examples.antt =====
-- The cgroup of a virtual machine's process.
use vpma.Prelude.{[], ◌∷◌}
use vpma.Exporter.{Text}
use vpma.GpuOwner.{resolve_gpu_owner}
use vpma.GpuOwner.Forms.{Owner, resolve_gpu_owner-Owner}

-- "0::/machine.slice/machine-qemu\x2d1\x2da.scope"
abbrev vm_cgroup : Text
vm_cgroup =
    48 ∷ 58 ∷ 58 ∷ 47 ∷ 109 ∷ 97 ∷ 99 ∷ 104 ∷ 105 ∷ 110 ∷ 101 ∷ 46 ∷ 115 ∷ 108 ∷ 105 ∷ 99 ∷ 101 ∷ 47
    ∷ 109 ∷ 97 ∷ 99 ∷ 104 ∷ 105 ∷ 110 ∷ 101 ∷ 45 ∷ 113 ∷ 101 ∷ 109 ∷ 117 ∷ 92 ∷ 120 ∷ 50 ∷ 100 ∷ 49
    ∷ 92 ∷ 120 ∷ 50 ∷ 100 ∷ 97 ∷ 46 ∷ 115 ∷ 99 ∷ 111 ∷ 112 ∷ 101 ∷ []

resolve_gpu_owner-Owner_example : Owner (98 ∷ []) (resolve_gpu_owner vm_cgroup (98 ∷ []))
resolve_gpu_owner-Owner_example = resolve_gpu_owner-Owner vm_cgroup (98 ∷ [])
