-- ===== src/HostTotal/Examples.antt =====
-- Two packages and a memory, with a buffer of three bytes.
use vpma.Prelude.{◌≡◌, some, [], ◌∷◌, map, arith, ltb, if◌then◌else◌, pos, length}
use vpma.Text.Numbers.{show_dec, show_u64}
use vpma.HostTotal.{compute_total_host_energy, ecall_compute_total_host_energy}
use vpma.HostTotal.Sums.{compute_total_host_energy_lem}

compute_total_host_energy_lem_example :
    (compute_total_host_energy (map show_u64 (900 ∷ 80 ∷ [])) (map show_u64 (7 ∷ []))
      ≡ show_dec 39 987)
    × (ecall_compute_total_host_energy
          (some (map show_u64 (900 ∷ 80 ∷ [])))
          (some (map show_u64 (7 ∷ [])))
          3
        ≡ (if ltb 3 (length (show_dec 39 987)) then (pos 3, []) else (pos 0, show_dec 39 987)))
compute_total_host_energy_lem_example =
    compute_total_host_energy_lem (900 ∷ 80 ∷ []) (7 ∷ []) 3 (omega arith, (omega arith, tt))
      (omega arith, tt) (omega arith)
