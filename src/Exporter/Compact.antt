-- ===== src/Exporter/Compact.antt =====
-- The compacted process samples lead to the same updates as the full ones.
use vpma.Prelude.{
  ℕ, zero, suc, ◌≤◌, ◌≡◌, refl, sym, ap, inl, inr, true, false, List, [], ◌∷◌, map, arith, ltb,
  length, if◌then◌else◌, Bool-cases, All,
}
use vpma.Merkle.{done, ◌>>=◌}
use vpma.Exporter.{
  Text, contains, starts_with, qemu_system, guest_prefix, keeps_arg, shorten, compact_cmdline,
  to_compact, ProcessSample, CompactProcessSample, compactify_group, compactify_processes,
  get_vm_name_from_cmdline, any_qemu, filter_qemu_vm_processes, filter_qemu_vm_processes_compact,
  CpuFloats, group_update, iterate_loop, iterate_loop_compact, iterate, iterate_compact,
}

-- The arguments that the filter of `to_compact` keeps.
abbrev pub kept : List Text → List Text
kept [] = []
kept (a ∷ args) = if keeps_arg a then a ∷ kept args else kept args

-- A command line that loses nothing but what the filter drops: at most ten arguments of at most 64
-- bytes are kept.
abbrev pub Fits : ProcessSample → Type 0
Fits p = (length (kept p.cmdline) ≤ 10) × All (λ a. length a ≤ 64) (kept p.cmdline)

is_empty : (as_kept : List Text) → length as_kept ≤ 0 → as_kept ≡ []
is_empty [] l = refl
is_empty (a ∷ args) l = absurd (omega (arith, l))

compact_cmdline_lem :
    (n : ℕ) (args : List Text)
    → length (kept args) ≤ n
    → All (λ a. length a ≤ 64) (kept args)
    → compact_cmdline n args ≡ done (kept args)
unfolding compact_cmdline shorten
compact_cmdline_lem zero args room short = ap done (sym (is_empty (kept args) room))
compact_cmdline_lem (suc n) [] room short = refl
compact_cmdline_lem (suc n) (a ∷ args) room short = elim (Bool-cases (keeps_arg a)) [
  | inl t ↦
      let room' : suc (length (kept args)) ≤ suc n = (rw t at room) in
      let short' : All (λ a. length a ≤ 64) (a ∷ kept args) = (rw t at short) in
      let whole : ltb 64 (length a) ≡ false = ground (arith, short'.0) in
      rw (t, whole, ◌>>=◌, compact_cmdline_lem n args (omega (arith, room')) short'.1, ◌>>=◌) refl
  | inr f ↦ rw f (compact_cmdline_lem (suc n) args (rw f at room) (rw f at short))
]

keeps_qemu : (a : Text) → keeps_arg a ≡ false → contains a qemu_system ≡ false
unfolding keeps_arg
keeps_qemu a h = elim (Bool-cases (contains a qemu_system)) [
  | inl t ↦ let bad : true ≡ false = (rw t at h) in absurd cc
  | inr f ↦ f
]

keeps_guest : (a : Text) → keeps_arg a ≡ false → starts_with a guest_prefix ≡ false
unfolding keeps_arg
keeps_guest a h = elim (Bool-cases (starts_with a guest_prefix)) [
  | inl t ↦ let bad : true ≡ false = (rw (keeps_qemu a h, t) at h) in absurd cc
  | inr f ↦ f
]

any_qemu-kept : (args : List Text) → any_qemu (kept args) ≡ any_qemu args
unfolding any_qemu
any_qemu-kept [] = refl
any_qemu-kept (a ∷ args) = elim (Bool-cases (keeps_arg a)) [
  | inl t ↦ rw t (rw (any_qemu-kept args) refl)
  | inr f ↦ rw (f, keeps_qemu a f) (any_qemu-kept args)
]

name-kept :
    (args : List Text) → get_vm_name_from_cmdline (kept args) ≡ get_vm_name_from_cmdline args
unfolding get_vm_name_from_cmdline
name-kept [] = refl
name-kept (a ∷ args) = elim (Bool-cases (keeps_arg a)) [
  | inl t ↦ rw t (rw (name-kept args) refl)
  | inr f ↦ rw (f, keeps_guest a f) (name-kept args)
]

abbrev compact_of : ProcessSample → CompactProcessSample
compact_of p = record {
  pid = p.pid;
  cmdline = kept p.cmdline;
  cpu_usage_percentage = p.cpu_usage_percentage;
}

compactify_group_lem :
    (g : List ProcessSample) → All Fits g → compactify_group g ≡ done (map compact_of g)
unfolding compactify_group to_compact
compactify_group_lem [] fits = refl
compactify_group_lem (p ∷ ps) fits =
    rw
      (
        compact_cmdline_lem 10 p.cmdline fits.0.0 fits.0.1,
        ◌>>=◌,
        compactify_group_lem ps fits.1,
        ◌>>=◌,
      )
      refl

compactify_processes_lem :
    (gs : List (List ProcessSample))
    → All (All Fits) gs
    → compactify_processes gs ≡ done (map (map compact_of) gs)
unfolding compactify_processes
compactify_processes_lem [] fits = refl
compactify_processes_lem (g ∷ gs) fits =
    rw (compactify_group_lem g fits.0, ◌>>=◌, compactify_processes_lem gs fits.1, ◌>>=◌) refl

loops_agree :
    (floats : CpuFloats) (topo : ℕ) (gs : List (List ProcessSample))
    → iterate_loop_compact floats topo (filter_qemu_vm_processes_compact (map (map compact_of) gs))
      ≡ iterate_loop floats topo (filter_qemu_vm_processes gs)
unfolding iterate_loop iterate_loop_compact filter_qemu_vm_processes
    filter_qemu_vm_processes_compact group_update
loops_agree floats topo [] = refl
loops_agree floats topo ([] ∷ gs) = loops_agree floats topo gs
loops_agree floats topo ((f ∷ ps) ∷ gs) = elim (Bool-cases (any_qemu f.cmdline)) [
  | inl t ↦
      rw (any_qemu-kept f.cmdline, t) (rw (name-kept f.cmdline, loops_agree floats topo gs) refl)
  | inr n ↦ rw (any_qemu-kept f.cmdline, n) (loops_agree floats topo gs)
]

-- Where each command line keeps at most ten arguments of at most 64 bytes, compaction does not
-- panic, and the exporter makes the same updates from the compacted samples as from the full ones:
-- the same virtual machines, names and energies.
pub iterate_compact-compactify :
    (floats : CpuFloats) (topo_energy_value : Text) (processes : List (List ProcessSample))
    → All (All Fits) processes
    → (compacted : List (List CompactProcessSample)) × (compactify_processes processes
        ≡ done compacted)
      × (iterate_compact floats topo_energy_value compacted
          ≡ iterate floats topo_energy_value processes)
unfolding iterate_compact iterate
iterate_compact-compactify floats topo_energy_value processes fits = (
  map (map compact_of) processes,
  compactify_processes_lem processes fits,
  loops_agree floats (floats.parse_f64 topo_energy_value) processes,
)
