-- ===== src/Exporter.antt =====
-- The attribution of the host's energy to virtual machines, src/exporters/qemu.rs, which the host
-- enclave includes: compaction of process samples, names and filters of QEMU processes, and the
-- three exporters. A string is its list of bytes. Conversions to and from f64 are arguments.
pub mod Names
pub mod Compact
pub mod Cgroup
mod Examples
use vpma.Prelude.{
  ℕ, zero, suc, ◌+◌, ◌-◌, ◌*◌, Bool, true, false, not, ◌&&◌, ◌||◌, Option, none, some, List, [],
  ◌∷◌, length, take, ltb, leb, ◌==◌, ◌===◌, if◌then◌else◌, lookup, insert,
}
use vpma.Merkle.{Outcome, done, panic, ◌>>=◌}

-- A `String`.
abbrev pub Text : Type 0
Text = List ℕ

unfoldable pub starts_with : Text → Text → Bool
starts_with arg [] = true
starts_with [] (p ∷ ps) = false
starts_with (b ∷ bs) (p ∷ ps) = b == p && starts_with bs ps

unfoldable pub contains : Text → Text → Bool
contains [] needle = starts_with [] needle
contains (b ∷ bs) needle = starts_with (b ∷ bs) needle || contains bs needle

pub split_first : ℕ → Text → Text × List Text
split_first d [] = ([], [])
split_first d (b ∷ bs) =
    let rest = split_first d bs in if b == d then ([], rest.0 ∷ rest.1) else (b ∷ rest.0, rest.1)

-- `str::split` on one character.
pub split : ℕ → Text → List Text
split d s = let parts = split_first d s in parts.0 ∷ parts.1

-- "guest="
abbrev pub guest_prefix : Text
guest_prefix = 103 ∷ 117 ∷ 101 ∷ 115 ∷ 116 ∷ 61 ∷ []

-- "qemu-system"
abbrev pub qemu_system : Text
qemu_system = 113 ∷ 101 ∷ 109 ∷ 117 ∷ 45 ∷ 115 ∷ 121 ∷ 115 ∷ 116 ∷ 101 ∷ 109 ∷ []

-- "-name"
abbrev pub name_option : Text
name_option = 45 ∷ 110 ∷ 97 ∷ 109 ∷ 101 ∷ []

pub record ProcessSample : Type 0 where
  pub pid : ℕ
  pub cmdline : List Text
  pub cpu_usage_percentage : Text

pub record CompactProcessSample : Type 0 where
  pub pid : ℕ
  pub cmdline : List Text
  pub cpu_usage_percentage : Text

-- The test of the filter in `to_compact`.
unfoldable pub keeps_arg : Text → Bool
keeps_arg arg =
    contains arg qemu_system
    || (starts_with arg guest_prefix
        || (arg === name_option
            || (ltb (length arg) 64
                && (not (starts_with arg (45 ∷ []))
                    && (not (starts_with arg (47 ∷ [])) && not (contains arg (61 ∷ [])))))))

-- Whether a string has a character boundary at this place.
pub is_char_boundary : ℕ → Text → Bool
is_char_boundary zero s = true
is_char_boundary (suc n) [] = false
is_char_boundary (suc zero) (a ∷ []) = true
is_char_boundary (suc zero) (a ∷ (b ∷ bs)) = ltb b 128 || leb 192 b
is_char_boundary (suc (suc n)) (a ∷ bs) = is_char_boundary (suc n) bs

-- `s[..64]` panics inside a character.
pub shorten : Text → Outcome Text
shorten s =
    if not (ltb 64 (length s))
    then done s
    else if is_char_boundary 64 s
    then done (take 64 s)
    else panic

-- The chain of `filter`, `map` and `take`, which asks for at most `n` strings.
pub compact_cmdline : ℕ → List Text → Outcome (List Text)
compact_cmdline zero args = done []
compact_cmdline (suc n) [] = done []
compact_cmdline (suc n) (arg ∷ args) =
    if keeps_arg arg
    then shorten arg >>= (λ s. compact_cmdline n args >>= (λ rest. done (s ∷ rest)))
    else compact_cmdline (suc n) args

pub to_compact : ProcessSample → Outcome CompactProcessSample
to_compact p = do
  cmdline ← compact_cmdline 10 p.cmdline
  done (record { pid = p.pid; cmdline = cmdline; cpu_usage_percentage = p.cpu_usage_percentage })

pub compactify_group : List ProcessSample → Outcome (List CompactProcessSample)
compactify_group [] = done []
compactify_group (p ∷ ps) = do q ← to_compact p; rest ← compactify_group ps; done (q ∷ rest)

pub compactify_processes : List (List ProcessSample) → Outcome (List (List CompactProcessSample))
compactify_processes [] = done []
compactify_processes (g ∷ gs) = do
  h ← compactify_group g
  rest ← compactify_processes gs
  done (h ∷ rest)

-- `.next().unwrap()`
pub next_unwrap : List Text → Outcome (Text × List Text)
next_unwrap [] = panic
next_unwrap (s ∷ rest) = done (s, rest)

pub skip_one : List Text → List Text
skip_one [] = []
skip_one (s ∷ rest) = rest

-- e.split('=').next().unwrap() after the first part, then .split(',').next().unwrap()
pub name_in : Text → Outcome Text
name_in e = do
  part ← next_unwrap (skip_one (split 61 e))
  name ← next_unwrap (split 44 part.0)
  done name.0

pub get_vm_name_from_cmdline : List Text → Outcome Text
get_vm_name_from_cmdline [] = done []
get_vm_name_from_cmdline (e ∷ rest) =
    if starts_with e guest_prefix then name_in e else get_vm_name_from_cmdline rest

pub any_qemu : List Text → Bool
any_qemu [] = false
any_qemu (a ∷ args) = contains a qemu_system || any_qemu args

pub filter_qemu_vm_processes : List (List ProcessSample) → List (List ProcessSample)
filter_qemu_vm_processes [] = []
filter_qemu_vm_processes ([] ∷ gs) = filter_qemu_vm_processes gs
filter_qemu_vm_processes ((f ∷ ps) ∷ gs) =
    if any_qemu f.cmdline
    then (f ∷ ps) ∷ filter_qemu_vm_processes gs
    else filter_qemu_vm_processes gs

pub filter_qemu_vm_processes_compact :
    List (List CompactProcessSample) → List (List CompactProcessSample)
filter_qemu_vm_processes_compact [] = []
filter_qemu_vm_processes_compact ([] ∷ gs) = filter_qemu_vm_processes_compact gs
filter_qemu_vm_processes_compact ((f ∷ ps) ∷ gs) =
    if any_qemu f.cmdline
    then (f ∷ ps) ∷ filter_qemu_vm_processes_compact gs
    else filter_qemu_vm_processes_compact gs

pub record VmEnergyUpdate : Type 0 where
  pub vm_name : Text
  pub uj_to_add : ℕ
  pub hmac_signature : List ℕ

pub record VmCgroupSample : Type 0 where
  pub vm_name : Text
  pub cpu_usage_ns : ℕ
  pub timestamp_ns : ℕ

pub record PrevCpuSample : Type 0 where
  pub cpu_usage_ns : ℕ
  pub timestamp_ns : ℕ

-- The arithmetic on f64, as bit patterns: `parse::<f64>().unwrap_or(0.0)`, the percentage of the
-- elapsed time, and the microjoules of a percentage of an energy as u64. The percentage 0.0 is 0.
pub record CpuFloats : Type 0 where
  pub parse_f64 : Text → ℕ
  pub percent : ℕ → ℕ → ℕ
  pub microjoules : ℕ → ℕ → ℕ

pub emit : Option VmEnergyUpdate → List VmEnergyUpdate → List VmEnergyUpdate
emit none us = us
emit (some u) us = u ∷ us

module _ (floats : CpuFloats) where
  -- The body of the loop of `iterate` and of `iterate_compact`, for the first process of a group.
  pub group_update : ℕ → List Text → Text → Outcome (Option VmEnergyUpdate)
  group_update topo_energy cmdline cpu_usage_percentage = do
    vm_name ← get_vm_name_from_cmdline cmdline
    done (
        if length vm_name == 0
        then none
        else some (record {
          vm_name = vm_name;
          uj_to_add = floats.microjoules (floats.parse_f64 cpu_usage_percentage) topo_energy;
          hmac_signature = [];
        }))

  pub iterate_loop : ℕ → List (List ProcessSample) → Outcome (List VmEnergyUpdate)
  iterate_loop topo_energy [] = done []
  iterate_loop topo_energy ([] ∷ gs) = iterate_loop topo_energy gs
  iterate_loop topo_energy ((f ∷ ps) ∷ gs) = do
    u ← group_update topo_energy f.cmdline f.cpu_usage_percentage
    rest ← iterate_loop topo_energy gs
    done (emit u rest)

  pub iterate : Text → List (List ProcessSample) → Outcome (List VmEnergyUpdate)
  iterate topo_energy_value processes =
      iterate_loop (floats.parse_f64 topo_energy_value) (filter_qemu_vm_processes processes)

  pub iterate_loop_compact : ℕ → List (List CompactProcessSample) → Outcome (List VmEnergyUpdate)
  iterate_loop_compact topo_energy [] = done []
  iterate_loop_compact topo_energy ([] ∷ gs) = iterate_loop_compact topo_energy gs
  iterate_loop_compact topo_energy ((f ∷ ps) ∷ gs) = do
    u ← group_update topo_energy f.cmdline f.cpu_usage_percentage
    rest ← iterate_loop_compact topo_energy gs
    done (emit u rest)

  pub iterate_compact : Text → List (List CompactProcessSample) → Outcome (List VmEnergyUpdate)
  iterate_compact topo_energy_value processes =
      iterate_loop_compact (floats.parse_f64 topo_energy_value)
        (filter_qemu_vm_processes_compact processes)

  -- Against the last sample of the same virtual machine. The comparisons of f64 with 0 and with
  -- ten seconds are those of the numbers, since both bounds are exact and the conversion is monotone.
  pub cpu_percent : Option PrevCpuSample → VmCgroupSample → ℕ
  cpu_percent none sample = 0
  cpu_percent (some prev) sample =
      let elapsed_ns = sample.timestamp_ns - prev.timestamp_ns in
      let delta_ns = sample.cpu_usage_ns - prev.cpu_usage_ns in
      if ltb 0 elapsed_ns && leb elapsed_ns 10000000000
      then floats.percent delta_ns elapsed_ns
      else 0

  -- The loop of `iterate_cgroup`, on PREV_CPU_SAMPLES.
  pub cgroup_loop :
      ℕ
      → List (Text × PrevCpuSample)
      → List VmCgroupSample
      → List (Text × PrevCpuSample) × List VmEnergyUpdate
  cgroup_loop topo_energy samples [] = (samples, [])
  cgroup_loop topo_energy samples (sample ∷ vm_samples) =
      let percent = cpu_percent (lookup sample.vm_name samples) sample in
      let samples =
        insert sample.vm_name
          (record { cpu_usage_ns = sample.cpu_usage_ns; timestamp_ns = sample.timestamp_ns })
          samples in
      let (last, updates) = cgroup_loop topo_energy samples vm_samples in
      (
        last,
        record {
          vm_name = sample.vm_name;
          uj_to_add = floats.microjoules percent topo_energy;
          hmac_signature = [];
        }
            ∷ updates,
      )

  pub iterate_cgroup :
      List (Text × PrevCpuSample)
      → Text
      → List VmCgroupSample
      → List (Text × PrevCpuSample) × List VmEnergyUpdate
  iterate_cgroup samples topo_energy_value vm_samples =
      cgroup_loop (floats.parse_f64 topo_energy_value) samples vm_samples
