-- ===== src/Exporter/Cgroup.antt =====
-- The samples of control groups that an earlier call has left.
use vpma.Prelude.{
  ℕ, ◌-◌, ◌≡◌, ◌≢◌, refl, sym, ap, ◌∙◌, false, some, List, [], ◌∷◌, arith, ltb, All, lookup, insert,
  lookup-insert_same, lookup-insert_other,
}
use vpma.Exporter.{
  Text, PrevCpuSample, VmCgroupSample, CpuFloats, cpu_percent, cgroup_loop, iterate_cgroup,
}

abbrev pub Samples : Type 0
Samples = List (Text × PrevCpuSample)

abbrev kept_sample : VmCgroupSample → PrevCpuSample
kept_sample s = record { cpu_usage_ns = s.cpu_usage_ns; timestamp_ns = s.timestamp_ns }

abbrev store : VmCgroupSample → Samples → Samples
store s samples = insert s.vm_name (kept_sample s) samples

-- No two samples are of one virtual machine.
abbrev pub Distinct : List VmCgroupSample → Type 0
Distinct [] = Unit
Distinct (s ∷ ss) = All (λ t. t.vm_name ≢ s.vm_name) ss × Distinct ss

loop_keeps :
    (floats : CpuFloats) (topo : ℕ) (name : Text) (samples : Samples) (ss : List VmCgroupSample)
    → All (λ t. t.vm_name ≢ name) ss
    → lookup name (cgroup_loop floats topo samples ss).0 ≡ lookup name samples
unfolding cgroup_loop
loop_keeps floats topo name samples [] others = refl
loop_keeps floats topo name samples (s ∷ ss) others =
    loop_keeps floats topo name (store s samples) ss others.1
    ∙ lookup-insert_other s.vm_name name _ samples (λ e. others.0 (sym e))

-- Each sample is the last one stored for its virtual machine.
loop_stores :
    (floats : CpuFloats) (topo : ℕ) (samples : Samples) (ss : List VmCgroupSample)
    → Distinct ss
    → All (λ s. lookup s.vm_name (cgroup_loop floats topo samples ss).0 ≡ some (kept_sample s)) ss
unfolding cgroup_loop
loop_stores floats topo samples [] distinct = tt
loop_stores floats topo samples (s ∷ ss) distinct = (
  loop_keeps floats topo s.vm_name (store s samples) ss distinct.0
      ∙ lookup-insert_same s.vm_name _ samples,
  loop_stores floats topo (store s samples) ss distinct.1,
)

seen_again :
    (floats : CpuFloats) (s : VmCgroupSample) → cpu_percent floats (some (kept_sample s)) s ≡ 0
unfolding cpu_percent
seen_again floats s =
    let still : ltb 0 (s.timestamp_ns - s.timestamp_ns) ≡ false = ground arith in rw still refl

still_stored :
    (s : VmCgroupSample) (samples : Samples) (ss : List VmCgroupSample)
    → All (λ t. t.vm_name ≢ s.vm_name) ss
    → All (λ t. lookup t.vm_name samples ≡ some (kept_sample t)) ss
    → All (λ t. lookup t.vm_name (store s samples) ≡ some (kept_sample t)) ss
still_stored s samples [] others stored = tt
still_stored s samples (t ∷ ss) others stored = (
  lookup-insert_other s.vm_name t.vm_name _ samples others.0 ∙ stored.0,
  still_stored s samples ss others.1 stored.1,
)

-- The updates of samples that are all stored already.
loop_again :
    (floats : CpuFloats) (topo : ℕ) (samples : Samples) (ss : List VmCgroupSample)
    → floats.microjoules 0 topo ≡ 0
    → Distinct ss
    → All (λ s. lookup s.vm_name samples ≡ some (kept_sample s)) ss
    → All (λ u. u.uj_to_add ≡ 0) (cgroup_loop floats topo samples ss).1
unfolding cgroup_loop
loop_again floats topo samples [] idle distinct stored = tt
loop_again floats topo samples (s ∷ ss) idle distinct stored = (
  ap (λ p. floats.microjoules p topo) (rw (stored.0) (seen_again floats s)) ∙ idle,
  loop_again floats topo (store s samples) ss idle distinct.1
      (still_stored s samples ss distinct.0 stored.1),
)

-- Energy is not charged twice for one sample: for samples of distinct virtual machines, offered
-- again right after a call that took them, whatever was stored before and whatever the energies,
-- every update is of 0 microjoules, as long as the percentage 0 makes 0 microjoules.
pub iterate_cgroup-again :
    (floats : CpuFloats) (samples : Samples) (topo topo' : Text) (ss : List VmCgroupSample)
    → floats.microjoules 0 (floats.parse_f64 topo') ≡ 0
    → Distinct ss
    → All
        (λ u. u.uj_to_add ≡ 0)
        (iterate_cgroup floats (iterate_cgroup floats samples topo ss).0 topo' ss).1
unfolding iterate_cgroup
iterate_cgroup-again floats samples topo topo' ss idle distinct =
    loop_again floats (floats.parse_f64 topo') _ ss idle distinct
      (loop_stores floats (floats.parse_f64 topo) samples ss distinct)
