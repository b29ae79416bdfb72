-- ===== src/GpuOwner/Forms.antt =====
-- What `resolve_gpu_owner` can answer.
use vpma.Prelude.{
  ℕ, zero, suc, length-take, if◌then◌else◌, ◌≤◌, ◌≡◌, inl, inr, Bool, true, false, ◌&&◌, Option,
  none, some, List, [], ◌∷◌, ◌++◌, length, take, leb, ◌===◌, arith, Bool-cases, All,
}
use vpma.Text.{is_valid_tenant_label}
use vpma.Exporter.{Text, split}
use vpma.GpuOwner.{
  vm_prefix, ctr_prefix, node_prefix, lines, rsplit_next, is_hexdigit, all_hexdigit,
  container_in_segment, or_else, container_in_segments, container_in_lines,
  extract_container_id_from_cgroup, if_label, vm_of_scope, vm_in_segment, vm_in_segments,
  from_second, vm_in_lines, machine_slice, extract_vm_name_from_cgroup, owner_of, resolve_gpu_owner,
}

abbrev Holds : (Text → Type 0) → Option Text → Type 0
Holds P none = Unit {0}
Holds P (some t) = P t

or_else-Holds :
    (P : Text → Type 0) (a b : Option Text) → Holds P a → Holds P b → Holds P (or_else a b)
unfolding or_else
or_else-Holds P none b h k = k
or_else-Holds P (some t) b h k = h

abbrev IsLabel : Text → Type 0
IsLabel name = is_valid_tenant_label name ≡ true

-- Twelve hexadecimal digits.
abbrev pub IsContainerId : Text → Type 0
IsContainerId id = (length id ≡ 12) × All (λ b. is_hexdigit b ≡ true) id

if_label-Holds : (o : Option Text) → Holds IsLabel (if_label o)
unfolding if_label
if_label-Holds none = tt
if_label-Holds (some name) = elim (Bool-cases (is_valid_tenant_label name)) [
  | inl t ↦ rw t t
  | inr f ↦ rw f tt
]

vm_of_scope-Holds : (o : Option Text) → Holds IsLabel (vm_of_scope o)
unfolding vm_of_scope
vm_of_scope-Holds none = tt
vm_of_scope-Holds (some s) = if_label-Holds _

-- What a segment finds is a label, whether it replaces what was found or not.
next-Holds :
    (t : Bool) (seg : Text) (found : Option Text)
    → Holds IsLabel found
    → Holds IsLabel (if t then or_else (vm_in_segment seg) found else found)
unfolding vm_in_segment
next-Holds true seg found h =
    or_else-Holds IsLabel (vm_in_segment seg) found (vm_of_scope-Holds _) h
next-Holds false seg found h = h

vm_in_segments-Holds :
    (segs : List Text) (before : Text) (found : Option Text)
    → Holds IsLabel found
    → Holds IsLabel (vm_in_segments found before segs)
unfolding vm_in_segments
vm_in_segments-Holds [] before found h = h
vm_in_segments-Holds (seg ∷ segs) before found h =
    vm_in_segments-Holds segs seg _ (next-Holds (before === machine_slice) seg found h)

from_second-Holds :
    (segs : List Text) (found : Option Text)
    → Holds IsLabel found
    → Holds IsLabel (from_second found segs)
unfolding from_second
from_second-Holds [] found h = h
from_second-Holds (seg ∷ segs) found h = vm_in_segments-Holds segs seg found h

vm_in_lines-Holds :
    (ls : List Text) (found : Option Text)
    → Holds IsLabel found
    → Holds IsLabel (vm_in_lines found ls)
unfolding vm_in_lines
vm_in_lines-Holds [] found h = h
vm_in_lines-Holds (line ∷ rest) found h =
    vm_in_lines-Holds rest _ (from_second-Holds (split 47 (rsplit_next 58 line)) found h)

all_hexdigit-All : (s : Text) → all_hexdigit s ≡ true → All (λ b. is_hexdigit b ≡ true) s
unfolding all_hexdigit
all_hexdigit-All [] h = tt
all_hexdigit-All (b ∷ bs) h = elim (Bool-cases (is_hexdigit b)) [
  | inl t ↦ (t, all_hexdigit-All bs (rw t at h))
  | inr f ↦ let bad : false ≡ true = (rw f at h) in absurd cc
]

All-take :
    (n : ℕ) (s : Text)
    → All (λ b. is_hexdigit b ≡ true) s
    → All (λ b. is_hexdigit b ≡ true) (take n s)
All-take zero s h = tt
All-take (suc n) [] h = tt
All-take (suc n) (b ∷ bs) h = (h.0, All-take n bs h.1)

cut-Holds :
    (m : ℕ) (s : Text) (o : Option Text)
    → 12 ≤ m
    → Holds IsContainerId o
    → Holds IsContainerId (if leb m (length s) && all_hexdigit s then some (take 12 s) else o)
cut-Holds m s o long h = elim (Bool-cases (leb m (length s))) [
  | inl t ↦ elim (Bool-cases (all_hexdigit s)) [
    | inl d ↦
        let enough : 12 ≤ length s = ground (arith, t, long) in
        rw (t, d) (omega (arith, length-take 12 s, enough), All-take 12 s (all_hexdigit-All s d))
    | inr e ↦ rw (t, e) h
  ]
  | inr f ↦ rw f h
]

container_in_segment-Holds : (seg : Text) → Holds IsContainerId (container_in_segment seg)
unfolding container_in_segment
container_in_segment-Holds seg =
    cut-Holds 12 _ _ (omega arith) (cut-Holds 32 seg none (omega arith) tt)

container_in_segments-Holds : (segs : List Text) → Holds IsContainerId (container_in_segments segs)
unfolding container_in_segments
container_in_segments-Holds [] = tt
container_in_segments-Holds (seg ∷ segs) =
    or_else-Holds IsContainerId (container_in_segment seg) _ (container_in_segment-Holds seg)
      (container_in_segments-Holds segs)

container_in_lines-Holds : (ls : List Text) → Holds IsContainerId (container_in_lines ls)
unfolding container_in_lines
container_in_lines-Holds [] = tt
container_in_lines-Holds (line ∷ rest) =
    or_else-Holds IsContainerId (container_in_segments (split 47 (rsplit_next 58 line))) _
      (container_in_segments-Holds _) (container_in_lines-Holds rest)

-- A virtual machine by a label, a container by an id, or the node.
pub data Owner (node_id : Text) : Text → Type 0 where
  vm : (name : Text) → is_valid_tenant_label name ≡ true → Owner node_id (vm_prefix ++ name)
  container : (id : Text) → IsContainerId id → Owner node_id (ctr_prefix ++ id)
  node : Owner node_id (node_prefix ++ node_id)

owner_of-Owner :
    (a b : Option Text) (node_id : Text)
    → Holds IsLabel a
    → Holds IsContainerId b
    → Owner node_id (owner_of a b node_id)
unfolding owner_of
owner_of-Owner (some name) b node_id h k = vm name h
owner_of-Owner none (some id) node_id h k = container id k
owner_of-Owner none none node_id h k = node

-- Whatever the content of a cgroup file, a process belongs to a
-- virtual machine whose name is a valid tenant label, to a container by twelve hexadecimal digits,
-- or to the node itself. No other text of the file gets into the owner.
pub resolve_gpu_owner-Owner :
    (cgroup node_id : Text) → Owner node_id (resolve_gpu_owner cgroup node_id)
unfolding resolve_gpu_owner extract_vm_name_from_cgroup extract_container_id_from_cgroup
resolve_gpu_owner-Owner cgroup node_id =
    owner_of-Owner _ _ node_id (vm_in_lines-Holds (lines cgroup) none tt)
      (container_in_lines-Holds (lines cgroup))
