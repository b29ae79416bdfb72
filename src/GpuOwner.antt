-- ===== src/GpuOwner.antt =====
-- To whom a process on a GPU belongs: `resolve_gpu_owner` of sgx_vm/src/main.rs and the two
-- functions that read the content of a cgroup file. A string is its list of bytes; where the code
-- goes by characters, a character is a byte and the continuation bytes after it.
pub mod Forms
mod Examples
use vpma.Prelude.{
  ℕ, zero, suc, ◌+◌, ◌-◌, Bool, true, false, not, ◌&&◌, ◌||◌, Option, none, some, List, [], ◌∷◌,
  ◌++◌, length, take, drop, ltb, leb, ◌==◌, ◌===◌, if◌then◌else◌,
}
use vpma.Text.{is_valid_tenant_label}
use vpma.Exporter.{Text, starts_with, split_first, split}

-- "machine.slice"
abbrev machine_slice : Text
machine_slice = 109 ∷ 97 ∷ 99 ∷ 104 ∷ 105 ∷ 110 ∷ 101 ∷ 46 ∷ 115 ∷ 108 ∷ 105 ∷ 99 ∷ 101 ∷ []

-- "machine-qemu-"
abbrev machine_qemu : Text
machine_qemu = 109 ∷ 97 ∷ 99 ∷ 104 ∷ 105 ∷ 110 ∷ 101 ∷ 45 ∷ 113 ∷ 101 ∷ 109 ∷ 117 ∷ 45 ∷ []

-- "vm-"
abbrev vm_dash : Text
vm_dash = 118 ∷ 109 ∷ 45 ∷ []

-- ".scope"
abbrev scope_suffix : Text
scope_suffix = 46 ∷ 115 ∷ 99 ∷ 111 ∷ 112 ∷ 101 ∷ []

-- "\\x2d"
abbrev escaped_dash : Text
escaped_dash = 92 ∷ 120 ∷ 50 ∷ 100 ∷ []

-- "vm:", "ctr:" and "node:"
abbrev pub vm_prefix : Text
vm_prefix = 118 ∷ 109 ∷ 58 ∷ []

abbrev pub ctr_prefix : Text
ctr_prefix = 99 ∷ 116 ∷ 114 ∷ 58 ∷ []

abbrev pub node_prefix : Text
node_prefix = 110 ∷ 111 ∷ 100 ∷ 101 ∷ 58 ∷ []

-- A line that a line feed ends, without a carriage return before it.
strip_cr : Text → Text
strip_cr [] = []
strip_cr (b ∷ []) = if b == 13 then [] else b ∷ []
strip_cr (b ∷ c ∷ cs) = b ∷ strip_cr (c ∷ cs)

lines_of : Text → List Text → List Text
lines_of p [] = if length p == 0 then [] else p ∷ []
lines_of p (q ∷ qs) = strip_cr p ∷ lines_of q qs

-- `str::lines`
pub lines : Text → List Text
lines s = let parts = split_first 10 s in lines_of parts.0 parts.1

last_of : Text → List Text → Text
last_of p [] = p
last_of p (q ∷ qs) = last_of q qs

-- `str::rsplit` on one character, then `.next()`: what follows the last one.
pub rsplit_next : ℕ → Text → Text
rsplit_next d s = let parts = split_first d s in last_of parts.0 parts.1

pub strip_suffix : Text → Text → Option Text
strip_suffix s suffix =
    let n = length s - length suffix in
    if leb (length suffix) (length s) && drop n s === suffix then some (take n s) else none

pub strip_prefix : Text → Text → Option Text
strip_prefix s prefix = if starts_with s prefix then some (drop (length prefix) s) else none

pub or_whole : Option Text → Text → Text
or_whole none s = s
or_whole (some t) s = t

-- char::is_ascii_hexdigit
unfoldable pub is_hexdigit : ℕ → Bool
is_hexdigit b = (leb 48 b && leb b 57) || ((leb 65 b && leb b 70) || (leb 97 b && leb b 102))

pub all_hexdigit : Text → Bool
all_hexdigit [] = true
all_hexdigit (b ∷ bs) = is_hexdigit b && all_hexdigit bs

-- The two tests on a segment of the path. A segment of hexadecimal digits has one byte each.
pub container_in_segment : Text → Option Text
container_in_segment seg =
    let candidate = rsplit_next 45 (or_whole (strip_suffix seg scope_suffix) seg) in
    if leb 12 (length candidate) && all_hexdigit candidate
    then some (take 12 candidate)
    else if leb 32 (length seg) && all_hexdigit seg
    then some (take 12 seg)
    else none

pub or_else : Option Text → Option Text → Option Text
or_else none later = later
or_else (some t) later = some t

pub container_in_segments : List Text → Option Text
container_in_segments [] = none
container_in_segments (seg ∷ segs) = or_else (container_in_segment seg) (container_in_segments segs)

pub container_in_lines : List Text → Option Text
container_in_lines [] = none
container_in_lines (line ∷ rest) =
    or_else (container_in_segments (split 47 (rsplit_next 58 line))) (container_in_lines rest)

pub extract_container_id_from_cgroup : Text → Option Text
extract_container_id_from_cgroup content = container_in_lines (lines content)

-- seg.replace("\\x2d", "-"), with the bytes of a match that are still to be skipped.
pub replace_x2d : ℕ → Text → Text
replace_x2d skip [] = []
replace_x2d (suc skip) (b ∷ bs) = replace_x2d skip bs
replace_x2d zero (b ∷ bs) =
    let matched = starts_with (b ∷ bs) escaped_dash in
    let rest = replace_x2d (if matched then 3 else 0) bs in (if matched then 45 else b) ∷ rest

-- rest.splitn(2, '-').nth(1).or_whole(rest)
after_dash : Text → Text × List Text → Text
after_dash rest (p, []) = rest
after_dash rest (p, q ∷ qs) = drop (length p + 1) rest

name_of_vm_scope : Option Text → Option Text
name_of_vm_scope none = none
name_of_vm_scope (some rest) = some rest

name_of_scope : Option Text → Option Text → Option Text
name_of_scope none vm = name_of_vm_scope vm
name_of_scope (some rest) vm = some (after_dash rest (split_first 45 rest))

if_label : Option Text → Option Text
if_label none = none
if_label (some name) = if is_valid_tenant_label name then some name else none

vm_of_scope : Option Text → Option Text
vm_of_scope none = none
vm_of_scope (some s) =
    if_label (name_of_scope (strip_prefix s machine_qemu) (strip_prefix s vm_dash))

-- The body of the inner loop, for a segment whose predecessor is "machine.slice".
pub vm_in_segment : Text → Option Text
vm_in_segment seg = vm_of_scope (strip_suffix (replace_x2d 0 seg) scope_suffix)

-- The inner loop: the segment before, the segments from it on, and what has been found.
pub vm_in_segments : Option Text → Text → List Text → Option Text
vm_in_segments found before [] = found
vm_in_segments found before (seg ∷ segs) =
    vm_in_segments (if before === machine_slice then or_else (vm_in_segment seg) found else found)
      seg segs

from_second : Option Text → List Text → Option Text
from_second found [] = found
from_second found (seg ∷ segs) = vm_in_segments found seg segs

pub vm_in_lines : Option Text → List Text → Option Text
vm_in_lines found [] = found
vm_in_lines found (line ∷ rest) =
    vm_in_lines (from_second found (split 47 (rsplit_next 58 line))) rest

pub extract_vm_name_from_cgroup : Text → Option Text
extract_vm_name_from_cgroup content = vm_in_lines none (lines content)

owner_of : Option Text → Option Text → Text → Text
owner_of (some vm) ctr node_id = vm_prefix ++ vm
owner_of none (some ctr) node_id = ctr_prefix ++ ctr
owner_of none none node_id = node_prefix ++ node_id

pub resolve_gpu_owner : Text → Text → Text
resolve_gpu_owner cgroup node_id =
    owner_of (extract_vm_name_from_cgroup cgroup) (extract_container_id_from_cgroup cgroup) node_id
