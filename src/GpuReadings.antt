-- ===== src/GpuReadings.antt =====
-- The readings of a GPU request of sgx_vm/src/main.rs and what `handle_gpu_db_export` does with one
-- of them: the state that the handler keeps, the parsed request, the registered bindings, the
-- integrity tag, the growth of the counter, and the buckets that share it.
pub mod Baselines
pub mod Weights
pub mod Evident
use vpma.Prelude.{
  ℕ, zero, suc, ◌+◌, ◌-◌, ◌%◌, ◌^◌, Bool, true, false, not, ◌&&◌, ◌||◌, Option, none, some, List,
  [], ◌∷◌, ◌++◌, map, ltb, leb, ◌==◌, if◌then◌else◌, ℤ, pos, negsuc, length, push, take, drop,
  lookup, insert,
}
use vpma.Crypto.{Crypto, zero32}
use vpma.Text.{is_valid_tenant_label, slices_eq}
use vpma.Text.Numbers.{show_u64}
use vpma.Chain.{max_u64, States, sign_energy_chain}
use vpma.Siptag.{siptag}
use vpma.Attribution.{attribute_by_weight}
use vpma.Admission.{
  ResumeDecision, fresh, resume, refuse, decide_resume, TagAdmitted, admit_measurement_tag,
}
use vpma.Anchor.{checkpoint_line, verify_checkpoint_line}
use vpma.Merkle.{EnergyRecord, Outcome, done, panic, ◌>>=◌}
use vpma.Blockchain.{Block, new_block}
use vpma.Export.{Guest, is_negative}
use vpma.Exporter.{Text, starts_with}
use vpma.GpuOwner.{resolve_gpu_owner}

-- u64 of the microjoules of one cycle: 400 W for 10 s.
abbrev pub max_uj_per_cycle : ℕ
max_uj_per_cycle = 4000000000

-- The statics that the CPU's cycle shares, GPU_ENERGY_STATE, CHAIN_RESUME_REFUSED and BINDINGS.
pub record GpuGuest : Type 0 where
  pub guest : Guest
  pub gpu_energy_state : List (Text × ℕ)
  pub chain_resume_refused : Bool
  pub bindings : List (Text × Bool)

pub record GpuProcSample : Type 0 where
  pub pid : ℕ
  pub util : ℕ
  pub cgroup : Text

pub record GpuTagReq : Type 0 where
  pub energy_uj : ℕ
  pub timestamp_ns : ℕ
  pub hash : ℕ

pub record GpuGroup : Type 0 where
  pub gpu_index : ℕ
  pub gpu_uuid : Text
  pub energy_uj : ℕ
  pub procs : List GpuProcSample
  pub tag : Option GpuTagReq

-- The deployment type is read only by the registry's lookup, an argument here.
pub record GpuDbExportReq : Type 0 where
  pub node_id : Text
  pub gpus : List GpuGroup
  pub immudb_addr : Text
  pub tag_key : Option (ℕ × ℕ)
  pub tag_epoch : ℕ

-- What one call meets: the timestamp, whether the registry has an entry under a key, whether the
-- first connection of a flush succeeds and, then, the anchor and the latest block that it finds,
-- and whether the block's connection and insertion succeed. An insertion that fails may have written
-- part of the block; the call then treats it as not stored, and so does this model.
pub record GpuSurroundings : Type 0 where
  pub timestamp : List ℕ
  pub registered : Text → Bool
  pub connects : Bool
  pub anchor_line : Option (List ℕ)
  pub latest_block : Option (ℕ × List ℕ)
  pub insert_succeeds : Bool

-- The status and the results; the message, a text for the log, is left out.
pub record GpuResponse : Type 0 where
  pub status : ℤ
  pub output_data : Option (List (Text × ℕ))

abbrev pub gpu_refusal : ℤ → GpuResponse
gpu_refusal code = record { status = code; output_data = none }

-- The block that a flush has stored and the anchor line that it hands to SET.
abbrev pub Stored : Type 0
Stored = Option (Block × List ℕ)

abbrev pub GpuHandled : Type 0
GpuHandled = GpuGuest × GpuResponse × Stored

-- "gpu_binding_enforced"
abbrev pub binding_enforced_key : Text
binding_enforced_key =
    103 ∷ 112 ∷ 117 ∷ 95 ∷ 98 ∷ 105 ∷ 110 ∷ 100 ∷ 105 ∷ 110 ∷ 103 ∷ 95 ∷ 101 ∷ 110 ∷ 102 ∷ 111 ∷ 114
    ∷ 99 ∷ 101 ∷ 100 ∷ []

-- "gpu_tag_enforced"
abbrev pub tag_enforced_key : Text
tag_enforced_key =
    103 ∷ 112 ∷ 117 ∷ 95 ∷ 116 ∷ 97 ∷ 103 ∷ 95 ∷ 101 ∷ 110 ∷ 102 ∷ 111 ∷ 114 ∷ 99 ∷ 101 ∷ 100 ∷ []

-- "gpu:"
abbrev pub gpu_prefix : Text
gpu_prefix = 103 ∷ 112 ∷ 117 ∷ 58 ∷ []

-- `chars().take(n)`: a continuation byte goes with its character.
unfoldable pub take_chars : ℕ → Text → Text
take_chars n [] = []
take_chars zero (b ∷ bs) = if leb 128 b && ltb b 192 then b ∷ take_chars zero bs else []
take_chars (suc n) (b ∷ bs) = b ∷ take_chars (if leb 128 b && ltb b 192 then suc n else n) bs

unfoldable pub is_alphanumeric : ℕ → Bool
is_alphanumeric b = (leb 48 b && leb b 57) || ((leb 65 b && leb b 90) || (leb 97 b && leb b 122))

unfoldable pub alphanumeric : Text → Text
alphanumeric [] = []
alphanumeric (b ∷ bs) = let rest = alphanumeric bs in if is_alphanumeric b then b ∷ rest else rest

-- `trim_start_matches("GPU-")`, with the bytes of a match that are still to be skipped.
unfoldable pub trim_gpu : ℕ → Text → Text
trim_gpu skip [] = []
trim_gpu (suc skip) (b ∷ bs) = trim_gpu skip bs
trim_gpu zero (b ∷ bs) =
    let rest = trim_gpu 3 bs in
    if starts_with (b ∷ bs) (71 ∷ 80 ∷ 85 ∷ 45 ∷ []) then rest else b ∷ bs

unfoldable pub uuid_key : GpuGroup → Text
uuid_key gpu = take_chars 48 gpu.gpu_uuid

unfoldable pub uuid_tag : GpuGroup → Text
uuid_tag gpu = take 8 (alphanumeric (trim_gpu 0 (uuid_key gpu)))

-- format!("{}:idx{}:{}", …)
unfoldable pub state_key : Text → GpuGroup → Text
state_key node_id gpu =
    node_id ++ (58 ∷ 105 ∷ 100 ∷ 120 ∷ (show_u64 gpu.gpu_index ++ (58 ∷ uuid_key gpu)))

-- "@gpu{}:{}"
unfoldable pub gpu_suffix : GpuGroup → Text
gpu_suffix gpu = 64 ∷ 103 ∷ 112 ∷ 117 ∷ (show_u64 gpu.gpu_index ++ (58 ∷ uuid_tag gpu))

-- "pid:{}@"
unfoldable pub pid_prefix : ℕ → Text
pid_prefix pid = 112 ∷ 105 ∷ 100 ∷ 58 ∷ (show_u64 pid ++ (64 ∷ []))

-- "idle" and "unattributed"
unfoldable pub kind_of : Bool → Text
kind_of true = 105 ∷ 100 ∷ 108 ∷ 101 ∷ []
kind_of false = 117 ∷ 110 ∷ 97 ∷ 116 ∷ 116 ∷ 114 ∷ 105 ∷ 98 ∷ 117 ∷ 116 ∷ 101 ∷ 100 ∷ []

unfoldable pub elem : ℕ → List ℕ → Bool
elem x [] = false
elem x (y ∷ ys) = y == x || elem x ys

-- The loop over `seen`: whether a gpu_index comes twice.
unfoldable pub has_duplicate : List ℕ → List GpuGroup → Bool
has_duplicate seen [] = false
has_duplicate seen (gpu ∷ gpus) =
    elem gpu.gpu_index seen || has_duplicate (push seen gpu.gpu_index) gpus

-- The closure `cached_or`.
unfoldable pub cached_or :
    (Text → Bool) → Text → List (Text × Bool) → Option Bool → List (Text × Bool) × Bool
cached_or f key bindings (some v) = (bindings, v)
cached_or f key bindings none = let v = f key in (insert key v bindings, v)

unfoldable pub cached : (Text → Bool) → List (Text × Bool) → Text → List (Text × Bool) × Bool
cached f bindings key = cached_or f key bindings (lookup key bindings)

-- The loop over the bindings of the GPUs: the cache, and whether all are admitted.
unfoldable pub binding_loop :
    (Text → Bool) → Bool → List (Text × Bool) → List GpuGroup → List (Text × Bool) × Bool
binding_loop f enforced bindings [] = (bindings, true)
binding_loop f enforced bindings (gpu ∷ gpus) =
    let (seen, bound) = cached f bindings (gpu_prefix ++ uuid_key gpu) in
    let rest = binding_loop f enforced seen gpus in
    if not bound && enforced then (seen, false) else rest

unfoldable pub is_admitted : Option TagAdmitted → Bool
is_admitted none = false
is_admitted (some t) = true

unfoldable pub expected_tag : GpuDbExportReq → GpuGroup → GpuTagReq → ℕ → ℕ → ℕ
expected_tag req gpu t k0 k1 = siptag k0 k1 (record {
  energy_uj = t.energy_uj;
  timestamp_ns = t.timestamp_ns;
  unit_id = gpu.gpu_index;
  domain_id = 0x8000;
  version = 1;
  producer = 3;
  key_epoch = req.tag_epoch;
})

-- The tests on one reading's tag: the status with which the handler returns, if it does.
unfoldable pub check_tag_of : GpuDbExportReq → GpuGroup → GpuTagReq → Option (ℕ × ℕ) → Option ℤ
check_tag_of req gpu t none = some (negsuc 126)
check_tag_of req gpu t (some (k0, k1)) =
    let tag_ok = is_admitted (admit_measurement_tag t.hash (expected_tag req gpu t k0 k1)) in
    if not tag_ok || not (t.energy_uj == gpu.energy_uj) then some (negsuc 101) else none

unfoldable pub check_tag : GpuDbExportReq → Bool → GpuGroup → Option GpuTagReq → Option ℤ
check_tag req tag_enforced gpu none = if tag_enforced then some (negsuc 104) else none
check_tag req tag_enforced gpu (some t) = check_tag_of req gpu t req.tag_key

-- The delta and the new baseline, from the last baseline and the reading.
unfoldable pub delta_of : Option ℕ → ℕ → ℕ
delta_of none energy_uj = 0
delta_of (some last) energy_uj = if leb last energy_uj then energy_uj - last else 0

unfoldable pub baseline_of : Option ℕ → ℕ → ℕ
baseline_of none energy_uj = energy_uj
baseline_of (some last) energy_uj = if ltb last energy_uj then energy_uj else last

unfoldable pub saturate_add : ℕ → ℕ → ℕ
saturate_add a b = if ltb max_u64 (a + b) then max_u64 else a + b

-- (label, util, pid)
pub record GpuBucket : Type 0 where
  pub label : Text
  pub util : ℕ
  pub pid : ℕ

unfoldable pub proc_buckets : Text → GpuGroup → List GpuProcSample → List GpuBucket
proc_buckets node_id gpu [] = []
proc_buckets node_id gpu (p ∷ ps) =
    let rest = proc_buckets node_id gpu ps in
    if p.util == 0
    then rest
    else record {
      label = pid_prefix p.pid ++ (resolve_gpu_owner p.cgroup node_id ++ gpu_suffix gpu);
      util = if ltb 100 p.util then 100 else p.util;
      pid = p.pid;
    }
      ∷ rest

-- The sum of the weights, in u64.
unfoldable pub util_loop : ℕ → List GpuBucket → ℕ
util_loop total [] = total
util_loop total (b ∷ bs) = util_loop ((total + b.util) % 2 ^ 64) bs

unfoldable pub gpu_buckets : Text → GpuGroup → ℕ → List GpuBucket
gpu_buckets node_id gpu delta =
    let bracketed = leb delta max_uj_per_cycle in
    let buckets = if bracketed then proc_buckets node_id gpu gpu.procs else [] in
    if util_loop 0 buckets == 0
    then push buckets (record {
      label = pid_prefix 0 ++ (kind_of bracketed ++ gpu_suffix gpu);
      util = 1;
      pid = 0;
    })
    else buckets
