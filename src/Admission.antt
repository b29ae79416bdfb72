-- ===== src/Admission.antt =====
-- The decisions of verified/src/lib.rs that carry no state: `admit_boot` on a guest's measured
-- boot, `decide_resume` on a restart, `admit_measurement_tag` and `choose_collector_hash`.
pub mod Accepts
mod Examples
use vpma.Prelude.{
  ℕ, Bool, true, false, not, ◌&&◌, ◌||◌, Option, none, some, List, ◌==◌, if◌then◌else◌, ℤ, pos,
  negsuc, length,
}
use vpma.Text.{eq_ignore_ascii_case}

pub data Result (A E : Type 0) : Type 0 where
  ok : A → Result A E
  err : E → Result A E

-- The proofs of admission, which no other code can build.
pub data BootAdmitted : Type 0 where
  boot_admitted : BootAdmitted

pub data TagAdmitted : Type 0 where
  tag_admitted : TagAdmitted

pub data BootDenial : Type 0 where
  no_binary_hash_in_log pcr10_zero ima_log_not_reconciled expected_state_unavailable : BootDenial
  binary_hash_mismatch pcr0_mismatch pcr7_mismatch : BootDenial

-- PCR 0, PCR 7 and binary hash; the expected ones; PCR 10 is not zero, the log was reconciled, the
-- expected state is there.
unfoldable pub admit_boot :
    List ℕ
    → List ℕ
    → List ℕ
    → List ℕ
    → List ℕ
    → List ℕ
    → Bool
    → Bool
    → Bool
    → Result BootAdmitted BootDenial
admit_boot pcr0 pcr7 bin exp_pcr0 exp_pcr7 exp_bin pcr10_nonzero ima_log_reconciled have_expected =
    if not pcr10_nonzero
    then err pcr10_zero
    else if not ima_log_reconciled
    then err ima_log_not_reconciled
    else if not have_expected
    then err expected_state_unavailable
    else if length bin == 0
    then err no_binary_hash_in_log
    else if not (eq_ignore_ascii_case bin exp_bin)
    then err binary_hash_mismatch
    else if not (length exp_pcr0 == 0) && not (eq_ignore_ascii_case pcr0 exp_pcr0)
    then err pcr0_mismatch
    else if not (length exp_pcr7 == 0) && not (eq_ignore_ascii_case pcr7 exp_pcr7)
    then err pcr7_mismatch
    else ok boot_admitted

unfoldable pub boot_success_code : BootAdmitted → ℤ
boot_success_code t = pos 0

unfoldable pub boot_denial_code : BootDenial → ℤ
boot_denial_code no_binary_hash_in_log = negsuc 3
boot_denial_code pcr10_zero = negsuc 1
boot_denial_code ima_log_not_reconciled = negsuc 8
boot_denial_code expected_state_unavailable = negsuc 4
boot_denial_code binary_hash_mismatch = negsuc 5
boot_denial_code pcr0_mismatch = negsuc 6
boot_denial_code pcr7_mismatch = negsuc 7

pub data RefusalReason : Type 0 where
  anchor_storage_mismatch missing_anchor missing_blocks : RefusalReason

pub data ResumeDecision : Type 0 where
  fresh : ResumeDecision
  resume : ℕ → ResumeDecision
  refuse : RefusalReason → ResumeDecision

unfoldable pub decide_resume : Bool → ℕ → Bool → ℕ → Bool → ResumeDecision
decide_resume have_anchor anchor_block have_stored stored_block roots_equal =
    if have_anchor && have_stored
    then (if not (anchor_block == stored_block) || not roots_equal
        then refuse anchor_storage_mismatch
        else resume anchor_block)
    else if have_stored
    then refuse missing_anchor
    else if have_anchor
    then refuse missing_blocks
    else fresh

unfoldable pub admit_measurement_tag : ℕ → ℕ → Option TagAdmitted
admit_measurement_tag claimed recomputed = if claimed == recomputed then some tag_admitted else none

pub data CollectorHash : Type 0 where
  exact hashed absent : CollectorHash

unfoldable pub choose_collector_hash : Bool → Bool → CollectorHash
choose_collector_hash have_exact have_hashed =
    if have_exact then exact else if have_hashed then hashed else absent
