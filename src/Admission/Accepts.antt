-- ===== src/Admission/Accepts.antt =====
-- What the decisions accept, and when they refuse.
use vpma.Prelude.{
  ℕ, ◌<◌, ◌≡◌, ◌≢◌, refl, ◌↔◌, ◌⊎◌, Bool, true, false, List, map, arith, IsNegative, length,
}
use vpma.Text.{ascii_lower}
use vpma.Text.Tests.{eq_ignore_ascii_case_iff}
use vpma.Admission.{
  ok, boot_admitted, BootDenial, admit_boot, no_binary_hash_in_log, pcr10_zero,
  ima_log_not_reconciled, expected_state_unavailable, binary_hash_mismatch, pcr0_mismatch,
  pcr7_mismatch, boot_denial_code, anchor_storage_mismatch, missing_anchor, missing_blocks,
  ResumeDecision, fresh, resume, refuse, decide_resume,
}

-- One hexadecimal text in two spellings: `spec_hex_eq`.
abbrev pub HexEq : List ℕ → List ℕ → Type 0
HexEq a b = map ascii_lower a ≡ map ascii_lower b

-- `spec_boot_admissible`
abbrev pub BootAdmissible :
    List ℕ → List ℕ → List ℕ → List ℕ → List ℕ → List ℕ → Bool → Bool → Bool → Type 0
BootAdmissible pcr0 pcr7 bin exp_pcr0 exp_pcr7 exp_bin pcr10_nonzero ima_log_reconciled
      have_expected =
    (0 < length bin)
    × (pcr10_nonzero ≡ true)
    × (ima_log_reconciled ≡ true)
    × (have_expected ≡ true)
    × HexEq bin exp_bin
    × ((length exp_pcr0 ≡ 0) ⊎ HexEq pcr0 exp_pcr0)
    × ((length exp_pcr7 ≡ 0) ⊎ HexEq pcr7 exp_pcr7)

-- A boot is admitted exactly when the log has a binary hash, PCR 10 is not zero, the log was
-- reconciled with it, an expected state is known, the hash is the expected one up to case, and so
-- is each of PCR 0 and PCR 7 for which one is expected.
pub admit_boot_iff :
    (pcr0 pcr7 bin exp_pcr0 exp_pcr7 exp_bin : List ℕ)
    (pcr10_nonzero ima_log_reconciled have_expected : Bool)
    → (admit_boot pcr0 pcr7 bin exp_pcr0 exp_pcr7 exp_bin pcr10_nonzero ima_log_reconciled
          have_expected
        ≡ ok boot_admitted)
      ↔ BootAdmissible pcr0 pcr7 bin exp_pcr0 exp_pcr7 exp_bin pcr10_nonzero ima_log_reconciled
          have_expected
unfolding admit_boot
admit_boot_iff pcr0 pcr7 bin exp_pcr0 exp_pcr7 exp_bin n r e =
    let b = eq_ignore_ascii_case_iff bin exp_bin in
    let p0 = eq_ignore_ascii_case_iff pcr0 exp_pcr0 in
    let p7 = eq_ignore_ascii_case_iff pcr7 exp_pcr7 in
    (λ h. ground (arith, b.0, p0.0, p7.0), λ h. ground (arith, b.1, p0.1, p7.1))

pub boot_denial_code-IsNegative : (d : BootDenial) → IsNegative (boot_denial_code d)
unfolding boot_denial_code
boot_denial_code-IsNegative no_binary_hash_in_log = tt
boot_denial_code-IsNegative pcr10_zero = tt
boot_denial_code-IsNegative ima_log_not_reconciled = tt
boot_denial_code-IsNegative expected_state_unavailable = tt
boot_denial_code-IsNegative binary_hash_mismatch = tt
boot_denial_code-IsNegative pcr0_mismatch = tt
boot_denial_code-IsNegative pcr7_mismatch = tt

-- What each decision on a restart says of the anchor and the stored blocks.
abbrev pub Justified : Bool → ℕ → Bool → ℕ → Bool → ResumeDecision → Type 0
Justified a ab s sb eq fresh = (a ≡ false) × (s ≡ false)
Justified a ab s sb eq (resume n) = (a ≡ true) × (s ≡ true) × (ab ≡ sb) × (eq ≡ true) × (n ≡ ab)
Justified a ab s sb eq (refuse anchor_storage_mismatch) =
    (a ≡ true) × (s ≡ true) × ((ab ≢ sb) ⊎ (eq ≡ false))
Justified a ab s sb eq (refuse missing_anchor) = (a ≡ false) × (s ≡ true)
Justified a ab s sb eq (refuse missing_blocks) = (a ≡ true) × (s ≡ false)

-- The collector starts afresh only where neither an anchor nor stored blocks exist, resumes only at
-- the block on which both agree with equal roots, and each refusal names what is wrong: the two
-- differ, the anchor is missing, or the blocks are.
pub decide_resume-Justified :
    (have_anchor : Bool) (anchor_block : ℕ) (have_stored : Bool) (stored_block : ℕ)
    (roots_equal : Bool)
    → Justified have_anchor anchor_block have_stored stored_block roots_equal
        (decide_resume have_anchor anchor_block have_stored stored_block roots_equal)
decide_resume-Justified a ab s sb eq = justify (decide_resume a ab s sb eq) refl
  where
    justify : (d : ResumeDecision) → decide_resume a ab s sb eq ≡ d → Justified a ab s sb eq d
    justify fresh h = unfold decide_resume in ground arith
    justify (resume n) h = unfold decide_resume in ground arith
    justify (refuse anchor_storage_mismatch) h = unfold decide_resume in ground arith
    justify (refuse missing_anchor) h = unfold decide_resume in ground arith
    justify (refuse missing_blocks) h = unfold decide_resume in ground arith
