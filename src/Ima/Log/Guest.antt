-- ===== src/Ima/Log/Guest.antt =====
-- `verify_ima_log_against_pcr10` of sgx_vm/src/lib.rs, the guest's own copy, which splits lines in
-- another way and keeps digests and offsets only.
mod Lines
pub mod Same
use vpma.Prelude.{
  ℕ, zero, suc, ◌+◌, ◌%◌, ◌^◌, ◌++◌, Bool, true, false, not, ◌&&◌, Option, none, some, List, [],
  ◌∷◌, ◌==◌, ◌===◌, if◌then◌else◌, ℤ, pos, negsuc, length, get_or,
}
use vpma.Crypto.{Crypto}
use vpma.Text.{hex_decode}
use vpma.Anchor.{trim}
use vpma.Encoding.{push_u32_le}
use vpma.Ima.{AttestedImaPrefix, Reconciled, reconciled, refused, replay_find_prefix}
use vpma.Ima.Log.{LineFields, option_then, pcr_10, ima_ng, ima_violation_extend, split_inclusive}

-- `str::split_once`: what stands before the first separator and after it.
pub split_once : ℕ → List ℕ → Option (List ℕ × List ℕ)
split_once sep [] = none
split_once sep (b ∷ bs) =
    let rest = split_once sep bs in
    if b == sep then some ([], bs) else elim rest [ none ↦ none | some p ↦ some (b ∷ p.0, p.1) ]

-- `line.splitn(5, ' ')` where it has five parts.
pub splitn_5 : List ℕ → Option LineFields
splitn_5 line = option_then (split_once 32 line) (λ p0. option_then (split_once 32 p0.1) (λ p1.
    option_then (split_once 32 p1.1) (λ p2. option_then (split_once 32 p2.1) (λ p3.
      some
        (record { pcr = p0.0; log_digest = p1.0; template = p2.0; dfield = p3.0; fname = p3.1 })))))

pub record ImaAttestation : Type 0 where
  pub entries_attested : ℕ
  pub entries_total : ℕ
  pub attested_bytes : ℕ

pub data Attestation : Type 0 where
  attested : ImaAttestation → Attestation
  attestation_refused : ℤ → Attestation

-- What a line adds: nothing, a refusal, or a digest.
pub data GuestLine : Type 0 where
  no_record : GuestLine
  bad_record : ℤ → GuestLine
  digest_of : List ℕ → GuestLine

pub data Collected : Type 0 where
  collected : List (List ℕ) → List ℕ → Collected
  not_collected : ℤ → Collected

-- log_digest.bytes().all(|b| b == b'0')
pub all_zeros : List ℕ → Bool
all_zeros [] = true
all_zeros (b ∷ bs) = b == 48 && all_zeros bs

pub digest_line : Option (List ℕ) → GuestLine
digest_line none = bad_record (negsuc 3)
digest_line (some d) = digest_of d

pub add_digest : List ℕ → ℕ → Collected → Collected
add_digest d cursor (collected digests offsets) = collected (d ∷ digests) (cursor ∷ offsets)
add_digest d cursor (not_collected code) = not_collected code

pub after_guest_line : ℕ → GuestLine → Collected → Collected
after_guest_line cursor no_record rest = rest
after_guest_line cursor (bad_record code) rest = not_collected code
after_guest_line cursor (digest_of d) rest = add_digest d cursor rest

-- The guest's own `ima_ng_template_digest_sha256`, of the same name as the host's.
pub guest_template_data : List ℕ → List ℕ → List ℕ → List ℕ
guest_template_data algo raw fname =
    let d_field = algo ++ (58 ∷ 0 ∷ raw) in
    let n_field = fname ++ (0 ∷ []) in
    push_u32_le [] (length d_field % 2 ^ 32)
    ++ (d_field ++ (push_u32_le [] (length n_field % 2 ^ 32) ++ n_field))

pub guest_template_digest : Crypto → List ℕ → List ℕ → Option (List ℕ)
guest_template_digest c dfield fname = option_then (split_once 58 dfield) (λ parts.
    option_then (hex_decode parts.1)
      (λ raw. some (c.sha256 (guest_template_data parts.0 raw fname))))

module _ (c : Crypto) (trim_end : List ℕ → List ℕ) where
  pub guest_fields : Option LineFields → GuestLine
  guest_fields none = bad_record (negsuc 1)
  guest_fields (some f) =
      if not (f.pcr === pcr_10)
      then no_record
      else if not (f.template === ima_ng)
      then bad_record (negsuc 2)
      else if not (length f.log_digest == 0) && all_zeros f.log_digest
      then digest_of ima_violation_extend
      else digest_line (guest_template_digest c f.dfield f.fname)

  pub guest_line : List ℕ → GuestLine
  guest_line line = if length line == 0 then no_record else guest_fields (splitn_5 line)

  pub guest_loop : ℕ → List (List ℕ) → Collected
  guest_loop cursor [] = collected [] []
  guest_loop cursor (segment ∷ rest) =
      after_guest_line (cursor + length segment) (guest_line (trim_end segment))
        (guest_loop (cursor + length segment) rest)

  pub guest_attested : List (List ℕ) → List ℕ → Option ℕ → Attestation
  guest_attested digests offsets none = attestation_refused (negsuc 8)
  guest_attested digests offsets (some zero) = attestation_refused (negsuc 0)
  guest_attested digests offsets (some (suc n)) = attested (record {
    entries_attested = suc n;
    entries_total = length digests;
    attested_bytes = get_or offsets n 0;
  })

  pub guest_reconcile : List ℕ → Collected → Attestation
  guest_reconcile target (not_collected code) = attestation_refused code
  guest_reconcile target (collected digests offsets) =
      if length digests == 0
      then attestation_refused (negsuc 0)
      else guest_attested digests offsets (replay_find_prefix c digests target)

  pub guest_decoded : List ℕ → Option (List ℕ) → Attestation
  guest_decoded ima_log none = attestation_refused (negsuc 4)
  guest_decoded ima_log (some target) =
      if length target == 32
      then guest_reconcile target (guest_loop 0 (split_inclusive ima_log))
      else attestation_refused (negsuc 4)

  pub guest_verify_ima_log : List ℕ → List ℕ → Attestation
  guest_verify_ima_log ima_log pcr10_hex = guest_decoded ima_log (hex_decode (trim pcr10_hex))
