-- ===== src/Ima/Examples.antt =====
-- The measurement log at concrete inputs, with the toy functions.
use vpma.Prelude.{ℤ, negsuc, ◌⊎◌, ◌===◌, ℕ, ◌≡◌, refl, some, List, [], ◌∷◌, ◌++◌, length, take}
use vpma.Crypto.{zero32}
use vpma.Crypto.Toy.{toy}
use vpma.Text.{
  find_byte, find_loop, is_zero_hash, zero_loop, ct_eq_32, diff_loop, hex_decode, hex_loop,
  hex_pair, hex_val,
}
use vpma.Anchor.{trim, trim_start, trim_cons, trim_end, is_space}
use vpma.Ima.{
  ImaRecord, AttestedImaPrefix, reconciled, refused, extend_pcr, replay_find_prefix, RecordView,
  reconcile_ima_against_pcr10, reconcile_decoded, attested_prefix, replay_loop, collector_name,
}
use vpma.Ima.Log.{
  parsed_log, parse_ima_log, parse_segments, after_line, push_record, parse_line, line_of_fields,
  fields_of, option_then, split_inclusive, push_front, ima_violation_extend, reconcile_parsed,
  verify_ima_log_against_pcr10,
}
use vpma.Ima.Log.Guest.{guest_verify_ima_log, attestation_refused}
use vpma.Ima.Log.Guest.Same.{sizes, guest_verify_ima_log_lem}
use vpma.Ima.Log.Prefix.{verify_ima_log_against_pcr10_lem}
use vpma.Ima.Replay.{IsAttested, reconcile_ima_against_pcr10_sound}

-- Two digests, of which the register has seen the first.
abbrev digests : List (List ℕ)
digests = (1 ∷ []) ∷ (2 ∷ []) ∷ []

abbrev register : List ℕ
register = extend_pcr toy zero32 (1 ∷ [])

register-length : length register ≡ 32
unfolding extend_pcr
register-length = refl

abbrev records : List RecordView
records =
    record { hash = 0x61 ∷ []; path = collector_name }
    ∷ record { hash = 0x62 ∷ []; path = 0x2F ∷ collector_name }
    ∷ record { hash = 0x30 ∷ []; path = collector_name }
    ∷ []

-- A log of two records, and the register in hex with a blank after it.
abbrev log : List ImaRecord
log =
    record { extend_digest = 1 ∷ []; file_hash = []; file_path = []; end_offset = 20 }
    ∷ record { extend_digest = 2 ∷ []; file_hash = []; file_path = []; end_offset = 50 }
    ∷ []

abbrev register_hex : List ℕ
register_hex = toy.hex_encode register ++ (0x20 ∷ [])

abbrev first_record : AttestedImaPrefix
first_record = record { attested = take 1 log; entries_total = 2; attested_bytes = 20 }

log_accepted : reconcile_ima_against_pcr10 toy log register_hex ≡ reconciled first_record
unfolding reconcile_ima_against_pcr10 reconcile_decoded attested_prefix replay_find_prefix
    replay_loop extend_pcr ct_eq_32 diff_loop hex_decode hex_loop hex_pair hex_val trim trim_start
    trim_cons trim_end is_space
log_accepted = refl

reconcile_ima_against_pcr10_sound_example :
    (target : List ℕ) × (hex_decode (trim register_hex) ≡ some target)
    × (length target ≡ 32)
    × IsAttested toy log target first_record
reconcile_ima_against_pcr10_sound_example =
    reconcile_ima_against_pcr10_sound toy log register_hex first_record log_accepted

-- "10 0 ima-ng x y", an empty line and "10 0 ima-ng x z": two violations.
abbrev log_text : List ℕ
log_text =
    49 ∷ 48 ∷ 32 ∷ 48 ∷ 32 ∷ 105 ∷ 109 ∷ 97 ∷ 45 ∷ 110 ∷ 103 ∷ 32 ∷ 120 ∷ 32 ∷ 121 ∷ 10 ∷ 10 ∷ 49
    ∷ 48 ∷ 32 ∷ 48 ∷ 32 ∷ 105 ∷ 109 ∷ 97 ∷ 45 ∷ 110 ∷ 103 ∷ 32 ∷ 120 ∷ 32 ∷ 122 ∷ 10 ∷ []

abbrev violation : List ℕ → ℕ → ImaRecord
violation path n = record {
  extend_digest = ima_violation_extend;
  file_hash = [];
  file_path = path;
  end_offset = n;
}

abbrev violation_register : List ℕ
violation_register = extend_pcr toy zero32 ima_violation_extend

abbrev first_violation : AttestedImaPrefix
first_violation = record {
  attested = violation (121 ∷ []) 16 ∷ [];
  entries_total = 2;
  attested_bytes = 16;
}

text_parsed :
    parse_ima_log toy trim_end log_text
    ≡ parsed_log (violation (121 ∷ []) 16 ∷ violation (122 ∷ []) 33 ∷ [])
unfolding parse_ima_log parse_segments after_line push_record parse_line line_of_fields fields_of
    option_then find_byte find_loop is_zero_hash zero_loop split_inclusive push_front trim_end
    trim_cons is_space ◌===◌
text_parsed = refl

text_accepted :
    verify_ima_log_against_pcr10 toy trim_end log_text (toy.hex_encode violation_register)
    ≡ reconciled first_violation
unfolding verify_ima_log_against_pcr10 reconcile_parsed reconcile_ima_against_pcr10
    reconcile_decoded attested_prefix replay_find_prefix replay_loop extend_pcr ct_eq_32 diff_loop
    hex_decode hex_loop hex_pair hex_val trim trim_start trim_cons trim_end is_space
text_accepted = rw text_parsed refl

verify_ima_log_against_pcr10_lem_example :
    (rs : List ImaRecord) × (target : List ℕ) × (parse_ima_log toy trim_end log_text
      ≡ parsed_log rs)
    × IsAttested toy rs target first_violation
    × (parse_ima_log toy trim_end (take first_violation.attested_bytes log_text)
        ≡ parsed_log first_violation.attested)
verify_ima_log_against_pcr10_lem_example =
    verify_ima_log_against_pcr10_lem toy trim_end log_text (toy.hex_encode violation_register)
      first_violation text_accepted

guest_verify_ima_log_lem_example :
    (guest_verify_ima_log toy trim_end log_text (toy.hex_encode violation_register)
      ≡ sizes toy trim_end
          (verify_ima_log_against_pcr10 toy trim_end log_text (toy.hex_encode violation_register)))
    ⊎ ((guest_verify_ima_log toy trim_end log_text (toy.hex_encode violation_register)
          ≡ attestation_refused (negsuc 4))
        × ((code : ℤ) × (verify_ima_log_against_pcr10 toy trim_end log_text
                (toy.hex_encode violation_register)
              ≡ refused code)))
guest_verify_ima_log_lem_example =
    guest_verify_ima_log_lem toy trim_end log_text (toy.hex_encode violation_register)
