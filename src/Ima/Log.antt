-- ===== src/Ima/Log.antt =====
-- The text of the measurement log: `parse_ima_log`, `ima_ng_template_digest_sha256` and
-- `verify_ima_log_against_pcr10` of sgx/src/lib.rs.
pub mod Prefix
pub mod Guest
use vpma.Prelude.{
  ℕ, zero, suc, ◌+◌, ◌-◌, ◌%◌, ◌^◌, Bool, true, false, not, ◌&&◌, Option, none, some, List, [], ◌∷◌,
  ◌++◌, ltb, ◌==◌, ◌===◌, if◌then◌else◌, ℤ, pos, negsuc, length, take, drop, replicate,
}
use vpma.Crypto.{Crypto}
use vpma.Text.{hex_decode, is_zero_hash, find_byte}
use vpma.Encoding.{push_u32_le}
use vpma.Ima.{
  ImaRecord, AttestedImaPrefix, Reconciled, reconciled, refused, reconcile_ima_against_pcr10,
}

unfoldable pub push_front : ℕ → List (List ℕ) → List (List ℕ)
push_front b [] = (b ∷ []) ∷ []
push_front b (s ∷ ss) = (b ∷ s) ∷ ss

-- `str::split_inclusive('\n')`
unfoldable pub split_inclusive : List ℕ → List (List ℕ)
split_inclusive [] = []
split_inclusive (b ∷ bs) =
    let rest = split_inclusive bs in if b == 10 then (b ∷ []) ∷ rest else push_front b rest

pub record LineFields : Type 0 where
  pub pcr : List ℕ
  pub log_digest : List ℕ
  pub template : List ℕ
  pub dfield : List ℕ
  pub fname : List ℕ

unfoldable pub option_then : {A B : Type 0} → Option A → (A → Option B) → Option B
option_then none f = none
option_then (some a) f = f a

-- The four bounds of the loop with `find_byte`, then the five slices.
unfoldable pub fields_of : List ℕ → Option LineFields
fields_of lb = option_then (find_byte lb 32 0) (λ b0. option_then (find_byte lb 32 (b0 + 1)) (λ b1.
    option_then (find_byte lb 32 (b1 + 1)) (λ b2. option_then (find_byte lb 32 (b2 + 1)) (λ b3.
      if ltb (length lb) (b3 + 1)
      then none
      else some (record {
        pcr = take b0 lb;
        log_digest = take (b1 - (b0 + 1)) (drop (b0 + 1) lb);
        template = take (b2 - (b1 + 1)) (drop (b1 + 1) lb);
        dfield = take (b3 - (b2 + 1)) (drop (b2 + 1) lb);
        fname = drop (b3 + 1) lb;
      })))))

-- "10" and "ima-ng"
abbrev pub pcr_10 : List ℕ
pcr_10 = 49 ∷ 48 ∷ []

abbrev pub ima_ng : List ℕ
ima_ng = 105 ∷ 109 ∷ 97 ∷ 45 ∷ 110 ∷ 103 ∷ []

abbrev pub ima_violation_extend : List ℕ
ima_violation_extend = replicate 32 255

-- `dfield.split_once(':')`, the hash after the first colon.
pub hash_after : List ℕ → Option ℕ → List ℕ
hash_after dfield none = dfield
hash_after dfield (some colon) = drop (colon + 1) dfield

-- What a line is: no record, a refusal with its code, or a record without its offset.
pub data ParsedLine : Type 0 where
  skipped : ParsedLine
  bad_line : ℤ → ParsedLine
  record_line : List ℕ → List ℕ → List ℕ → ParsedLine

pub data ParsedLog : Type 0 where
  parsed_log : List ImaRecord → ParsedLog
  log_refused : ℤ → ParsedLog

module _ (c : Crypto) where
  pub template_data : List ℕ → List ℕ → List ℕ → List ℕ
  template_data algo raw fname =
      let d_field = algo ++ (58 ∷ 0 ∷ raw) in
      let n_field = fname ++ (0 ∷ []) in
      push_u32_le [] (length d_field % 2 ^ 32)
      ++ (d_field ++ (push_u32_le [] (length n_field % 2 ^ 32) ++ n_field))

  pub ima_ng_template_digest_sha256 : List ℕ → List ℕ → Option (List ℕ)
  ima_ng_template_digest_sha256 dfield fname = option_then (find_byte dfield 58 0) (λ colon.
      option_then (hex_decode (drop (colon + 1) dfield))
        (λ raw. some (c.sha256 (template_data (take colon dfield) raw fname))))

  pub digest_entry : LineFields → Option (List ℕ) → ParsedLine
  digest_entry f none = bad_line (negsuc 3)
  digest_entry f (some digest) =
      record_line digest (hash_after f.dfield (find_byte f.dfield 58 0)) f.fname

  -- The body of the loop on the fields of a line.
  unfoldable pub line_of_fields : Option LineFields → ParsedLine
  line_of_fields none = bad_line (negsuc 1)
  line_of_fields (some f) =
      if not (f.pcr === pcr_10)
      then skipped
      else if not (f.template === ima_ng)
      then bad_line (negsuc 2)
      else if not (length f.log_digest == 0) && is_zero_hash f.log_digest
      then record_line ima_violation_extend [] f.fname
      else digest_entry f (ima_ng_template_digest_sha256 f.dfield f.fname)

  unfoldable pub parse_line : List ℕ → ParsedLine
  parse_line line = if length line == 0 then skipped else line_of_fields (fields_of line)

unfoldable pub push_record : ImaRecord → ParsedLog → ParsedLog
push_record r (parsed_log rs) = parsed_log (r ∷ rs)
push_record r (log_refused code) = log_refused code

unfoldable pub after_line : ℕ → ParsedLine → ParsedLog → ParsedLog
after_line cursor skipped rest = rest
after_line cursor (bad_line code) rest = log_refused code
after_line cursor (record_line digest hash path) rest =
    push_record
      (record { extend_digest = digest; file_hash = hash; file_path = path; end_offset = cursor })
      rest

-- `trim_end` is the standard library's, whose white space goes past ASCII.
module _ (c : Crypto) (trim_end : List ℕ → List ℕ) where
  unfoldable pub parse_segments : ℕ → List (List ℕ) → ParsedLog
  parse_segments cursor [] = parsed_log []
  parse_segments cursor (segment ∷ rest) =
      after_line (cursor + length segment) (parse_line c (trim_end segment))
        (parse_segments (cursor + length segment) rest)

  unfoldable pub parse_ima_log : List ℕ → ParsedLog
  parse_ima_log ima_log = parse_segments 0 (split_inclusive ima_log)

  unfoldable pub reconcile_parsed : ParsedLog → List ℕ → Reconciled
  reconcile_parsed (parsed_log records) pcr10_hex = reconcile_ima_against_pcr10 c records pcr10_hex
  reconcile_parsed (log_refused code) pcr10_hex = refused code

  -- `verify_ima_log_against_pcr10`, before it keeps only the sizes.
  unfoldable pub verify_ima_log_against_pcr10 : List ℕ → List ℕ → Reconciled
  verify_ima_log_against_pcr10 ima_log pcr10_hex =
      reconcile_parsed (parse_ima_log ima_log) pcr10_hex
