-- ===== src/Ima/Log/Guest/Same.antt =====
-- The guest's copy of the log check accepts what the host's does.
use vpma.Prelude.{
  ℕ, zero, suc, ◌+◌, ◌≤◌, ◌≡◌, refl, sym, ap, ap₂, subst, ◌∙◌, ◌⊎◌, inl, inr, true, false, Option,
  none, some, List, [], ◌∷◌, map, arith, ◌==◌, ==_iff, ℤ, negsuc, length, length-take, length-map,
  take, get_or, Bool-cases, Option-cases,
}
use vpma.Crypto.{Crypto, zero32}
use vpma.Ima.Replay.{FirstPrefix, replay_find_prefix_lem}
use vpma.Text.{hex_decode}
use vpma.Anchor.{trim}
use vpma.Ima.{
  ImaRecord, Reconciled, reconciled, refused, replay_find_prefix, attested_prefix,
  reconcile_decoded, reconcile_ima_against_pcr10,
}
use vpma.Ima.Log.Guest.{
  Attestation, attested, attestation_refused, after_guest_line, guest_fields, guest_line,
  guest_loop, guest_attested, guest_reconcile, guest_decoded, guest_verify_ima_log,
}
use vpma.Ima.Log.{
  fields_of, split_inclusive, ParsedLog, parsed_log, log_refused, parse_line, parse_segments,
  parse_ima_log, reconcile_parsed, verify_ima_log_against_pcr10,
}
use vpma.Ima.Log.Guest.Lines.{kept_of, kept_log, fields_lem, guest_fields_lem, after_lem}

module _ (c : Crypto) (trim_end : List ℕ → List ℕ) where
  guest_line_lem : (line : List ℕ) → guest_line c trim_end line ≡ kept_of (parse_line c line)
  unfolding guest_line parse_line
  guest_line_lem line = elim (Bool-cases (length line == 0)) [
    | inl t ↦ rw t refl
    | inr f ↦ rw f (
        ap (guest_fields c trim_end) (fields_lem line)
        ∙ guest_fields_lem c trim_end (fields_of line))
  ]

  guest_loop_lem :
      (cursor : ℕ) (segments : List (List ℕ))
      → guest_loop c trim_end cursor segments ≡ kept_log (parse_segments c trim_end cursor segments)
  unfolding guest_loop parse_segments
  guest_loop_lem cursor [] = refl
  guest_loop_lem cursor (s ∷ ss) =
      ap₂ (after_guest_line (cursor + length s)) (guest_line_lem (trim_end s))
        (guest_loop_lem (cursor + length s) ss)
      ∙ after_lem (cursor + length s) (parse_line c (trim_end s)) _

  -- The sizes that the host answers.
  abbrev pub sizes : Reconciled → Attestation
  sizes (refused code) = attestation_refused code
  sizes (reconciled p) = attested (record {
    entries_attested = length p.attested;
    entries_total = p.entries_total;
    attested_bytes = p.attested_bytes;
  })

  same_prefix :
      (rs : List ImaRecord) (o : Option ℕ)
      → ((n : ℕ) → o ≡ some n → n ≤ length rs)
      → guest_attested c trim_end (map (λ r. r.extend_digest) rs) (map (λ r. r.end_offset) rs) o
        ≡ sizes (attested_prefix c rs o)
  unfolding guest_attested attested_prefix
  same_prefix rs none l = refl
  same_prefix rs (some zero) l = refl
  same_prefix rs (some (suc n)) l =
      let size : length (take (suc n) rs) ≡ suc n =
        length-take (suc n) rs ∙ omega (arith, l (suc n) refl) in
      ap₂
        (λ k m. attested (record {
          entries_attested = k;
          entries_total = m;
          attested_bytes = get_or (map (λ r. r.end_offset) rs) n 0;
        }))
        (sym size) (length-map (λ r. r.extend_digest) rs)

  bound :
      (rs : List ImaRecord) (target : List ℕ) (o : Option ℕ)
      → FirstPrefix c zero32 (map (λ r. r.extend_digest) rs) target o
      → (n : ℕ) → o ≡ some n
      → n ≤ length rs
  bound rs target none f n e = absurd cc
  bound rs target (some m) f n e =
      let same : m ≡ n = cc in omega (arith, f.0, same, length-map (λ r. r.extend_digest) rs)

  -- With a register of 32 bytes the guest answers as the host.
  same_on_target :
      (target : List ℕ) (log : ParsedLog) (pcr10_hex : List ℕ)
      → length target ≡ 32
      → hex_decode (trim pcr10_hex) ≡ some target
      → guest_reconcile c trim_end target (kept_log log)
        ≡ sizes (reconcile_parsed c trim_end log pcr10_hex)
  unfolding guest_reconcile reconcile_parsed reconcile_ima_against_pcr10 reconcile_decoded
  same_on_target target (log_refused code) pcr10_hex size e = refl
  same_on_target target (parsed_log rs) pcr10_hex size e =
      let ds = map (λ r. r.extend_digest) rs in
      let fits : (length target == 32) ≡ true = (==_iff _ _).1 size in
      let count : (length ds == 0) ≡ (length rs == 0) =
        ap (λ n. n == 0) (length-map (λ r. r.extend_digest) rs) in
      elim (Bool-cases (length rs == 0)) [
        | inl t ↦ rw (e, fits, count, t) refl
        | inr f ↦
            rw (e, fits, count, f)
              (same_prefix rs (replay_find_prefix c ds target)
                (bound rs target _ (replay_find_prefix_lem c ds target size)))
      ]

  -- Both refuse a register that is not 32 bytes in hexadecimal.
  both_refuse :
      (ima_log pcr10_hex : List ℕ) (log : ParsedLog) (d : Option (List ℕ))
      → hex_decode (trim pcr10_hex) ≡ d
      → ((target : List ℕ) → d ≡ some target → (length target == 32) ≡ false)
      → (guest_decoded c trim_end ima_log d ≡ attestation_refused (negsuc 4))
        × ((code : ℤ) × (reconcile_parsed c trim_end log pcr10_hex ≡ refused code))
  unfolding guest_decoded reconcile_parsed reconcile_ima_against_pcr10 reconcile_decoded
  both_refuse ima_log pcr10_hex (log_refused code) none e bad = (refl, (code, refl))
  both_refuse ima_log pcr10_hex (parsed_log rs) none e bad = (refl, (negsuc 4, rw e refl))
  both_refuse ima_log pcr10_hex (log_refused code) (some target) e bad =
      (rw (bad target refl) refl, (code, refl))
  both_refuse ima_log pcr10_hex (parsed_log rs) (some target) e bad =
      (rw (bad target refl) refl, (negsuc 4, rw (e, bad target refl) refl))

  -- Guest and host answer the same; or the register is not 32 bytes in hexadecimal, and both refuse.
  -- So both attest the same logs, with the same number of records and bytes.
  pub guest_verify_ima_log_lem :
      (ima_log pcr10_hex : List ℕ)
      → (guest_verify_ima_log c trim_end ima_log pcr10_hex
          ≡ sizes (verify_ima_log_against_pcr10 c trim_end ima_log pcr10_hex))
        ⊎ ((guest_verify_ima_log c trim_end ima_log pcr10_hex ≡ attestation_refused (negsuc 4))
            × ((code : ℤ) × (verify_ima_log_against_pcr10 c trim_end ima_log pcr10_hex
                  ≡ refused code)))
  unfolding guest_verify_ima_log verify_ima_log_against_pcr10 guest_decoded parse_ima_log
  guest_verify_ima_log_lem ima_log pcr10_hex = elim (Option-cases (hex_decode (trim pcr10_hex))) [
    | inl e ↦ inr (rw e (both_refuse ima_log pcr10_hex _ none e (λ target bad. absurd cc)))
    | inr (target, e) ↦ elim (Bool-cases (length target == 32)) [
      | inl t ↦ inl (
          rw (e, t)
            (ap (guest_reconcile c trim_end target) (guest_loop_lem 0 (split_inclusive ima_log))
              ∙ same_on_target target (parse_segments c trim_end 0 (split_inclusive ima_log))
                  pcr10_hex ((==_iff _ _).0 t) e))
      | inr f ↦
          let r =
            both_refuse ima_log pcr10_hex (parse_segments c trim_end 0 (split_inclusive ima_log))
              (some target) e
              (λ x bad.
                let same : target ≡ x = cc in subst (λ y. (length y == 32) ≡ false) same f) in
          inr (ap (guest_decoded c trim_end ima_log) e ∙ r.0, r.1)
    ]
  ]
