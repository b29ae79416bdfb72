-- ===== src/Quote/Accepted.antt =====
-- What an accepted quote holds, and that both copies of the check accept the same quotes.
use vpma.Prelude.{
  ℕ, ◌+◌, ◌≤◌, ◌≡◌, sym, ap, subst, ◌∙◌, List, arith, length, ==_iff, ◌===◌, ===-sound,
}
use vpma.Crypto.{Crypto}
use vpma.Quote.{
  wrong_digest, require, slice, u16_at, tpm_alg_sha256, tpm_alg_rsassa, check_extra_data,
  pcr_count_host, check_selection, check_digest, check_signature, verify_with,
  verify_quote_structure_host, verify_quote_structure_guest,
}
use vpma.Quote.Reads.{
  Ensures, Ensures-then, Ensures-map, require_lem, U16At, U32At, u16_at_lem, bytes_at, slice_lem,
}
use vpma.Quote.Parts.{
  Head, Selection, check_extra_data_lem, pcr_count_lem, same_count, check_selection_lem,
}

-- The digest of the PCR values, at the end of the quote.
abbrev pub Digest : List ℕ → List ℕ → ℕ → Type 0
Digest attest expected s =
    U16At attest s 32 × (s + 34 ≡ length attest) × (bytes_at attest (s + 2) 32 ≡ expected)

check_digest_lem :
    (c : Crypto) (attest pcr_values : List ℕ) (s : ℕ)
    → Ensures (λ _. Digest attest (c.sha256 pcr_values) s) (check_digest c attest pcr_values s)
unfolding check_digest
check_digest_lem c attest pcr_values s = Ensures-then _ (require _ _) _ (require_lem _ _) (λ _ room.
    Ensures-then _ (u16_at attest s) _ (u16_at_lem attest s (ground (arith, room))) (λ dlen is_dlen.
      Ensures-then _ (require _ _) _ (require_lem _ _) (λ _ good_dlen.
        Ensures-then _ (require _ _) _ (require_lem _ _) (λ _ ends.
          let size : dlen ≡ 32 = (==_iff _ _).0 good_dlen in
          let last : s + 2 + dlen ≡ length attest = (==_iff _ _).0 ends in
          Ensures-then _ (slice attest (s + 2) (s + 2 + dlen)) _
            (slice_lem attest (s + 2) dlen (omega (arith, last)))
            (λ digest is_digest. matched digest size last is_dlen is_digest.0)))))
  where
    matched :
        (digest : List ℕ) {dlen : ℕ}
        → dlen ≡ 32
        → s + 2 + dlen ≡ length attest
        → U16At attest s dlen
        → digest ≡ bytes_at attest (s + 2) dlen
        → Ensures
            (λ _. Digest attest (c.sha256 pcr_values) s)
            (require (digest === c.sha256 pcr_values) wrong_digest)
    matched digest size last is_dlen e = Ensures-map (require _ _) (require_lem _ _) (λ _ same. (
      subst (U16At attest s) size is_dlen,
      omega (arith, size, last),
      ap (λ n. bytes_at attest (s + 2) n) (sym size)
          ∙ (sym e ∙ ===-sound digest (c.sha256 pcr_values) same),
    ))

-- The header of an RSASSA signature over SHA-256, then the signature.
abbrev pub Signed : List ℕ → List ℕ → Type 0
Signed signature out =
    U16At signature 0 tpm_alg_rsassa
    × U16At signature 2 tpm_alg_sha256
    × U16At signature 4 (length out)
    × (length signature ≡ 6 + length out)
    × (bytes_at signature 6 (length out) ≡ out)

check_signature_lem : (signature : List ℕ) → Ensures (Signed signature) (check_signature signature)
unfolding check_signature
check_signature_lem signature = Ensures-then _ (require _ _) _ (require_lem _ _) (λ _ room.
    let l : 6 ≤ length signature = ground (arith, room) in
    Ensures-then _ (u16_at signature 0) _ (u16_at_lem signature 0 (omega (arith, l))) (λ alg is_alg.
      Ensures-then _ (require _ _) _ (require_lem _ _) (λ _ good_alg.
        Ensures-then _ (u16_at signature 2) _ (u16_at_lem signature 2 (omega (arith, l)))
          (λ hash is_hash. Ensures-then _ (require _ _) _ (require_lem _ _) (λ _ good_hash.
            Ensures-then _ (u16_at signature 4) _ (u16_at_lem signature 4 (omega (arith, l)))
              (λ size is_size. Ensures-then _ (require _ _) _ (require_lem _ _) (λ _ whole.
                let ends : 6 + size ≡ length signature = (==_iff _ _).0 whole in
                rw (← ends) (
                  Ensures-map (slice signature 6 (6 + size))
                    (slice_lem signature 6 size (omega (arith, ends)))
                    (λ out is_out. (
                      subst (U16At signature 0) ((==_iff _ _).0 good_alg) is_alg,
                      subst (U16At signature 2) ((==_iff _ _).0 good_hash) is_hash,
                      subst (U16At signature 4) (sym is_out.1) is_size,
                      omega (arith, ends, is_out.1),
                      ap (λ n. bytes_at signature 6 n) is_out.1 ∙ sym is_out.0,
                    ))))))))))

-- The head, the selection of one bank after clock and firmware version, the digest and the
-- signature.
abbrev pub AcceptedQuote : List ℕ → List ℕ → List ℕ → List ℕ → List ℕ → Type 0
AcceptedQuote attest signature digest nonce out =
    (e : ℕ) × (s : ℕ) × Head attest nonce e
    × U32At attest (e + 25) 1
    × Selection attest (e + 29) s
    × Digest attest digest s
    × Signed signature out

-- Whatever the bytes, neither copy of the check panics, and the two accept and refuse alike. An
-- accepted quote has the TPM's magic and type, the expected nonce as its extra data, exactly one
-- bank, SHA-256, with exactly the expected PCRs, and at its very end the SHA-256 digest of the
-- supplied PCR values; the signature is RSASSA over SHA-256, and what is returned is all of it after
-- its header.
pub verify_quote_structure_lem :
    (c : Crypto) (attest signature pcr_values nonce : List ℕ)
    → Ensures
        (AcceptedQuote attest signature (c.sha256 pcr_values) nonce)
        (verify_quote_structure_host c attest signature pcr_values nonce)
      × (verify_quote_structure_guest c attest signature pcr_values nonce
          ≡ verify_quote_structure_host c attest signature pcr_values nonce)
unfolding verify_quote_structure_host verify_quote_structure_guest verify_with
verify_quote_structure_lem c attest signature pcr_values nonce = (
  Ensures-then _ (check_extra_data attest nonce) _ (check_extra_data_lem attest nonce) (λ e head.
      Ensures-then _ (pcr_count_host attest (e + 25)) _ (pcr_count_lem attest (e + 25))
        (λ count is_count.
          Ensures-then _ (check_selection attest count (e + 29)) _
            (check_selection_lem attest count (e + 29))
            (λ s selection.
              Ensures-then _ (check_digest c attest pcr_values s) _
                (check_digest_lem c attest pcr_values s)
                (λ _ digest.
                  Ensures-map (check_signature signature) (check_signature_lem signature)
                    (λ out signed. (
                      e,
                      s,
                      head,
                      subst (U32At attest (e + 25)) selection.0 is_count.1,
                      selection.1,
                      digest,
                      signed,
                    )))))),
  ap (λ f. verify_with f c attest signature pcr_values nonce) (λ i. λ xs p. same_count xs p i),
)
