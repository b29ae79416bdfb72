-- ===== src/Quote/Parts.antt =====
-- The first parts of a quote: its head up to the nonce, the number of banks and their selection.
use vpma.Prelude.{
  ℕ, ◌+◌, ◌-◌, ◌≤◌, ◌≡◌, refl, sym, ap, subst, ◌∙◌, inl, inr, true, false, not, ◌||◌, Option, none,
  some, List, arith, length, take, drop, ltb, ==_iff, ◌===◌, ===-sound, Bool-cases,
}
use vpma.Quote.{
  truncated_before_select, Checked, ok, refuse, panics, ◌>>=◌, require, or_refuse, at, slice,
  read_u16_be, u16_at, u32_at, read_u32_be, any_nonzero, tpm_generated_value, tpm_st_attest_quote,
  tpm_alg_sha256, expected_pcr_select, check_extra_data, pcr_count_host, pcr_count_guest,
  check_selection,
}
use vpma.Quote.Reads.{
  Ensures, Ensures-then, require_lem, or_refuse_lem, ByteAt, at_lem, U16At, U32At, u16_at_lem,
  u32_at_lem, bytes_at, slice_lem, advance_within_lem, read_u16_be_lem, read_u32_be_lem,
}

-- The head of a quote: magic, type, a signer and the nonce, which ends at `e`.
abbrev pub Head : List ℕ → List ℕ → ℕ → Type 0
Head attest nonce e =
    (signer_len : ℕ) × U32At attest 0 tpm_generated_value
    × U16At attest 4 tpm_st_attest_quote
    × U16At attest 6 signer_len
    × U16At attest (8 + signer_len) (length nonce)
    × (bytes_at attest (10 + signer_len) (length nonce) ≡ nonce)
    × (e ≡ 10 + signer_len + length nonce)
    × (e ≤ length attest)

pub check_extra_data_lem :
    (attest nonce : List ℕ) → Ensures (Head attest nonce) (check_extra_data attest nonce)
unfolding check_extra_data
check_extra_data_lem attest nonce = Ensures-then _ (require _ _) _ (require_lem _ _) (λ _ long.
    let l : 40 ≤ length attest = ground (arith, long) in
    Ensures-then _ (u32_at attest 0) _ (u32_at_lem attest 0 (omega (arith, l))) (λ magic is_magic.
      Ensures-then _ (require _ _) _ (require_lem _ _) (λ _ good_magic.
        Ensures-then _ (u16_at attest 4) _ (u16_at_lem attest 4 (omega (arith, l)))
          (λ atype is_type. Ensures-then _ (require _ _) _ (require_lem _ _) (λ _ good_type.
            Ensures-then _ (read_u16_be attest 6) _ (read_u16_be_lem attest 6) (λ qs is_qs.
              Ensures-then _ (or_refuse qs _) _ (or_refuse_lem qs _) (λ qs_len got_qs.
                Ensures-then _ (or_refuse _ _) _ (or_refuse_lem _ _) (λ p got_p.
                  Ensures-then _ (read_u16_be attest p) _ (read_u16_be_lem attest p) (λ ed is_ed.
                    Ensures-then _ (or_refuse ed _) _ (or_refuse_lem ed _) (λ ed_len got_ed.
                      Ensures-then _ (or_refuse _ _) _ (or_refuse_lem _ _) (λ q got_q.
                        let (p_is, p_fits) = advance_within_lem 8 qs_len (length attest) p got_p in
                        let (q_is, q_fits) =
                          advance_within_lem (p + 2) ed_len (length attest) q got_q in
                        Ensures-then _ (slice attest (p + 2) (p + 2 + ed_len)) _
                          (slice_lem attest (p + 2) ed_len (omega (arith, q_is, q_fits)))
                          (λ extra is_extra.
                            Ensures-then _ (require _ _) _ (require_lem _ _) (λ _ fresh.
                              let same : extra ≡ nonce = ===-sound extra nonce fresh in
                              let size : ed_len ≡ length nonce =
                                sym (is_extra.1) ∙ ap length same in
                              let place : p + 2 ≡ 10 + qs_len = omega (arith, p_is) in
                              (
                                qs_len,
                                subst (U32At attest 0) ((==_iff _ _).0 good_magic) is_magic,
                                subst (U16At attest 4) ((==_iff _ _).0 good_type) is_type,
                                (is_qs qs_len got_qs).1,
                                subst (λ at_p. U16At attest at_p (length nonce)) p_is
                                    (subst (U16At attest p) size (is_ed ed_len got_ed).1),
                                ap (λ k. take (length nonce) (drop k attest)) (sym place)
                                    ∙ (ap (λ n. take n (drop (p + 2) attest)) (sym size)
                                        ∙ (sym (is_extra.0) ∙ same)),
                                omega (arith, p_is, size),
                                omega (arith, q_is, q_fits),
                              ))))))))))))))

counted :
    (attest : List ℕ) (p : ℕ) (r : Option ℕ)
    → ((v : ℕ) → r ≡ some v → (p + 4 ≤ length attest) × U32At attest p v)
    → Ensures
        (λ n. (p + 4 ≤ length attest) × U32At attest p n)
        (or_refuse r truncated_before_select)
unfolding or_refuse
counted attest p (some v) is_r = is_r v refl
counted attest p none is_r = tt

pub pcr_count_lem :
    (attest : List ℕ) (p : ℕ)
    → Ensures (λ n. (p + 4 ≤ length attest) × U32At attest p n) (pcr_count_host attest p)
unfolding pcr_count_host
pcr_count_lem attest p =
    Ensures-then _ (read_u32_be attest p) _ (read_u32_be_lem attest p)
      (λ r is_r. counted attest p r is_r)

returned :
    (m : Checked ℕ)
    → m ≡ ((m >>= (λ v. ok (some v))) >>= (λ r. or_refuse r truncated_before_select))
unfolding or_refuse
returned (ok v) = refl
returned (refuse e) = refl
returned panics = refl

pub same_count : (attest : List ℕ) (p : ℕ) → pcr_count_guest attest p ≡ pcr_count_host attest p
unfolding pcr_count_guest pcr_count_host read_u32_be require
same_count attest p = elim (Bool-cases (ltb (length attest) (p + 4))) [
  | inl out ↦
      let far : (ltb (length attest) p || ltb (length attest - p) 4) ≡ true = ground (arith, out) in
      rw (out, far) (unfold or_refuse in refl)
  | inr within ↦
      let near : (ltb (length attest) p || ltb (length attest - p) 4) ≡ false =
        ground (arith, within) in
      rw (within, near) (returned (u32_at attest p))
]

-- One bank, SHA-256, and a bitmap of the expected PCRs and no other, which ends at `s`.
abbrev pub Selection : List ℕ → ℕ → ℕ → Type 0
Selection attest p s =
    (size : ℕ) × U16At attest p tpm_alg_sha256
    × ByteAt attest (p + 2) size
    × (take 3 (bytes_at attest (p + 3) size) ≡ expected_pcr_select)
    × (any_nonzero (drop 3 (bytes_at attest (p + 3) size)) ≡ false)
    × (s ≡ p + 3 + size)
    × (s ≤ length attest)

bitmap :
    (selected : List ℕ)
    → not (
        ltb (length selected) 3
        || (not (take 3 selected === expected_pcr_select) || any_nonzero (drop 3 selected)))
      ≡ true
    → (take 3 selected ≡ expected_pcr_select) × (any_nonzero (drop 3 selected) ≡ false)
bitmap selected h = elim (Bool-cases (take 3 selected === expected_pcr_select)) [
  | inl t ↦ (===-sound _ _ t, ground (arith, h))
  | inr f ↦ absurd (ground (arith, h))
]

pub check_selection_lem :
    (attest : List ℕ) (count p : ℕ)
    → Ensures (λ s. (count ≡ 1) × Selection attest p s) (check_selection attest count p)
unfolding check_selection
check_selection_lem attest count p = Ensures-then _ (require _ _) _ (require_lem _ _) (λ _ one.
    Ensures-then _ (require _ _) _ (require_lem _ _) (λ _ room.
      let l : p + 3 ≤ length attest = ground (arith, room) in
      Ensures-then _ (u16_at attest p) _ (u16_at_lem attest p (omega (arith, l))) (λ alg is_alg.
        Ensures-then _ (require _ _) _ (require_lem _ _) (λ _ good_alg.
          Ensures-then _ (at attest (p + 2)) _ (at_lem attest (p + 2) (omega (arith, l)))
            (λ size is_size. Ensures-then _ (require _ _) _ (require_lem _ _) (λ _ whole.
              let m : p + 3 + size ≤ length attest = ground (arith, whole) in
              Ensures-then _ (slice attest (p + 3) (p + 3 + size)) _
                (slice_lem attest (p + 3) size m)
                (λ selected is_selected. Ensures-then _ (require _ _) _ (require_lem _ _) (λ _ good.
                  let bits = bitmap selected good in
                  (
                    (==_iff count 1).0 one,
                    (
                      size,
                      subst (U16At attest p) ((==_iff _ _).0 good_alg) is_alg,
                      is_size,
                      ap (take 3) (sym (is_selected.0)) ∙ bits.0,
                      ap (λ s. any_nonzero (drop 3 s)) (sym (is_selected.0)) ∙ bits.1,
                      refl,
                      m,
                    ),
                  )))))))))
