-- ===== src/Anchor/Lines.antt =====
-- A checkpoint line that the enclave writes is accepted, and what is accepted carries its
-- signature.
use vpma.Prelude.{
  ℕ, ◌^◌, ◌/◌, ◌%◌, ◌<◌, ◌≡◌, refl, sym, ap, ap₂, ◌∙◌, inl, inr, true, false, ◌&&◌, ltb, Option,
  none, some, List, [], ◌∷◌, ◌++◌, append_assoc, arith, length, All, Bool-cases, Option-cases,
}
use vpma.Crypto.{Crypto, hex_digit}
use vpma.Encoding.{anchor_tag_bytes, encode_checkpoint_msg}
use vpma.Encoding.Domains.{NoSep}
use vpma.Text.{slices_eq, ct_eq_32, parse_u64_dec, hex_decode_32, is_valid_tenant_label}
use vpma.Text.Tests.{IsSafe, slices_eq_iff, ct_eq_32_iff, is_valid_tenant_label_iff}
use vpma.Text.Hex.{
  hex_encode-ne_sep, length-hex_encode, hex_decode_32-hex_encode, hex_decode_32_bytes,
}
use vpma.Text.Numbers.{show_u64, show_u64-ne_sep, parse_u64_dec-show_u64, parse_u64_dec_sound}
use vpma.Anchor.{
  ParsedAnchor, sep_loop, parse_fields, split_line, parse_checkpoint_line, ◌>>=◌, is_space, trim,
  sign_checkpoint, checkpoint_line, check_anchor, verify_checkpoint_line, tenant_key,
}
use vpma.Anchor.Parts.{join, parse-join, NoSpace, trim_lem}

IsSafe-NoSep : (s : List ℕ) → All IsSafe s → NoSep s
IsSafe-NoSep [] h = tt
IsSafe-NoSep (b ∷ s) h = (ground arith, IsSafe-NoSep s h.1)

hex_digit-NoSpace : (d : ℕ) → d < 16 → is_space (hex_digit d) ≡ false
unfolding is_space
hex_digit-NoSpace d h = ground arith

module _ (c : Crypto) (master : List ℕ) where
  hex_encode-NoSpace : (x : List ℕ) → All (λ b. b < 256) x → NoSpace (c.hex_encode x)
  hex_encode-NoSpace [] h = rw (c.hex_encode-nil) tt
  hex_encode-NoSpace (b ∷ x) h = rw (c.hex_encode-cons b x) (
    hex_digit-NoSpace (b / 16) (omega arith),
    (hex_digit-NoSpace (b % 16) (omega arith), hex_encode-NoSpace x h.1),
  )

  -- Trimming does not change a line whose last field is the hexadecimal text of a nonempty value.
  trim-join :
      (a s : List ℕ)
      → All (λ b. b < 256) s
      → 0 < length s
      → trim (anchor_tag_bytes ++ (a ++ c.hex_encode s)) ≡ anchor_tag_bytes ++ (a ++ c.hex_encode s)
  trim-join a s h p =
      trim_lem 0x63
        (0x68 ∷ 0x65 ∷ 0x63 ∷ 0x6B ∷ 0x70 ∷ 0x6F ∷ 0x69 ∷ 0x6E ∷ 0x74 ∷ 0x2D ∷ 0x76 ∷ 0x31 ∷ a)
        (c.hex_encode s) (unfold is_space in refl) (hex_encode-NoSpace s h)
        (omega (arith, length-hex_encode c s))

  trim-checkpoint_line :
      (tenant : List ℕ) (n : ℕ) (root : List ℕ)
      → trim (checkpoint_line c master tenant n root) ≡ checkpoint_line c master tenant n root
  unfolding checkpoint_line sign_checkpoint
  trim-checkpoint_line tenant n root =
      let key = tenant_key c master tenant in
      let msg = encode_checkpoint_msg tenant n root in
      let a =
        0x7C ∷ (tenant ++ (0x7C ∷ (show_u64 n ++ (0x7C ∷ (c.hex_encode root ++ (0x7C ∷ [])))))) in
      let line : checkpoint_line c master tenant n root
          ≡ anchor_tag_bytes ++ (a ++ c.hex_encode (c.hmac key msg)) =
        simp append_assoc in
      ap trim line
      ∙ trim-join a (c.hmac key msg) (c.hmac_bytes key msg) (omega (arith, c.length-hmac key msg))
      ∙ sym line

  parse-checkpoint_line :
      (tenant : List ℕ) (n : ℕ) (root : List ℕ)
      → NoSep tenant
      → n < 2 ^ 64
      → length root ≡ 32
      → All (λ b. b < 256) root
      → parse_checkpoint_line (checkpoint_line c master tenant n root) tenant
        ≡ some
            (record { block_number = n; root = root; sig = sign_checkpoint c master tenant n root })
  parse-checkpoint_line tenant n root ht hn hr hb =
      let key = tenant_key c master tenant in
      let msg = encode_checkpoint_msg tenant n root in
      let sig = sign_checkpoint c master tenant n root in
      let len : length sig ≡ 32 = unfold sign_checkpoint in c.length-hmac key msg in
      let bytes : All (λ b. b < 256) sig = unfold sign_checkpoint in c.hmac_bytes key msg in
      let joined =
        parse-join anchor_tag_bytes tenant (show_u64 n) (c.hex_encode root) (c.hex_encode sig)
          tenant (omega arith) ht (show_u64-ne_sep n) (hex_encode-ne_sep c root hb)
          (hex_encode-ne_sep c sig bytes) (omega (arith, length-hex_encode c sig, len)) in
      let tag : slices_eq anchor_tag_bytes anchor_tag_bytes ≡ true =
        (slices_eq_iff anchor_tag_bytes anchor_tag_bytes).1 refl in
      let same : slices_eq tenant tenant ≡ true = (slices_eq_iff tenant tenant).1 refl in
      let line : checkpoint_line c master tenant n root
          ≡ join anchor_tag_bytes tenant (show_u64 n) (c.hex_encode root) (c.hex_encode sig) =
        unfold checkpoint_line in refl in
      let read : parse_fields tenant anchor_tag_bytes tenant (show_u64 n) (c.hex_encode root)
            (c.hex_encode sig)
          ≡ some (record { block_number = n; root = root; sig = sig }) =
        unfold parse_fields in
        rw (
          tag,
          same,
          parse_u64_dec-show_u64 n hn,
          ◌>>=◌,
          hex_decode_32-hex_encode c root hr hb,
          hex_decode_32-hex_encode c sig len bytes,
        ) in
      ap (λ l. parse_checkpoint_line l tenant) line ∙ joined ∙ read

  -- For a valid tenant label, a u64 block number and a root of 32 bytes, the line that the enclave
  -- writes for them is accepted for that tenant, with exactly that block number and root.
  pub verify-checkpoint_line :
      (tenant : List ℕ) (n : ℕ) (root : List ℕ)
      → is_valid_tenant_label tenant ≡ true
      → n < 2 ^ 64
      → length root ≡ 32
      → All (λ b. b < 256) root
      → verify_checkpoint_line c master tenant (checkpoint_line c master tenant n root)
        ≡ some (n, root)
  verify-checkpoint_line tenant n root ht hn hr hb =
      let sep = IsSafe-NoSep tenant ((is_valid_tenant_label_iff tenant).0 ht).2 in
      let sig = sign_checkpoint c master tenant n root in
      let same : ct_eq_32 sig sig ≡ true = (ct_eq_32_iff sig sig refl).1 refl in
      unfold verify_checkpoint_line check_anchor in
      rw (
        trim-checkpoint_line tenant n root,
        parse-checkpoint_line tenant n root sep hn hr hb,
        ◌>>=◌,
        same,
      )

  parse_fields_sound :
      (tenant a b d e f : List ℕ) (p : ParsedAnchor)
      → parse_fields tenant a b d e f ≡ some p
      → (b ≡ tenant) × (length p.root ≡ 32) × (length p.sig ≡ 32) × (p.block_number < 2 ^ 64)
  parse_fields_sound tenant a b d e f p h = elim (Option-cases (parse_u64_dec d)) [
    | inl x ↦ absurd (unfold parse_fields in ground (arith, x))
    | inr (n, x) ↦ elim (Option-cases (hex_decode_32 e)) [
      | inl y ↦ absurd (unfold parse_fields in ground (arith, x, y))
      | inr (r, y) ↦ elim (Option-cases (hex_decode_32 f)) [
        | inl z ↦ absurd (unfold parse_fields in ground (arith, x, y, z))
        | inr (s, z) ↦
            let same : slices_eq b tenant ≡ true = unfold parse_fields in ground (arith, x, y, z) in
            let root : p.root ≡ r = unfold parse_fields in ground (arith, x, y, z) in
            let sig : p.sig ≡ s = unfold parse_fields in ground (arith, x, y, z) in
            let num : p.block_number ≡ n = unfold parse_fields in ground (arith, x, y, z) in
            (
              (slices_eq_iff b tenant).0 same,
              ap length root ∙ (hex_decode_32_bytes e r y).0,
              ap length sig ∙ (hex_decode_32_bytes f s z).0,
              omega (arith, num, (parse_u64_dec_sound d n x).4),
            )
      ]
    ]
  ]

  abbrev anchor_of : ℕ → List ℕ → List ℕ → ParsedAnchor
  anchor_of n root sig = record { block_number = n; root = root; sig = sig }

  unpack :
      (p : ParsedAnchor) (n : ℕ) (root sig : List ℕ)
      → p.block_number ≡ n
      → p.root ≡ root
      → p.sig ≡ sig
      → p ≡ anchor_of n root sig
  unpack p n root sig a b d = λ i. record { block_number = a i; root = b i; sig = d i }

  split_line_sound :
      (line tenant seps : List ℕ) (p : ParsedAnchor)
      → split_line line tenant seps ≡ some p
      → (length p.root ≡ 32) × (length p.sig ≡ 32) × (p.block_number < 2 ^ 64)
  unfolding split_line
  split_line_sound line tenant [] p h = cc
  split_line_sound line tenant (s0 ∷ []) p h = cc
  split_line_sound line tenant (s0 ∷ s1 ∷ []) p h = cc
  split_line_sound line tenant (s0 ∷ s1 ∷ s2 ∷ []) p h = cc
  split_line_sound line tenant (s0 ∷ s1 ∷ s2 ∷ s3 ∷ s4 ∷ seps) p h = cc
  split_line_sound line tenant (s0 ∷ s1 ∷ s2 ∷ s3 ∷ []) p h =
      elim (Bool-cases (ltb s0 s1 && ltb s1 s2 && ltb s2 s3 && ltb s3 (length line))) [
        | inl t ↦ let f = parse_fields_sound tenant _ _ _ _ _ p (rw t at h) in (f.1, f.2, f.3)
        | inr t ↦ let bad : none ≡ some p = (rw t at h) in cc
      ]

  parse_checkpoint_line_sound :
      (line tenant : List ℕ) (p : ParsedAnchor)
      → parse_checkpoint_line line tenant ≡ some p
      → (length p.root ≡ 32) × (length p.sig ≡ 32) × (p.block_number < 2 ^ 64)
  unfolding parse_checkpoint_line
  parse_checkpoint_line_sound line tenant p h = elim (Option-cases (sep_loop 0 [] line)) [
    | inl e ↦ let bad : none ≡ some p = (rw (e, ◌>>=◌) at h) in cc
    | inr (seps, e) ↦ split_line_sound line tenant seps p (rw (e, ◌>>=◌) at h)
  ]

  -- Whatever the line, acceptance of a block number and root means that the trimmed line parses,
  -- for that tenant, to them and to the signature that the enclave's key gives on them; the number
  -- is below 2^64 and the root has 32 bytes.
  pub verify_checkpoint_line_sound :
      (tenant line : List ℕ) (n : ℕ) (root : List ℕ)
      → verify_checkpoint_line c master tenant line ≡ some (n, root)
      → (n < 2 ^ 64)
        × (length root ≡ 32)
        × (parse_checkpoint_line (trim line) tenant
            ≡ some (record {
              block_number = n;
              root = root;
              sig = sign_checkpoint c master tenant n root;
            }))
  verify_checkpoint_line_sound tenant line n root h =
      elim (Option-cases (parse_checkpoint_line (trim line) tenant)) [
        | inl e ↦
            let bad : ◌≡◌ {A = Option (ℕ × List ℕ)} none (some (n, root)) =
              unfold verify_checkpoint_line in (rw (e, ◌>>=◌) at h) in
            cc
        | inr (p, e) ↦
            let f = parse_checkpoint_line_sound (trim line) tenant p e in
            let good : check_anchor c master tenant p ≡ some (n, root) =
              unfold verify_checkpoint_line in (rw (e, ◌>>=◌) at h) in
            let sig = sign_checkpoint c master tenant p.block_number p.root in
            let len : length sig ≡ length p.sig =
              unfold sign_checkpoint in (c.length-hmac _ _ ∙ sym (f.1)) in
            let same : sig ≡ p.sig =
              (ct_eq_32_iff sig p.sig len).0 (unfold check_anchor in ground arith) in
            let num : p.block_number ≡ n = unfold check_anchor in ground arith in
            let rt : p.root ≡ root = unfold check_anchor in ground arith in
            (
              omega (arith, num, f.2),
              ap length (sym rt) ∙ f.0,
              e
                  ∙ ap some (
                      unpack p n root sig num rt (sym same)
                      ∙ ap₂ (λ k r. anchor_of n root (sign_checkpoint c master tenant k r)) num rt),
            )
      ]
