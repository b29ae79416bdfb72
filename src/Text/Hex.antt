-- ===== src/Text/Hex.antt =====
-- Hexadecimal texts: what decodes, and that decoding undoes `hex::encode`.
use vpma.Prelude.{
  ℕ, ◌+◌, ◌*◌, ◌/◌, ◌%◌, ◌<◌, ◌≡◌, ◌≢◌, refl, sym, ap, subst, ◌∙◌, ◌↔◌, ◌⊎◌, inl, inr, true, Option,
  none, some, List, [], ◌∷◌, ◌++◌, append-nil, append_assoc, arith, ◌==◌, length, length-append,
  All, All-append, push, Option-cases,
}
use vpma.Crypto.{Crypto, hex_digit}
use vpma.Text.{hex_val, hex_pair, hex_loop, hex_decode_32}

hex_val_lt : (x v : ℕ) → hex_val x ≡ some v → v < 16
unfolding hex_val
hex_val_lt x v h = ground arith

-- A byte that is a hexadecimal digit.
abbrev pub IsHex : ℕ → Type 0
IsHex x = (v : ℕ) × (hex_val x ≡ some v)

hex_val-hex_digit : (d : ℕ) → d < 16 → hex_val (hex_digit d) ≡ some d
unfolding hex_val
hex_val-hex_digit d h = ground arith

hex_digit-ne_sep : (d : ℕ) → d < 16 → hex_digit d ≢ 0x7C
hex_digit-ne_sep d h e = ground arith

hex_pair-cases :
    (h l : ℕ)
    → (hex_pair (hex_val h) (hex_val l) ≡ none)
      ⊎ ((b : ℕ) × (hex_pair (hex_val h) (hex_val l) ≡ some b) × (b < 256) × IsHex h × IsHex l)
hex_pair-cases h l = elim (Option-cases (hex_val h)) [
  | inl e ↦ inl (rw e (none_left (hex_val l)))
  | inr (v, e) ↦ elim (Option-cases (hex_val l)) [
    | inl f ↦ inl (rw (e, f) (unfold hex_pair in refl))
    | inr (w, f) ↦ inr (
      v * 16 + w,
      rw (e, f) (unfold hex_pair in refl),
      omega (arith, hex_val_lt h v e, hex_val_lt l w f),
      (v, e),
      (w, f),
    )
  ]
]
  where
    none_left : (o : Option ℕ) → hex_pair none o ≡ none
    none_left o = unfold hex_pair in refl

-- What the loop returns: as many bytes as pairs, all from hexadecimal digits.
hex_loop_sound :
    (out s r : List ℕ)
    → length s % 2 ≡ 0
    → All (λ b. b < 256) out
    → hex_loop out s ≡ some r
    → All IsHex s × (2 * length r ≡ 2 * length out + length s) × All (λ b. b < 256) r
hex_loop_sound out [] r l o h =
    let e : out ≡ r = unfold hex_loop in cc in
    (tt, rw e (omega arith), subst (All (λ b. b < 256)) e o)
hex_loop_sound out (x ∷ []) r l o h = absurd (omega arith)
hex_loop_sound out (x ∷ y ∷ s) r l o h = elim (hex_pair-cases x y) [
  | inl e ↦ let bad : none ≡ some r = unfold hex_loop in (rw (e, hex_loop) at h) in cc
  | inr (b, e, fits, hx, hy) ↦
      let ih =
        hex_loop_sound (push out b) s r (omega arith)
          (All-append (λ b. b < 256) out (b ∷ []) o (fits, tt))
          (unfold hex_loop in (rw (e, hex_loop) at h)) in
      ((hx, (hy, ih.0)), omega (arith, ih.1, length-append out (b ∷ [])), ih.2)
]

hex_pair-some :
    (x y : ℕ) → IsHex x → IsHex y → (b : ℕ) × (hex_pair (hex_val x) (hex_val y) ≡ some b)
hex_pair-some x y (v, e) (w, f) = (v * 16 + w, rw (e, f) (unfold hex_pair in refl))

hex_loop_complete : (out s : List ℕ) → All IsHex s → (r : List ℕ) × (hex_loop out s ≡ some r)
hex_loop_complete out [] h = (out, unfold hex_loop in refl)
hex_loop_complete out (x ∷ []) h = (out, unfold hex_loop in refl)
hex_loop_complete out (x ∷ y ∷ s) h =
    let (b, e) = hex_pair-some x y h.0 h.1.0 in
    let (r, f) = hex_loop_complete (push out b) s h.1.1 in (r, step out x y s b e ∙ f)
  where
    step :
        (out : List ℕ) (x y : ℕ) (s : List ℕ) (b : ℕ)
        → hex_pair (hex_val x) (hex_val y) ≡ some b
        → hex_loop out (x ∷ y ∷ s) ≡ hex_loop (push out b) s
    step out x y s b e = unfold hex_loop in rw (e, hex_loop)

-- `hex_decode_32` returns a value exactly for 64 hexadecimal digits.
pub hex_decode_32_iff :
    (s : List ℕ) → ((r : List ℕ) × (hex_decode_32 s ≡ some r)) ↔ ((length s ≡ 64) × All IsHex s)
unfolding hex_decode_32
hex_decode_32_iff s = (
  λ (r, h). (ground arith, (hex_loop_sound [] s r (ground arith) tt (ground arith)).0),
  λ (l, h). let (r, e) = hex_loop_complete [] s h in (r, ground (arith, e)),
)

-- What `hex_decode_32` returns has 32 bytes.
pub hex_decode_32_bytes :
    (s r : List ℕ) → hex_decode_32 s ≡ some r → (length r ≡ 32) × All (λ b. b < 256) r
unfolding hex_decode_32
hex_decode_32_bytes s r h =
    let l : length s ≡ 64 = ground arith in
    let f = hex_loop_sound [] s r (omega arith) tt (ground arith) in (omega (arith, f.1), f.2)

module _ (c : Crypto) where
  hex_loop-hex_encode :
      (out x : List ℕ) → All (λ b. b < 256) x → hex_loop out (c.hex_encode x) ≡ some (out ++ x)
  hex_loop-hex_encode out [] h =
      rw (c.hex_encode-nil) (unfold hex_loop in ap some (sym (append-nil out)))
  hex_loop-hex_encode out (b ∷ x) h =
      let e : hex_pair (hex_val (hex_digit (b / 16))) (hex_val (hex_digit (b % 16))) ≡ some b =
        rw (hex_val-hex_digit (b / 16) (omega arith), hex_val-hex_digit (b % 16) (omega arith))
          (unfold hex_pair in ap some (omega arith)) in
      let ih = hex_loop-hex_encode (push out b) x h.1 in
      let first : hex_loop out (hex_digit (b / 16) ∷ hex_digit (b % 16) ∷ c.hex_encode x)
          ≡ hex_loop (push out b) (c.hex_encode x) =
        unfold hex_loop in rw (e, hex_loop) in
      rw (c.hex_encode-cons b x) (first ∙ ih ∙ ap some (append_assoc out (b ∷ []) x))

  pub length-hex_encode : (x : List ℕ) → length (c.hex_encode x) ≡ 2 * length x
  length-hex_encode [] = rw (c.hex_encode-nil) (omega arith)
  length-hex_encode (b ∷ x) = rw (c.hex_encode-cons b x) (omega (arith, length-hex_encode x))

  pub hex_encode-ne_sep : (x : List ℕ) → All (λ b. b < 256) x → All (λ b. b ≢ 0x7C) (c.hex_encode x)
  hex_encode-ne_sep [] h = rw (c.hex_encode-nil) tt
  hex_encode-ne_sep (b ∷ x) h = rw (c.hex_encode-cons b x) (
    hex_digit-ne_sep (b / 16) (omega arith),
    (hex_digit-ne_sep (b % 16) (omega arith), hex_encode-ne_sep x h.1),
  )

  -- Decoding the hexadecimal text of 32 bytes gives the bytes back.
  pub hex_decode_32-hex_encode :
      (x : List ℕ) → length x ≡ 32 → All (λ b. b < 256) x → hex_decode_32 (c.hex_encode x) ≡ some x
  unfolding hex_decode_32
  hex_decode_32-hex_encode x l h =
      let n : (length (c.hex_encode x) == 64) ≡ true = ground (arith, length-hex_encode x) in
      rw n (hex_loop-hex_encode [] x h)
