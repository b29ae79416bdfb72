-- ===== src/Text/Numbers.antt =====
-- Decimal texts: what `parse_u64_dec` returns, and that it undoes the printing of a `u64`.
use vpma.Prelude.{
  ℕ, zero, suc, ◌+◌, ◌-◌, ◌*◌, ◌/◌, ◌%◌, ◌^◌, ◌≤◌, ◌<◌, ◌≡◌, ◌≢◌, sym, ap, ◌∙◌, false, none, some,
  List, [], ◌∷◌, ◌++◌, arith, ltb, ◌==◌, if◌then◌else◌, length, length-append, All, All-append,
  Bool-cases, Option-cases, inl, inr,
}
use native.Mathlib.Nat.{pow-suc}
use vpma.Text.{dec_step, dec_loop, parse_u64_dec}

-- The number that decimal digits stand for.
abbrev pub from_dec : ℕ → List ℕ → ℕ
from_dec acc [] = acc
from_dec acc (x ∷ s) = from_dec (acc * 10 + (x - 0x30)) s

abbrev pub IsDigit : ℕ → Type 0
IsDigit x = (0x30 ≤ x) × (x ≤ 0x39)

dec_step_sound :
    (acc x r : ℕ) → dec_step acc x ≡ some r → IsDigit x × (r ≡ acc * 10 + (x - 0x30)) × (r < 2 ^ 64)
unfolding dec_step
dec_step_sound acc x r h = (ground arith, ground arith, ground arith)

dec_step_complete :
    (acc x : ℕ)
    → IsDigit x
    → acc * 10 + (x - 0x30) < 2 ^ 64
    → dec_step acc x ≡ some (acc * 10 + (x - 0x30))
unfolding dec_step
dec_step_complete acc x d h = ground arith

dec_loop_sound :
    (acc : ℕ) (s : List ℕ) (r : ℕ)
    → acc < 2 ^ 64
    → dec_loop acc s ≡ some r
    → All IsDigit s × (r ≡ from_dec acc s) × (r < 2 ^ 64)
dec_loop_sound acc [] r b h =
    let e : acc ≡ r = unfold dec_loop in cc in (tt, sym e, omega (arith, e))
dec_loop_sound acc (x ∷ s) r b h = elim (Option-cases (dec_step acc x)) [
  | inl e ↦ let bad : none ≡ some r = unfold dec_loop in (rw (e, dec_loop) at h) in cc
  | inr (a, e) ↦
      let (d, v, f) = dec_step_sound acc x a e in
      let ih = dec_loop_sound a s r f (unfold dec_loop in (rw (e, dec_loop) at h)) in
      ((d, ih.0), ih.1 ∙ ap (λ k. from_dec k s) v, ih.2)
]

-- Whatever `parse_u64_dec` returns is the value of 1 to 20 decimal digits, and below 2^64.
pub parse_u64_dec_sound :
    (s : List ℕ) (r : ℕ)
    → parse_u64_dec s ≡ some r
    → (0 < length s) × (length s ≤ 20) × All IsDigit s × (r ≡ from_dec 0 s) × (r < 2 ^ 64)
unfolding parse_u64_dec
parse_u64_dec_sound s r h =
    let f = dec_loop_sound 0 s r (omega arith) (ground arith) in
    (ground arith, ground arith, f.0, f.1, f.2)

-- `format!("{}", n)`: decimal digits, the highest first, no leading zero.
unfoldable pub show_dec : ℕ → ℕ → List ℕ
show_dec zero n = []
show_dec (suc fuel) n =
    let rest = show_dec fuel (n / 10) in
    if ltb n 10 then (0x30 + n) ∷ [] else rest ++ ((0x30 + n % 10) ∷ [])

-- A `u64` has at most 20 digits.
unfoldable pub show_u64 : ℕ → List ℕ
show_u64 n = show_dec 20 n

show_dec-IsDigit : (f n : ℕ) → All IsDigit (show_dec f n)
show_dec-IsDigit zero n = unfold show_dec in tt
show_dec-IsDigit (suc f) n = digits f n (show_dec-IsDigit f (n / 10))
  where
    digits : (f n : ℕ) → All IsDigit (show_dec f (n / 10)) → All IsDigit (show_dec (suc f) n)
    digits f n ih = elim (Bool-cases (ltb n 10)) [
      | inl t ↦ unfold show_dec in rw t (ground arith)
      | inr t ↦
          unfold show_dec in
          rw t (All-append IsDigit (show_dec f (n / 10)) ((0x30 + n % 10) ∷ []) ih (omega arith))
    ]

length-show_dec : (f n : ℕ) → length (show_dec f n) ≤ f
unfolding show_dec
length-show_dec zero n = omega arith
length-show_dec (suc f) n =
    ground (
      arith,
      length-show_dec f (n / 10),
      length-append (show_dec f (n / 10)) ((0x30 + n % 10) ∷ []),
    )

show_dec-pos : (f n : ℕ) → 0 < length (show_dec (suc f) n)
unfolding show_dec
show_dec-pos f n = ground (arith, length-append (show_dec f (n / 10)) ((0x30 + n % 10) ∷ []))

dec_loop-append :
    (a : ℕ) (s t : List ℕ) (b : ℕ) → dec_loop a s ≡ some b → dec_loop a (s ++ t) ≡ dec_loop b t
dec_loop-append a [] t b h = let e : a ≡ b = unfold dec_loop in cc in ap (λ k. dec_loop k t) e
dec_loop-append a (x ∷ s) t b h = elim (Option-cases (dec_step a x)) [
  | inl e ↦ let bad : none ≡ some b = unfold dec_loop in (rw (e, dec_loop) at h) in cc
  | inr (a', e) ↦
      let ih = dec_loop-append a' s t b (unfold dec_loop in (rw (e, dec_loop) at h)) in
      first a x (s ++ t) a' e ∙ ih
]
  where
    first :
        (a x : ℕ) (s : List ℕ) (a' : ℕ)
        → dec_step a x ≡ some a'
        → dec_loop a (x ∷ s) ≡ dec_loop a' s
    first a x s a' e = unfold dec_loop in rw (e, dec_loop)

-- The digits of a number below 10^f, read back.
dec_loop-show_dec : (f n : ℕ) → n < 10 ^ f → n < 2 ^ 64 → dec_loop 0 (show_dec f n) ≡ some n
dec_loop-show_dec zero n h u = unfold show_dec dec_loop in ap some (omega arith)
dec_loop-show_dec (suc f) n h u =
    last f n u (dec_loop-show_dec f (n / 10) (omega (arith, pow-suc 10 f)) (omega arith))
  where
    last :
        (f n : ℕ)
        → n < 2 ^ 64
        → dec_loop 0 (show_dec f (n / 10)) ≡ some (n / 10)
        → dec_loop 0 (show_dec (suc f) n) ≡ some n
    last f n u ih = elim (Bool-cases (ltb n 10)) [
      | inl t ↦
          let e : dec_step 0 (0x30 + n) ≡ some n =
            dec_step_complete 0 (0x30 + n) (ground arith) (omega arith) ∙ ap some (omega arith) in
          unfold show_dec in rw t (unfold dec_loop in rw (e, dec_loop))
      | inr t ↦
          let e : dec_step (n / 10) (0x30 + n % 10) ≡ some n =
            dec_step_complete (n / 10) (0x30 + n % 10) (omega arith) (omega arith)
            ∙ ap some (omega arith) in
          let one : dec_loop (n / 10) ((0x30 + n % 10) ∷ []) ≡ some n =
            unfold dec_loop in rw (e, dec_loop) in
          unfold show_dec in
          rw t (dec_loop-append 0 (show_dec f (n / 10)) ((0x30 + n % 10) ∷ []) (n / 10) ih ∙ one)
    ]

-- Parsing the decimal text of a `u64` gives the number back.
pub parse_u64_dec-show_u64 : (n : ℕ) → n < 2 ^ 64 → parse_u64_dec (show_u64 n) ≡ some n
unfolding parse_u64_dec show_u64
parse_u64_dec-show_u64 n h =
    let p : (length (show_dec 20 n) == 0) ≡ false = ground (arith, show_dec-pos 19 n) in
    let q : ltb 20 (length (show_dec 20 n)) ≡ false = ground (arith, length-show_dec 20 n) in
    rw (p, q) (dec_loop-show_dec 20 n (omega arith) h)

pub show_u64-ne_sep : (n : ℕ) → All (λ b. b ≢ 0x7C) (show_u64 n)
unfolding show_u64
show_u64-ne_sep n = none_is (show_dec 20 n) (show_dec-IsDigit 20 n)
  where
    none_is : (s : List ℕ) → All IsDigit s → All (λ b. b ≢ 0x7C) s
    none_is [] h = tt
    none_is (x ∷ s) h = (omega arith, none_is s h.1)
