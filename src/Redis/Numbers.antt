-- ===== src/Redis/Numbers.antt =====
-- The decimal text of an i64 is read back by `parse_i64`.
use vpma.Prelude.{
  ℕ, suc, ◌+◌, ◌-◌, ◌*◌, ◌^◌, ◌<◌, ◌≡◌, ◌≢◌, refl, true, false, ◌&&◌, some, [], ◌∷◌, arith, ltb,
  leb, ◌==◌, ℤ, pos, negsuc, length, All,
}
use vpma.Text.Numbers.{from_dec, IsDigit, show_u64, parse_u64_dec-show_u64, parse_u64_dec_sound}
use vpma.Exporter.{Text}
use vpma.Redis.{digit_loop, below, digits_below, positive, negative, parse_i64}

-- `to_string` on an i64.
unfoldable pub show_i64 : ℤ → Text
show_i64 (pos n) = show_u64 n
show_i64 (negsuc n) = 45 ∷ show_u64 (n + 1)

abbrev pub IsI64 : ℤ → Type 0
IsI64 (pos n) = n < 2 ^ 63
IsI64 (negsuc n) = n < 2 ^ 63

digit_loop_lem : (acc : ℕ) (s : Text) → All IsDigit s → digit_loop acc s ≡ some (from_dec acc s)
unfolding digit_loop
digit_loop_lem acc [] h = refl
digit_loop_lem acc (b ∷ bs) h =
    let digit : (leb 48 b && leb b 57) ≡ true = ground (arith, h.0) in
    rw digit (digit_loop_lem (acc * 10 + (b - 48)) bs h.1)

-- A text of digits that has a value.
abbrev pub IsNumber : ℕ → Text → Type 0
IsNumber n s = (0 < length s) × All IsDigit s × (n ≡ from_dec 0 s)

pub show_u64-IsNumber : (n : ℕ) → n < 2 ^ 64 → IsNumber n (show_u64 n)
show_u64-IsNumber n small =
    let (nonempty, short, digits, value, bound) =
      parse_u64_dec_sound (show_u64 n) n (parse_u64_dec-show_u64 n small) in
    (nonempty, digits, value)

pub digits_below_lem :
    (limit n : ℕ) (s : Text) → IsNumber n s → n < limit → digits_below limit s ≡ some n
unfolding digits_below below
digits_below_lem limit n [] (nonempty, digits, value) l = absurd (omega (arith, nonempty))
digits_below_lem limit n (b ∷ bs) (nonempty, digits, value) l =
    let small : ltb n limit ≡ true = ground (arith, l) in
    rw (digit_loop_lem 0 (b ∷ bs) digits, ← value, small) refl

parse_digits : (n : ℕ) (s : Text) → IsNumber n s → n < 2 ^ 63 → parse_i64 s ≡ some (pos n)
unfolding parse_i64 positive
parse_digits n [] (nonempty, digits, value) l = absurd (omega (arith, nonempty))
parse_digits n (b ∷ bs) (nonempty, digits, value) l =
    let no_minus : (b == 45) ≡ false = ground (arith, digits) in
    let no_plus : (b == 43) ≡ false = ground (arith, digits) in
    rw (no_minus, no_plus, digits_below_lem (2 ^ 63) n (b ∷ bs) (nonempty, digits, value) l) refl

pub parse_i64-show_i64 : (i : ℤ) → IsI64 i → parse_i64 (show_i64 i) ≡ some i
unfolding show_i64
parse_i64-show_i64 (pos n) small =
    parse_digits n (show_u64 n) (show_u64-IsNumber n (omega (arith, small))) small
parse_i64-show_i64 (negsuc n) small =
    let read =
      digits_below_lem (2 ^ 63 + 1) (n + 1) (show_u64 (n + 1))
        (show_u64-IsNumber (n + 1) (omega (arith, small))) (omega (arith, small)) in
    let next : n + 1 ≡ suc n = omega arith in
    unfold parse_i64 in rw (read, next) (unfold negative in refl)

digits_plain : (s : Text) → All IsDigit s → All (λ b. b < 128) s × All (λ b. b ≢ 13) s
digits_plain [] h = (tt, tt)
digits_plain (b ∷ bs) h =
    let (small, other) = digits_plain bs h.1 in
    ((omega (arith, h.0), small), (omega (arith, h.0), other))

-- The text is ASCII and has no carriage return.
pub show_i64-ascii :
    (i : ℤ) → IsI64 i → All (λ b. b < 128) (show_i64 i) × All (λ b. b ≢ 13) (show_i64 i)
unfolding show_i64
show_i64-ascii (pos n) small =
    digits_plain (show_u64 n) (show_u64-IsNumber n (omega (arith, small))).1
show_i64-ascii (negsuc n) small =
    let (ascii, other) =
      digits_plain (show_u64 (n + 1)) (show_u64-IsNumber (n + 1) (omega (arith, small))).1 in
    ((omega arith, ascii), (omega arith, other))
