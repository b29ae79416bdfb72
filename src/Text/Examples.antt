-- ===== src/Text/Examples.antt =====
-- Tests of the parsers, and the theorems at concrete inputs.
use vpma.Prelude.{ℕ, ◌≡◌, refl, false, none, some, List, [], ◌∷◌}
use vpma.Text.{
  is_safe_label_byte, label_loop, is_valid_tenant_label, dec_step, dec_loop, parse_u64_dec,
  find_byte, find_loop,
}
use vpma.Text.Numbers.{show_u64, show_dec}

label_with_bar : is_valid_tenant_label (118 ∷ 0x7C ∷ 109 ∷ []) ≡ false
unfolding is_valid_tenant_label label_loop is_safe_label_byte
label_with_bar = refl

largest_u64 : parse_u64_dec (show_u64 18446744073709551615) ≡ some 18446744073709551615
unfolding parse_u64_dec dec_loop dec_step show_u64 show_dec
largest_u64 = refl

-- 2^64 does not fit.
too_large :
    parse_u64_dec (
      0x31 ∷ 0x38 ∷ 0x34 ∷ 0x34 ∷ 0x36 ∷ 0x37 ∷ 0x34 ∷ 0x34 ∷ 0x30 ∷ 0x37 ∷ 0x33 ∷ 0x37 ∷ 0x30
      ∷ 0x39 ∷ 0x35 ∷ 0x35 ∷ 0x31 ∷ 0x36 ∷ 0x31 ∷ 0x36 ∷ [])
    ≡ none
unfolding parse_u64_dec dec_loop dec_step
too_large = refl

second_space : find_byte (1 ∷ 32 ∷ 2 ∷ 32 ∷ []) 32 2 ≡ some 3
unfolding find_byte find_loop
second_space = refl

-- `vm`
abbrev vm : List ℕ
vm = 0x76 ∷ 0x6D ∷ []

abbrev forty_two : List ℕ
forty_two = 0x34 ∷ 0x32 ∷ []

parse_forty_two : parse_u64_dec forty_two ≡ some 42
unfolding parse_u64_dec dec_loop dec_step
parse_forty_two = refl
