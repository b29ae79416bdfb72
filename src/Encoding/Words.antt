-- ===== src/Encoding/Words.antt =====
-- The little-endian words: they fit their lengths, are bytes, and determine the number.
use vpma.Prelude.{
  ℕ, ◌+◌, ◌*◌, ◌/◌, ◌%◌, ◌^◌, ◌<◌, ◌≡◌, refl, ap, List, [], ◌∷◌, arith, bit_and_255, length,
}
use vpma.Encoding.{low_byte, spec_u32_le, spec_u64_le}

pub low_byte_lem : (v : ℕ) → low_byte v ≡ v % 256
unfolding low_byte
low_byte_lem v = omega (arith, bit_and_255 v)

-- The number that four or eight bytes stand for, low byte first.
abbrev pub from_le : List ℕ → ℕ
from_le [] = 0
from_le (b ∷ bs) = b + 256 * from_le bs

pub from_le-spec_u32_le : (v : ℕ) → v < 2 ^ 32 → from_le (spec_u32_le v) ≡ v
unfolding spec_u32_le
from_le-spec_u32_le v h = omega (
  arith,
  low_byte_lem v,
  low_byte_lem (v / 2 ^ 8),
  low_byte_lem (v / 2 ^ 16),
  low_byte_lem (v / 2 ^ 24),
)

pub from_le-spec_u64_le : (v : ℕ) → v < 2 ^ 64 → from_le (spec_u64_le v) ≡ v
unfolding spec_u64_le
from_le-spec_u64_le v h = omega (
  arith,
  low_byte_lem v,
  low_byte_lem (v / 2 ^ 8),
  low_byte_lem (v / 2 ^ 16),
  low_byte_lem (v / 2 ^ 24),
  low_byte_lem (v / 2 ^ 32),
  low_byte_lem (v / 2 ^ 40),
  low_byte_lem (v / 2 ^ 48),
  low_byte_lem (v / 2 ^ 56),
)

pub length-spec_u32_le : (v : ℕ) → length (spec_u32_le v) ≡ 4
unfolding spec_u32_le
length-spec_u32_le v = refl

pub length-spec_u64_le : (v : ℕ) → length (spec_u64_le v) ≡ 8
unfolding spec_u64_le
length-spec_u64_le v = refl

pub spec_u32_le-injective :
    (a b : ℕ) → a < 2 ^ 32 → b < 2 ^ 32 → spec_u32_le a ≡ spec_u32_le b → a ≡ b
spec_u32_le-injective a b p q e =
    omega (arith, from_le-spec_u32_le a p, from_le-spec_u32_le b q, ap from_le e)

pub spec_u64_le-injective :
    (a b : ℕ) → a < 2 ^ 64 → b < 2 ^ 64 → spec_u64_le a ≡ spec_u64_le b → a ≡ b
spec_u64_le-injective a b p q e =
    omega (arith, from_le-spec_u64_le a p, from_le-spec_u64_le b q, ap from_le e)
