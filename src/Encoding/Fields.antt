-- ===== src/Encoding/Fields.antt =====
-- A record's encoding determines its fields: no two records share their bytes.
use vpma.Prelude.{ℕ, ◌%◌, ◌^◌, ◌<◌, ◌≡◌, refl, List, [], ◌∷◌, ◌++◌, arith, length, append-split}
use vpma.Encoding.{
  record_format_v2, spec_u32_le, spec_u64_le, spec_encode_record, encode_record_fields,
}
use vpma.Encoding.Words.{spec_u32_le-injective, spec_u64_le-injective}
use vpma.Encoding.Loops.{encode_record_fields_lem}

-- What `encode_record_fields` requires of its arguments, with the ranges of their machine types.
pub record Fields : Type 0 where
  pub pid : ℕ
  pub cpu_bits : ℕ
  pub energy_bits : ℕ
  pub power_bits : ℕ
  pub vm_name : List ℕ
  pub timestamp : List ℕ
  pub pid_fits : pid < 2 ^ 32
  pub cpu_fits : cpu_bits < 2 ^ 64
  pub energy_fits : energy_bits < 2 ^ 64
  pub power_fits : power_bits < 2 ^ 64
  pub vm_name_fits : length vm_name < 2 ^ 32
  pub timestamp_fits : length timestamp < 2 ^ 32

pub u32_split :
    (a b : ℕ) (xs ys : List ℕ)
    → a < 2 ^ 32
    → b < 2 ^ 32
    → spec_u32_le a ++ xs ≡ spec_u32_le b ++ ys
    → (a ≡ b) × (xs ≡ ys)
unfolding spec_u32_le
u32_split a b xs ys p q e =
    let s = append-split (spec_u32_le a) xs (spec_u32_le b) ys refl e in
    (spec_u32_le-injective a b p q s.0, s.1)

pub u64_split :
    (a b : ℕ) (xs ys : List ℕ)
    → a < 2 ^ 64
    → b < 2 ^ 64
    → spec_u64_le a ++ xs ≡ spec_u64_le b ++ ys
    → (a ≡ b) × (xs ≡ ys)
unfolding spec_u64_le
u64_split a b xs ys p q e =
    let s = append-split (spec_u64_le a) xs (spec_u64_le b) ys refl e in
    (spec_u64_le-injective a b p q s.0, s.1)

len_prefixed_split :
    (x xs y ys : List ℕ)
    → length x < 2 ^ 32
    → length y < 2 ^ 32
    → spec_u32_le (length x % 2 ^ 32) ++ (x ++ xs) ≡ spec_u32_le (length y % 2 ^ 32) ++ (y ++ ys)
    → (x ≡ y) × (xs ≡ ys)
len_prefixed_split x xs y ys p q e =
    let s = u32_split (length x % 2 ^ 32) (length y % 2 ^ 32) _ _ (omega arith) (omega arith) e in
    append-split x xs y ys (omega (arith, s.0)) s.1

timestamp_split :
    (x y : List ℕ)
    → length x < 2 ^ 32
    → length y < 2 ^ 32
    → spec_u32_le (length x % 2 ^ 32) ++ x ≡ spec_u32_le (length y % 2 ^ 32) ++ y
    → x ≡ y
timestamp_split x y p q e =
    (u32_split (length x % 2 ^ 32) (length y % 2 ^ 32) x y (omega arith) (omega arith) e).1

-- The encoded bytes of a field tuple.
abbrev pub encode : Fields → List ℕ
encode r = encode_record_fields r.pid r.cpu_bits r.energy_bits r.power_bits r.vm_name r.timestamp

abbrev bytes : Fields → List ℕ
bytes r = spec_encode_record r.pid r.cpu_bits r.energy_bits r.power_bits r.vm_name r.timestamp

abbrev pub SameFields : Fields → Fields → Type 0
SameFields a b =
    (a.pid ≡ b.pid)
    × (a.cpu_bits ≡ b.cpu_bits)
    × (a.energy_bits ≡ b.energy_bits)
    × (a.power_bits ≡ b.power_bits)
    × (a.vm_name ≡ b.vm_name)
    × (a.timestamp ≡ b.timestamp)

-- Two field tuples in range (a u32, three u64, two texts shorter than 2^32 bytes) with the same
-- encoded bytes have the same six fields.
pub encode-injective : (a b : Fields) → encode a ≡ encode b → SameFields a b
unfolding spec_encode_record
encode-injective a b e =
    let e0 : bytes a ≡ bytes b = cc (
      encode_record_fields_lem a.pid a.cpu_bits a.energy_bits a.power_bits a.vm_name a.timestamp,
      encode_record_fields_lem b.pid b.cpu_bits b.energy_bits b.power_bits b.vm_name b.timestamp,
    ) in
    let s0 = append-split (record_format_v2 ∷ []) _ (record_format_v2 ∷ []) _ refl e0 in
    let s1 = u32_split a.pid b.pid _ _ a.pid_fits b.pid_fits s0.1 in
    let s2 = u64_split a.cpu_bits b.cpu_bits _ _ a.cpu_fits b.cpu_fits s1.1 in
    let s3 = u64_split a.energy_bits b.energy_bits _ _ a.energy_fits b.energy_fits s2.1 in
    let s4 = u64_split a.power_bits b.power_bits _ _ a.power_fits b.power_fits s3.1 in
    let s5 = len_prefixed_split a.vm_name _ b.vm_name _ a.vm_name_fits b.vm_name_fits s4.1 in
    let s6 = timestamp_split a.timestamp b.timestamp a.timestamp_fits b.timestamp_fits s5.1 in
    (s1.0, s2.0, s3.0, s4.0, s5.0, s6)
