-- ===== src/Encoding/Examples.antt =====
-- Tests of the encoders, and the theorems at concrete inputs.
use vpma.Prelude.{◌≡◌, refl, [], ◌∷◌, arith}
use vpma.Encoding.{
  low_byte, push_u32_le, push_u64_le, push_loop, push_len_prefixed, encode_record_fields,
}
use vpma.Encoding.Fields.{Fields, SameFields, encode-injective}

short_record :
    encode_record_fields 258 1 2 3 (118 ∷ 109 ∷ []) (116 ∷ [])
    ≡ 2 ∷ 2 ∷ 1 ∷ 0 ∷ 0 ∷ 1 ∷ 0 ∷ 0 ∷ 0 ∷ 0 ∷ 0 ∷ 0 ∷ 0 ∷ 2 ∷ 0 ∷ 0 ∷ 0 ∷ 0 ∷ 0 ∷ 0 ∷ 0 ∷ 3 ∷ 0 ∷ 0
      ∷ 0 ∷ 0 ∷ 0 ∷ 0 ∷ 0 ∷ 2 ∷ 0 ∷ 0 ∷ 0 ∷ 118 ∷ 109 ∷ 1 ∷ 0 ∷ 0 ∷ 0 ∷ 116 ∷ []
unfolding encode_record_fields push_u32_le push_u64_le push_len_prefixed push_loop low_byte
short_record = refl

abbrev sample : Fields
sample = record {
  pid = 258;
  cpu_bits = 1;
  energy_bits = 2;
  power_bits = 3;
  vm_name = 118 ∷ 109 ∷ [];
  timestamp = 116 ∷ [];
  pid_fits = omega arith;
  cpu_fits = omega arith;
  energy_fits = omega arith;
  power_fits = omega arith;
  vm_name_fits = omega arith;
  timestamp_fits = omega arith;
}

encode-injective_example : SameFields sample sample
encode-injective_example = encode-injective sample sample refl
