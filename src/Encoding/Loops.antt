-- ===== src/Encoding/Loops.antt =====
-- The executable encoders push what their specifications concatenate.
use vpma.Prelude.{ℕ, ◌%◌, ◌^◌, ◌≡◌, ◌∙◌, List, [], ◌∷◌, ◌++◌, append-nil, append_assoc, length}
use vpma.Encoding.{
  spec_u32_le, spec_u64_le, push_u32_le, push_u64_le, push_loop, push_len_prefixed,
  spec_encode_record, encode_record_fields, spec_encode_leaf, encode_leaf, spec_encode_internal,
  encode_internal, spec_encode_root, encode_root, spec_encode_chained_root, encode_chained_root,
  spec_encode_checkpoint_msg, encode_checkpoint_msg,
}

push_u32_le_lem : (out : List ℕ) (v : ℕ) → push_u32_le out v ≡ out ++ spec_u32_le v
unfolding push_u32_le spec_u32_le
push_u32_le_lem out v = simp append_assoc

pub push_u64_le_lem : (out : List ℕ) (v : ℕ) → push_u64_le out v ≡ out ++ spec_u64_le v
unfolding push_u64_le spec_u64_le
push_u64_le_lem out v = simp append_assoc

pub push_loop_lem : (out field : List ℕ) → push_loop out field ≡ out ++ field
unfolding push_loop
push_loop_lem out [] = simp append-nil
push_loop_lem out (b ∷ rest) = push_loop_lem (out ++ (b ∷ [])) rest ∙ append_assoc out (b ∷ []) rest

push_len_prefixed_lem :
    (out field : List ℕ)
    → push_len_prefixed out field ≡ out ++ (spec_u32_le (length field % 2 ^ 32) ++ field)
unfolding push_len_prefixed
push_len_prefixed_lem out field = simp (push_loop_lem, push_u32_le_lem, append_assoc)

ruleset push_laws =
    (push_u32_le_lem, push_u64_le_lem, push_loop_lem, push_len_prefixed_lem, append_assoc)

-- For all field values the record encoder pushes exactly the bytes of the specification.
pub encode_record_fields_lem :
    (pid cpu_bits energy_bits power_bits : ℕ) (vm_name timestamp : List ℕ)
    → encode_record_fields pid cpu_bits energy_bits power_bits vm_name timestamp
      ≡ spec_encode_record pid cpu_bits energy_bits power_bits vm_name timestamp
unfolding encode_record_fields spec_encode_record
encode_record_fields_lem pid cpu energy power vm ts = simp push_laws

pub encode_leaf_lem : (r : List ℕ) → encode_leaf r ≡ spec_encode_leaf r
unfolding encode_leaf spec_encode_leaf
encode_leaf_lem r = simp push_laws

pub encode_internal_lem : (l r : List ℕ) → encode_internal l r ≡ spec_encode_internal l r
unfolding encode_internal spec_encode_internal
encode_internal_lem l r = simp push_laws

pub encode_root_lem : (n : ℕ) (s : List ℕ) → encode_root n s ≡ spec_encode_root n s
unfolding encode_root spec_encode_root
encode_root_lem n s = simp push_laws

pub encode_chained_root_lem :
    (p m : List ℕ) → encode_chained_root p m ≡ spec_encode_chained_root p m
unfolding encode_chained_root spec_encode_chained_root
encode_chained_root_lem p m = simp push_laws

pub encode_checkpoint_msg_lem :
    (t : List ℕ) (n : ℕ) (c : List ℕ)
    → encode_checkpoint_msg t n c ≡ spec_encode_checkpoint_msg t n c
unfolding encode_checkpoint_msg spec_encode_checkpoint_msg
encode_checkpoint_msg_lem t n c = simp push_laws

-- For all inputs each of the five hash-input encoders (leaf, internal node, root, chained root and
-- checkpoint message) pushes exactly the bytes of its specification.
pub encoders_meet_specs :
    (a b : List ℕ) (n : ℕ)
    → (encode_leaf a ≡ spec_encode_leaf a)
      × (encode_internal a b ≡ spec_encode_internal a b)
      × (encode_root n b ≡ spec_encode_root n b)
      × (encode_chained_root a b ≡ spec_encode_chained_root a b)
      × (encode_checkpoint_msg a n b ≡ spec_encode_checkpoint_msg a n b)
encoders_meet_specs a b n = (
  encode_leaf_lem a,
  encode_internal_lem a b,
  encode_root_lem n b,
  encode_chained_root_lem a b,
  encode_checkpoint_msg_lem a n b,
)
