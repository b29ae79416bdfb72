-- ===== src/Encoding.antt =====
-- verified/src/lib.rs: the byte encodings that are hashed, and their specifications. A `Vec<u8>`
-- that is pushed to is passed and returned; a `Seq<u8>` of a specification is a list too.
pub mod Words
pub mod Loops
pub mod Fields
pub mod Domains
mod Examples
use vpma.Prelude.{
  ℕ, ◌+◌, ◌/◌, ◌%◌, ◌^◌, bit_and, Bool, false, List, [], ◌∷◌, ◌++◌, ◌||◌, ◌&&◌, ◌==◌, leb, ltb,
  if◌then◌else◌, length, push,
}

abbrev pub domain_leaf : ℕ
domain_leaf = 0x00

abbrev pub domain_internal : ℕ
domain_internal = 0x01

abbrev pub domain_root : ℕ
domain_root = 0x02

abbrev pub domain_chain : ℕ
domain_chain = 0x03

abbrev pub record_format_v2 : ℕ
record_format_v2 = 0x02

-- (v & 0xff) as u8
pub low_byte : ℕ → ℕ
low_byte v = bit_and v 0xff % 256

unfoldable pub spec_u32_le : ℕ → List ℕ
spec_u32_le v =
    low_byte v ∷ low_byte (v / 2 ^ 8) ∷ low_byte (v / 2 ^ 16) ∷ low_byte (v / 2 ^ 24) ∷ []

unfoldable pub spec_u64_le : ℕ → List ℕ
spec_u64_le v =
    low_byte v
    ∷ low_byte (v / 2 ^ 8)
    ∷ low_byte (v / 2 ^ 16)
    ∷ low_byte (v / 2 ^ 24)
    ∷ low_byte (v / 2 ^ 32)
    ∷ low_byte (v / 2 ^ 40)
    ∷ low_byte (v / 2 ^ 48)
    ∷ low_byte (v / 2 ^ 56)
    ∷ []

unfoldable pub push_u32_le : List ℕ → ℕ → List ℕ
push_u32_le out v =
    let out = push out (low_byte v) in
    let out = push out (low_byte (v / 2 ^ 8)) in
    let out = push out (low_byte (v / 2 ^ 16)) in push out (low_byte (v / 2 ^ 24))

unfoldable pub push_u64_le : List ℕ → ℕ → List ℕ
push_u64_le out v =
    let out = push out (low_byte v) in
    let out = push out (low_byte (v / 2 ^ 8)) in
    let out = push out (low_byte (v / 2 ^ 16)) in
    let out = push out (low_byte (v / 2 ^ 24)) in
    let out = push out (low_byte (v / 2 ^ 32)) in
    let out = push out (low_byte (v / 2 ^ 40)) in
    let out = push out (low_byte (v / 2 ^ 48)) in push out (low_byte (v / 2 ^ 56))

-- `while i < field.len() { out.push(field[i]); i = i + 1; }`: the list is what `i` has not reached.
unfoldable pub push_loop : List ℕ → List ℕ → List ℕ
push_loop out [] = out
push_loop out (b ∷ rest) = push_loop (push out b) rest

unfoldable pub push_len_prefixed : List ℕ → List ℕ → List ℕ
push_len_prefixed out field = push_loop (push_u32_le out (length field % 2 ^ 32)) field

unfoldable pub spec_encode_record : ℕ → ℕ → ℕ → ℕ → List ℕ → List ℕ → List ℕ
spec_encode_record pid cpu_bits energy_bits power_bits vm_name timestamp =
    (record_format_v2 ∷ [])
    ++ (spec_u32_le pid
        ++ (spec_u64_le cpu_bits
            ++ (spec_u64_le energy_bits
                ++ (spec_u64_le power_bits
                    ++ (spec_u32_le (length vm_name % 2 ^ 32)
                        ++ (vm_name ++ (spec_u32_le (length timestamp % 2 ^ 32) ++ timestamp)))))))

unfoldable pub encode_record_fields : ℕ → ℕ → ℕ → ℕ → List ℕ → List ℕ → List ℕ
encode_record_fields pid cpu_bits energy_bits power_bits vm_name timestamp =
    let out = push [] record_format_v2 in
    let out = push_u32_le out pid in
    let out = push_u64_le out cpu_bits in
    let out = push_u64_le out energy_bits in
    let out = push_u64_le out power_bits in
    let out = push_len_prefixed out vm_name in push_len_prefixed out timestamp

unfoldable pub spec_encode_leaf : List ℕ → List ℕ
spec_encode_leaf record_bytes = (domain_leaf ∷ []) ++ record_bytes

unfoldable pub spec_encode_internal : List ℕ → List ℕ → List ℕ
spec_encode_internal left right = (domain_internal ∷ []) ++ (left ++ right)

unfoldable pub spec_encode_root : ℕ → List ℕ → List ℕ
spec_encode_root leaf_count subtree_root =
    (domain_root ∷ []) ++ (spec_u64_le leaf_count ++ subtree_root)

unfoldable pub spec_encode_chained_root : List ℕ → List ℕ → List ℕ
spec_encode_chained_root prev merkle = (domain_chain ∷ []) ++ (prev ++ merkle)

unfoldable pub encode_leaf : List ℕ → List ℕ
encode_leaf record_bytes = push_loop (push [] domain_leaf) record_bytes

unfoldable pub encode_internal : List ℕ → List ℕ → List ℕ
encode_internal left right =
    let out = push_loop (push [] domain_internal) left in push_loop out right

unfoldable pub encode_root : ℕ → List ℕ → List ℕ
encode_root leaf_count subtree_root =
    let out = push_u64_le (push [] domain_root) leaf_count in push_loop out subtree_root

unfoldable pub encode_chained_root : List ℕ → List ℕ → List ℕ
encode_chained_root prev merkle =
    let out = push_loop (push [] domain_chain) prev in push_loop out merkle

-- b"checkpoint-v1"
abbrev pub anchor_tag_bytes : List ℕ
anchor_tag_bytes =
    0x63 ∷ 0x68 ∷ 0x65 ∷ 0x63 ∷ 0x6B ∷ 0x70 ∷ 0x6F ∷ 0x69 ∷ 0x6E ∷ 0x74 ∷ 0x2D ∷ 0x76 ∷ 0x31 ∷ []

unfoldable pub spec_encode_checkpoint_msg : List ℕ → ℕ → List ℕ → List ℕ
spec_encode_checkpoint_msg tenant block_number chained_root =
    (anchor_tag_bytes ++ (0x7C ∷ []))
    ++ (tenant ++ ((0x7C ∷ []) ++ (spec_u64_le block_number ++ chained_root)))

unfoldable pub encode_checkpoint_msg : List ℕ → ℕ → List ℕ → List ℕ
encode_checkpoint_msg tenant block_number chained_root =
    let out = push [] 0x63 in
    let out = push (push (push out 0x68) 0x65) 0x63 in
    let out = push (push (push (push out 0x6B) 0x70) 0x6F) 0x69 in
    let out = push (push (push (push out 0x6E) 0x74) 0x2D) 0x76 in
    let out = push (push out 0x31) 0x7C in
    let out = push_loop out tenant in
    let out = push_u64_le (push out 0x7C) block_number in push_loop out chained_root
