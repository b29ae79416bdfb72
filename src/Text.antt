-- ===== src/Text.antt =====
-- verified/src/lib.rs: the tests and parsers on byte slices. A `while` over a slice is a recursion
-- on what the index has not reached; where two slices are walked together the code has tested
-- their lengths first.
pub mod Tests
pub mod Numbers
pub mod Hex
mod Examples
use vpma.Prelude.{
  ℕ, zero, suc, ◌+◌, ◌-◌, ◌*◌, ◌/◌, ◌%◌, ◌^◌, bit_or, bit_xor, Bool, true, false, not, ◌&&◌, ◌||◌,
  Option, none, some, List, [], ◌∷◌, ◌++◌, ltb, leb, ◌==◌, if◌then◌else◌, length, get_or, drop,
  push,
}

abbrev pub max_tenant_label : ℕ
max_tenant_label = 64

unfoldable pub is_safe_label_byte : ℕ → Bool
is_safe_label_byte b =
    (leb 0x30 b && leb b 0x39)
    || (leb 0x41 b && leb b 0x5A)
    || (leb 0x61 b && leb b 0x7A)
    || b == 0x2E
    || b == 0x5F
    || b == 0x2D

unfoldable pub label_loop : List ℕ → Bool
label_loop [] = true
label_loop (b ∷ rest) = if not (is_safe_label_byte b) then false else label_loop rest

unfoldable pub is_valid_tenant_label : List ℕ → Bool
is_valid_tenant_label s =
    if length s == 0 || ltb max_tenant_label (length s) then false else label_loop s

unfoldable pub ascii_lower : ℕ → ℕ
ascii_lower b = if leb 0x41 b && leb b 0x5A then b + 32 else b

case_loop : List ℕ → List ℕ → Bool
case_loop (x ∷ a) (y ∷ b) = if not (ascii_lower x == ascii_lower y) then false else case_loop a b
case_loop _ _ = true

pub eq_ignore_ascii_case : List ℕ → List ℕ → Bool
eq_ignore_ascii_case a b = if not (length a == length b) then false else case_loop a b

unfoldable pub hex_val : ℕ → Option ℕ
hex_val c =
    if leb 0x30 c && leb c 0x39
    then some (c - 0x30)
    else if leb 0x61 c && leb c 0x66
    then some (c - 0x61 + 10)
    else if leb 0x41 c && leb c 0x46
    then some (c - 0x41 + 10)
    else none

-- `(hi, lo)` of one round: both digits, or nothing.
unfoldable pub hex_pair : Option ℕ → Option ℕ → Option ℕ
hex_pair (some h) (some l) = some (h * 16 + l)
hex_pair _ _ = none

-- Two digits a round, for `out.len()` rounds of `hex_decode_32` or to the end in `hex_decode`.
unfoldable pub hex_loop : List ℕ → List ℕ → Option (List ℕ)
hex_loop out (h ∷ l ∷ rest) = elim (hex_pair (hex_val h) (hex_val l)) [
  | none ↦ none
  | some b ↦ hex_loop (push out b) rest
]
hex_loop out _ = some out

-- `out[i] = h * 16 + l` fills the array of 32 from the left, in order.
unfoldable pub hex_decode_32 : List ℕ → Option (List ℕ)
hex_decode_32 s = if not (length s == 64) then none else hex_loop [] s

-- sgx/src/lib.rs: the same without the fixed length.
unfoldable pub hex_decode : List ℕ → Option (List ℕ)
hex_decode s = if not (length s % 2 == 0) then none else hex_loop [] s

all_hex_loop : List ℕ → Bool
all_hex_loop [] = true
all_hex_loop (c ∷ rest) = elim (hex_val c) [ none ↦ false | some v ↦ all_hex_loop rest ]

pub is_hex_of_len : List ℕ → ℕ → Bool
is_hex_of_len s n = if not (length s == n) then false else all_hex_loop s

-- One digit of `parse_u64_dec`: the new value, or nothing at a byte that is no digit and where
-- the value would pass 2^64 - 1.
unfoldable pub dec_step : ℕ → ℕ → Option ℕ
dec_step acc c =
    if ltb c 0x30 || ltb 0x39 c
    then none
    else if ltb ((2 ^ 64 - 1 - (c - 0x30)) / 10) acc
    then none
    else some (acc * 10 + (c - 0x30))

unfoldable pub dec_loop : ℕ → List ℕ → Option ℕ
dec_loop acc [] = some acc
dec_loop acc (c ∷ rest) = elim (dec_step acc c) [ none ↦ none | some acc' ↦ dec_loop acc' rest ]

unfoldable pub parse_u64_dec : List ℕ → Option ℕ
parse_u64_dec s = if length s == 0 || ltb 20 (length s) then none else dec_loop 0 s

unfoldable pub zero_loop : List ℕ → Bool
zero_loop [] = true
zero_loop (b ∷ rest) = if not (b == 0x30) then false else zero_loop rest

unfoldable pub is_zero_hash : List ℕ → Bool
is_zero_hash s = if length s == 0 then false else zero_loop s

unfoldable pub eq_loop : List ℕ → List ℕ → Bool
eq_loop (x ∷ a) (y ∷ b) = if not (x == y) then false else eq_loop a b
eq_loop _ _ = true

unfoldable pub slices_eq : List ℕ → List ℕ → Bool
slices_eq a b = if not (length a == length b) then false else eq_loop a b

-- `diff = diff | (x ^ y)` over the two arrays.
unfoldable pub diff_loop : ℕ → List ℕ → List ℕ → ℕ
diff_loop diff (x ∷ a) (y ∷ b) = diff_loop (bit_or diff (bit_xor x y)) a b
diff_loop diff _ _ = diff

unfoldable pub ct_eq_32 : List ℕ → List ℕ → Bool
ct_eq_32 a b = diff_loop 0 a b == 0

-- The loop of `find_byte` from index `i`, where the list starts.
unfoldable pub find_loop : ℕ → List ℕ → ℕ → Option ℕ
find_loop needle [] i = none
find_loop needle (b ∷ rest) i = if b == needle then some i else find_loop needle rest (i + 1)

unfoldable pub find_byte : List ℕ → ℕ → ℕ → Option ℕ
find_byte hay needle from = find_loop needle (drop from hay) from

-- `path` ends in `name`, as a whole or after a slash.
pub name_is : List ℕ → List ℕ → Bool
name_is path name =
    if length path == length name
    then slices_eq path name
    else if leb (length path) (length name)
    then false
    else let start = length path - length name in
      if not (get_or path (start - 1) 0 == 0x2F) then false else eq_loop (drop start path) name
