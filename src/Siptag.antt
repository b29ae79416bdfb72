-- ===== src/Siptag.antt =====
-- The tag of a measurement: `sipround`, `absorb` and `siptag` of verified/src/lib.rs, on words of 64
-- bits.
pub mod Rounds
pub mod Packing
use vpma.Prelude.{ℕ, ◌+◌, ◌*◌, ◌/◌, ◌%◌, ◌^◌, bit_or, bit_xor}

-- The four words of the state.
pub record State : Type 0 where
  pub v0 : ℕ
  pub v1 : ℕ
  pub v2 : ℕ
  pub v3 : ℕ

abbrev pub wrapping_add : ℕ → ℕ → ℕ
wrapping_add a b = (a + b) % 2 ^ 64

unfoldable pub sipround : State → State
sipround v =
    let a0 = wrapping_add v.v0 v.v1 in
    let b1 = bit_xor (bit_or (v.v1 * 2 ^ 13 % 2 ^ 64) (v.v1 / 2 ^ 51)) a0 in
    let a0r = bit_or (a0 * 2 ^ 32 % 2 ^ 64) (a0 / 2 ^ 32) in
    let a2 = wrapping_add v.v2 v.v3 in
    let b3 = bit_xor (bit_or (v.v3 * 2 ^ 16 % 2 ^ 64) (v.v3 / 2 ^ 48)) a2 in
    let c0 = wrapping_add a0r b3 in
    let d3 = bit_xor (bit_or (b3 * 2 ^ 21 % 2 ^ 64) (b3 / 2 ^ 43)) c0 in
    let c2 = wrapping_add a2 b1 in
    let d1 = bit_xor (bit_or (b1 * 2 ^ 17 % 2 ^ 64) (b1 / 2 ^ 47)) c2 in
    let c2r = bit_or (c2 * 2 ^ 32 % 2 ^ 64) (c2 / 2 ^ 32) in
    record { v0 = c0; v1 = d1; v2 = c2r; v3 = d3 }

unfoldable pub absorb : State → ℕ → State
absorb v m =
    let a = sipround (record v { v3 = bit_xor v.v3 m }) in
    let b = sipround a in record b { v0 = bit_xor b.v0 m }

-- What is tagged.
pub record Measurement : Type 0 where
  pub energy_uj : ℕ
  pub timestamp_ns : ℕ
  pub unit_id : ℕ
  pub domain_id : ℕ
  pub version : ℕ
  pub producer : ℕ
  pub key_epoch : ℕ

-- The words m2 and m3.
unfoldable pub ids_word : Measurement → ℕ
ids_word m = bit_or m.unit_id (m.domain_id * 2 ^ 32 % 2 ^ 64)

unfoldable pub origin_word : Measurement → ℕ
origin_word m =
    bit_or (bit_or m.version (m.producer * 2 ^ 16 % 2 ^ 64)) (m.key_epoch * 2 ^ 32 % 2 ^ 64)

unfoldable pub siptag : ℕ → ℕ → Measurement → ℕ
siptag k0 k1 m =
    let start : State = record {
      v0 = bit_xor 0x736f6d6570736575 k0;
      v1 = bit_xor 0x646f72616e646f6d k1;
      v2 = bit_xor 0x6c7967656e657261 k0;
      v3 = bit_xor 0x7465646279746573 k1;
    } in
    let s0 = absorb start m.energy_uj in
    let s1 = absorb s0 m.timestamp_ns in
    let s2 = absorb s1 (ids_word m) in
    let s3 = absorb s2 (origin_word m) in
    let s4 = absorb s3 0x2000000000000000 in
    let f0 = sipround (record s4 { v2 = bit_xor s4.v2 0xff }) in
    let f1 = sipround f0 in
    let f2 = sipround f1 in
    let f3 = sipround f2 in bit_xor (bit_xor (bit_xor f3.v0 f3.v1) f3.v2) f3.v3
