-- ===== src/Anchor.antt =====
-- The chain-head anchor: `parse_checkpoint_line` of verified/src/lib.rs, and `sign_checkpoint`,
-- `checkpoint_line` and `verify_checkpoint_line` of sgx_vm/src/checkpoint.rs. The master key that
-- the enclave derives for the label `anchor` is an argument. `str::trim` is modelled on ASCII white
-- space.
pub mod Parts
pub mod Lines
mod Examples
use vpma.Prelude.{
  ℕ, ◌+◌, ◌-◌, ◌<◌, Bool, true, false, not, ◌&&◌, ◌||◌, Option, none, some, List, [], ◌∷◌, ◌++◌,
  ltb, leb, ◌==◌, if◌then◌else◌, length, take, drop, push,
}
use vpma.Crypto.{Crypto}
use vpma.Encoding.{anchor_tag_bytes, encode_checkpoint_msg}
use vpma.Text.{slices_eq, ct_eq_32, parse_u64_dec, hex_decode_32}
use vpma.Text.Numbers.{show_u64}

pub record ParsedAnchor : Type 0 where
  pub block_number : ℕ
  pub root : List ℕ
  pub sig : List ℕ

-- The first loop: the positions of the separators, at most four.
pub sep_loop : ℕ → List ℕ → List ℕ → Option (List ℕ)
sep_loop i seps [] = some seps
sep_loop i seps (b ∷ rest) =
    let go_on = sep_loop (i + 1) (if b == 0x7C then push seps i else seps) rest in
    if b == 0x7C && leb 4 (length seps) then none else go_on

-- `slice_subrange`
pub slice : List ℕ → ℕ → ℕ → List ℕ
slice line from to = take (to - from) (drop from line)

infixl 5 ◌>>=◌
abbrev pub ◌>>=◌ {ℓ κ} : {A : Type ℓ} {B : Type κ} → Option A → (A → Option B) → Option B
none >>= f = none
some a >>= f = f a

-- The five fields, once the separators are known.
pub parse_fields : List ℕ → List ℕ → List ℕ → List ℕ → List ℕ → List ℕ → Option ParsedAnchor
parse_fields tenant f_tag f_tenant f_block f_root f_sig =
    if not (slices_eq f_tag anchor_tag_bytes)
    then none
    else if not (slices_eq f_tenant tenant)
    then none
    else do
      block_number ← parse_u64_dec f_block
      root ← hex_decode_32 f_root
      sig ← hex_decode_32 f_sig
      some (record { block_number = block_number; root = root; sig = sig })

-- `nsep != 4` is refused: the code's array has then not been filled.
pub split_line : List ℕ → List ℕ → List ℕ → Option ParsedAnchor
split_line line tenant (s0 ∷ s1 ∷ s2 ∷ s3 ∷ []) =
    if not (ltb s0 s1 && ltb s1 s2 && ltb s2 s3 && ltb s3 (length line))
    then none
    else parse_fields tenant (slice line 0 s0) (slice line (s0 + 1) s1) (slice line (s1 + 1) s2)
        (slice line (s2 + 1) s3) (slice line (s3 + 1) (length line))
split_line line tenant _ = none

pub parse_checkpoint_line : List ℕ → List ℕ → Option ParsedAnchor
parse_checkpoint_line line tenant = sep_loop 0 [] line >>= split_line line tenant

unfoldable pub is_space : ℕ → Bool
is_space b = (leb 9 b && leb b 13) || b == 32

unfoldable pub trim_start : List ℕ → List ℕ
trim_start [] = []
trim_start (b ∷ rest) = if is_space b then trim_start rest else b ∷ rest

-- Drops a space if only spaces follow.
unfoldable pub trim_cons : ℕ → List ℕ → List ℕ
trim_cons b [] = if is_space b then [] else b ∷ []
trim_cons b (x ∷ rest) = b ∷ x ∷ rest

unfoldable pub trim_end : List ℕ → List ℕ
trim_end [] = []
trim_end (b ∷ rest) = trim_cons b (trim_end rest)

unfoldable pub trim : List ℕ → List ℕ
trim s = trim_end (trim_start s)

module _ (c : Crypto) (master : List ℕ) where
  pub tenant_key : List ℕ → List ℕ
  tenant_key tenant = c.hmac master ((0x76 ∷ 0x6D ∷ 0x3A ∷ []) ++ tenant)

  pub sign_checkpoint : List ℕ → ℕ → List ℕ → List ℕ
  sign_checkpoint tenant block_number chained_root =
      c.hmac (tenant_key tenant) (encode_checkpoint_msg tenant block_number chained_root)

  -- format!("checkpoint-v1|{}|{}|{}|{}", …)
  pub checkpoint_line : List ℕ → ℕ → List ℕ → List ℕ
  checkpoint_line tenant block_number chained_root =
      let sig = sign_checkpoint tenant block_number chained_root in
      anchor_tag_bytes
      ++ (0x7C
          ∷ (tenant
              ++ (0x7C
                  ∷ (show_u64 block_number
                      ++ (0x7C ∷ (c.hex_encode chained_root ++ (0x7C ∷ c.hex_encode sig)))))))

  -- The signature test, on the parsed line.
  pub check_anchor : List ℕ → ParsedAnchor → Option (ℕ × List ℕ)
  check_anchor tenant parsed =
      if not (ct_eq_32 (sign_checkpoint tenant parsed.block_number parsed.root) parsed.sig)
      then none
      else some (parsed.block_number, parsed.root)

  pub verify_checkpoint_line : List ℕ → List ℕ → Option (ℕ × List ℕ)
  verify_checkpoint_line tenant line =
      parse_checkpoint_line (trim line) tenant >>= check_anchor tenant
