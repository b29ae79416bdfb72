-- ===== src/Anchor/Examples.antt =====
-- The theorems on anchors at concrete inputs.
use vpma.Prelude.{ℕ, ◌^◌, ◌<◌, ◌≡◌, refl, true, some, List, [], ◌∷◌, arith, length}
use vpma.Crypto.{zero32}
use vpma.Crypto.Toy.{toy}
use vpma.Text.{is_valid_tenant_label}
use vpma.Text.Tests.{is_valid_tenant_label_iff}
use vpma.Anchor.{
  parse_checkpoint_line, trim, sign_checkpoint, checkpoint_line, verify_checkpoint_line,
}
use vpma.Anchor.Lines.{verify-checkpoint_line, verify_checkpoint_line_sound}

-- `vm-1`
abbrev tenant : List ℕ
tenant = 0x76 ∷ 0x6D ∷ 0x2D ∷ 0x31 ∷ []

tenant-is_valid : is_valid_tenant_label tenant ≡ true
tenant-is_valid = (is_valid_tenant_label_iff tenant).1 (ground arith)

verify-checkpoint_line_example :
    verify_checkpoint_line toy zero32 tenant (checkpoint_line toy zero32 tenant 41 zero32)
    ≡ some (41, zero32)
verify-checkpoint_line_example =
    verify-checkpoint_line toy zero32 tenant 41 zero32 tenant-is_valid (omega arith) refl
      (omega arith)

accepted_line :
    verify_checkpoint_line toy zero32 tenant (checkpoint_line toy zero32 tenant 7 zero32)
    ≡ some (7, zero32)
accepted_line =
    verify-checkpoint_line toy zero32 tenant 7 zero32 tenant-is_valid (omega arith) refl
      (omega arith)

verify_checkpoint_line_sound_example :
    (7 < 2 ^ 64)
    × (length zero32 ≡ 32)
    × (parse_checkpoint_line (trim (checkpoint_line toy zero32 tenant 7 zero32)) tenant
        ≡ some (record {
          block_number = 7;
          root = zero32;
          sig = sign_checkpoint toy zero32 tenant 7 zero32;
        }))
verify_checkpoint_line_sound_example =
    verify_checkpoint_line_sound toy zero32 tenant (checkpoint_line toy zero32 tenant 7 zero32) 7
      zero32 accepted_line
