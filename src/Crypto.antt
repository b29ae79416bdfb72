-- ===== src/Crypto.antt =====
-- The primitives that the program takes from other packages (sha2, hmac, hex): parameters of the
-- model, with the documented facts that the code relies on.
pub mod Toy
use vpma.Prelude.{ℕ, ◌+◌, ◌/◌, ◌%◌, ◌<◌, ◌≡◌, ◌≢◌, List, [], ◌∷◌, ltb, if◌then◌else◌, length, All}

-- A lower-case hexadecimal digit.
abbrev pub hex_digit : ℕ → ℕ
hex_digit d = if ltb d 10 then 48 + d else 87 + d

pub record Crypto : Type 0 where
  -- `Sha256::digest`
  pub sha256 : List ℕ → List ℕ
  pub length-sha256 : (x : List ℕ) → length (sha256 x) ≡ 32
  pub sha256_bytes : (x : List ℕ) → All (λ b. b < 256) (sha256 x)
  -- `Hmac<Sha256>`: key, then message
  pub hmac : List ℕ → List ℕ → List ℕ
  pub length-hmac : (k m : List ℕ) → length (hmac k m) ≡ 32
  pub hmac_bytes : (k m : List ℕ) → All (λ b. b < 256) (hmac k m)
  -- `hex::encode`: two lower-case digits for each byte
  pub hex_encode : List ℕ → List ℕ
  pub hex_encode-nil : hex_encode [] ≡ []
  pub hex_encode-cons :
      (b : ℕ) (bs : List ℕ)
      → hex_encode (b ∷ bs) ≡ hex_digit (b / 16) ∷ hex_digit (b % 16) ∷ hex_encode bs

-- Two different inputs of one hash, both of a given kind.
pub record Collision (c : Crypto) (In : List ℕ → Type 0) : Type 0 where
  pub first : List ℕ
  pub second : List ℕ
  pub first_in : In first
  pub second_in : In second
  pub differ : first ≢ second
  pub same : c.sha256 first ≡ c.sha256 second

-- [0u8; 32]
abbrev pub zero32 : List ℕ
zero32 =
    0 ∷ 0 ∷ 0 ∷ 0 ∷ 0 ∷ 0 ∷ 0 ∷ 0 ∷ 0 ∷ 0 ∷ 0 ∷ 0 ∷ 0 ∷ 0 ∷ 0 ∷ 0 ∷ 0 ∷ 0 ∷ 0 ∷ 0 ∷ 0 ∷ 0 ∷ 0 ∷ 0
    ∷ 0 ∷ 0 ∷ 0 ∷ 0 ∷ 0 ∷ 0 ∷ 0 ∷ 0 ∷ []
