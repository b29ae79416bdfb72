-- ===== src/Crypto/Toy.antt =====
-- A concrete choice of the primitives: the hash is the sum of the bytes modulo 256, padded to 32
-- bytes. It meets the assumptions, and tests can compute with it.
use vpma.Prelude.{ℕ, ◌+◌, ◌*◌, ◌/◌, ◌%◌, ◌<◌, refl, List, [], ◌∷◌, arith, replicate, All}
use vpma.Crypto.{Crypto, hex_digit}

abbrev total : List ℕ → ℕ
total [] = 0
total (b ∷ bs) = b + total bs

abbrev digest : ℕ → List ℕ
digest n = n % 256 ∷ replicate 31 0

pub digest_bytes : (n : ℕ) → All (λ b. b < 256) (digest n)
digest_bytes n = omega arith

abbrev hex : List ℕ → List ℕ
hex [] = []
hex (b ∷ bs) = hex_digit (b / 16) ∷ hex_digit (b % 16) ∷ hex bs

abbrev pub toy : Crypto
toy = record {
  sha256 = λ x. digest (total x);
  length-sha256 = λ x. refl;
  sha256_bytes = λ x. digest_bytes (total x);
  hmac = λ k m. digest (7 * total k + 3 * total m + 1);
  length-hmac = λ k m. refl;
  hmac_bytes = λ k m. digest_bytes (7 * total k + 3 * total m + 1);
  hex_encode = hex;
  hex_encode-nil = refl;
  hex_encode-cons = λ b bs. refl;
}
