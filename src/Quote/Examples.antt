-- ===== src/Quote/Examples.antt =====
-- A quote that is accepted, with the toy hash.
use vpma.Prelude.{ℕ, ◌≡◌, refl, List, [], ◌∷◌, ◌++◌, replicate, ◌===◌}
use vpma.Crypto.Toy.{toy}
use vpma.Quote.{
  ok, require, or_refuse, at, slice, read_u16_be, u16_at, u32_at, read_u32_be, advance_within,
  any_nonzero, check_extra_data, pcr_count_host, check_selection, check_digest, check_signature,
  verify_with, verify_quote_structure_host, verify_quote_structure_guest,
}
use vpma.Quote.Reads.{Ensures}
use vpma.Quote.Accepted.{AcceptedQuote, verify_quote_structure_lem}

abbrev nonce : List ℕ
nonce = 5 ∷ []

abbrev pcr_values : List ℕ
pcr_values = 1 ∷ []

-- Up to the nonce; clock and firmware version; the selection; the digest.
abbrev quote : List ℕ
quote =
    (255 ∷ 84 ∷ 67 ∷ 71 ∷ 128 ∷ 24 ∷ 0 ∷ 0 ∷ 0 ∷ 1 ∷ 5 ∷ [])
    ++ (replicate 25 0
        ++ ((0 ∷ 0 ∷ 0 ∷ 1 ∷ 0 ∷ 11 ∷ 3 ∷ 129 ∷ 4 ∷ 0 ∷ 0 ∷ 32 ∷ []) ++ (1 ∷ replicate 31 0)))

abbrev signature : List ℕ
signature = 0 ∷ 20 ∷ 0 ∷ 11 ∷ 0 ∷ 1 ∷ 9 ∷ []

accepted : verify_quote_structure_host toy quote signature pcr_values nonce ≡ ok (9 ∷ [])
unfolding verify_quote_structure_host verify_with check_extra_data pcr_count_host check_selection
    check_digest check_signature require or_refuse at slice read_u16_be u16_at u32_at read_u32_be
    advance_within any_nonzero ◌===◌
accepted = refl

verify_quote_structure_lem_example :
    Ensures
      (AcceptedQuote quote signature (toy.sha256 pcr_values) nonce)
      (verify_quote_structure_host toy quote signature pcr_values nonce)
    × (verify_quote_structure_guest toy quote signature pcr_values nonce
        ≡ verify_quote_structure_host toy quote signature pcr_values nonce)
verify_quote_structure_lem_example = verify_quote_structure_lem toy quote signature pcr_values nonce
