-- ===== src/Quote.antt =====
-- The structure of a TPM quote: `read_u16_be`, `read_u32_be` and `advance_within` of
-- verified/src/lib.rs, and the two copies of `verify_quote_structure`, in sgx/src/lib.rs and
-- sgx_vm/src/lib.rs. Every index and slice may panic.
pub mod Reads
mod Parts
pub mod Accepted
mod Examples
use vpma.Prelude.{
  ℕ, zero, suc, ◌+◌, ◌-◌, ◌*◌, Bool, true, false, not, ◌&&◌, ◌||◌, Option, none, some, List, [],
  ◌∷◌, length, take, drop, ltb, leb, ◌==◌, ◌===◌, if◌then◌else◌,
}
use vpma.Crypto.{Crypto}

-- The texts of the errors, in their order in the source.
pub data QuoteError : Type 0 where
  attest_too_short bad_magic bad_type truncated_before_signer : QuoteError
  truncated_before_extra_data truncated_extra_data stale_nonce : QuoteError
  truncated_before_select bad_bank_count truncated_selection bad_bank : QuoteError
  truncated_bitmap bad_bitmap truncated_before_digest bad_digest_length : QuoteError
  trailing_bytes wrong_digest signature_too_short bad_scheme bad_signature_hash : QuoteError
  bad_signature_length : QuoteError

-- What a function returns, or that it panics.
pub data Checked {ℓ} (A : Type ℓ) : Type ℓ where
  ok : A → Checked A
  refuse : QuoteError → Checked A
  panics : Checked A

infixl 5 ◌>>=◌
abbrev pub ◌>>=◌ {ℓ κ} : {A : Type ℓ} {B : Type κ} → Checked A → (A → Checked B) → Checked B
ok a >>= f = f a
refuse e >>= f = refuse e
panics >>= f = panics

-- `if !b { return Err(e) }`
unfoldable pub require : Bool → QuoteError → Checked (Unit {0})
require true e = ok tt
require false e = refuse e

-- `match o { Some(v) => v, None => return Err(e) }`
unfoldable pub or_refuse : Option ℕ → QuoteError → Checked ℕ
or_refuse (some v) e = ok v
or_refuse none e = refuse e

-- `buf[i]`
unfoldable pub at : List ℕ → ℕ → Checked ℕ
at [] i = panics
at (b ∷ bs) zero = ok b
at (b ∷ bs) (suc i) = at bs i

-- `buf[a..b]`
unfoldable pub slice : List ℕ → ℕ → ℕ → Checked (List ℕ)
slice buf a b = if leb a b && leb b (length buf) then ok (take (b - a) (drop a buf)) else panics

unfoldable pub read_u16_be : List ℕ → ℕ → Checked (Option ℕ)
read_u16_be buf off =
    if ltb (length buf) off || ltb (length buf - off) 2
    then ok none
    else at buf off >>= (λ hi. at buf (off + 1) >>= (λ lo. ok (some (hi * 256 + lo))))

-- `u16::from_be_bytes([buf[off], buf[off + 1]])`
unfoldable pub u16_at : List ℕ → ℕ → Checked ℕ
u16_at buf off = do hi ← at buf off; lo ← at buf (off + 1); ok (hi * 256 + lo)

-- `u32::from_be_bytes([buf[off], …, buf[off + 3]])`
unfoldable pub u32_at : List ℕ → ℕ → Checked ℕ
u32_at buf off = do
  b0 ← at buf off
  b1 ← at buf (off + 1)
  b2 ← at buf (off + 2)
  b3 ← at buf (off + 3)
  ok (b0 * 16777216 + b1 * 65536 + b2 * 256 + b3)

unfoldable pub read_u32_be : List ℕ → ℕ → Checked (Option ℕ)
read_u32_be buf off =
    if ltb (length buf) off || ltb (length buf - off) 4
    then ok none
    else u32_at buf off >>= (λ v. ok (some v))

unfoldable pub advance_within : ℕ → ℕ → ℕ → Option ℕ
advance_within off by_bytes len =
    if ltb len off || ltb (len - off) by_bytes then none else some (off + by_bytes)

unfoldable pub any_nonzero : List ℕ → Bool
any_nonzero [] = false
any_nonzero (b ∷ bs) = not (b == 0) || any_nonzero bs

abbrev pub tpm_generated_value : ℕ
tpm_generated_value = 0xFF544347

abbrev pub tpm_st_attest_quote : ℕ
tpm_st_attest_quote = 0x8018

abbrev pub tpm_alg_sha256 : ℕ
tpm_alg_sha256 = 0x000B

abbrev pub tpm_alg_rsassa : ℕ
tpm_alg_rsassa = 0x0014

abbrev pub expected_pcr_select : List ℕ
expected_pcr_select = 0x81 ∷ 0x04 ∷ 0x00 ∷ []

-- Up to the nonce: the offset after the extra data, before the clock and the firmware version.
unfoldable pub check_extra_data : List ℕ → List ℕ → Checked ℕ
check_extra_data attest expected_nonce = do
  _ ← require (not (ltb (length attest) 40)) attest_too_short
  magic ← u32_at attest 0
  _ ← require (magic == tpm_generated_value) bad_magic
  atype ← u16_at attest 4
  _ ← require (atype == tpm_st_attest_quote) bad_type
  qs ← read_u16_be attest 6
  qs_len ← or_refuse qs truncated_before_signer
  p ← or_refuse (advance_within 8 qs_len (length attest)) truncated_before_extra_data
  ed ← read_u16_be attest p
  ed_len ← or_refuse ed truncated_before_extra_data
  _ ← or_refuse (advance_within (p + 2) ed_len (length attest)) truncated_extra_data
  extra_data ← slice attest (p + 2) (p + 2 + ed_len)
  _ ← require (extra_data === expected_nonce) stale_nonce
  ok (p + 2 + ed_len)

-- The number of PCR banks, in the host's copy and in the guest's.
unfoldable pub pcr_count_host : List ℕ → ℕ → Checked ℕ
pcr_count_host attest p = do c ← read_u32_be attest p; or_refuse c truncated_before_select

pub pcr_count_guest : List ℕ → ℕ → Checked ℕ
pcr_count_guest attest p = do
  _ ← require (not (ltb (length attest) (p + 4))) truncated_before_select
  u32_at attest p

-- The selection, of one bank: the offset after its bitmap.
unfoldable pub check_selection : List ℕ → ℕ → ℕ → Checked ℕ
check_selection attest count p = do
  _ ← require (count == 1) bad_bank_count
  _ ← require (not (ltb (length attest) (p + 3))) truncated_selection
  hash_alg ← u16_at attest p
  _ ← require (hash_alg == tpm_alg_sha256) bad_bank
  sel_size ← at attest (p + 2)
  _ ← require (not (ltb (length attest) (p + 3 + sel_size))) truncated_bitmap
  selected ← slice attest (p + 3) (p + 3 + sel_size)
  _ ←
      require
        (not (
          ltb (length selected) 3
          || (not (take 3 selected === expected_pcr_select) || any_nonzero (drop 3 selected))))
        bad_bitmap
  ok (p + 3 + sel_size)

module _ (c : Crypto) where
  unfoldable pub check_digest : List ℕ → List ℕ → ℕ → Checked (Unit {0})
  check_digest attest pcr_values p = do
    _ ← require (not (ltb (length attest) (p + 2))) truncated_before_digest
    dlen ← u16_at attest p
    _ ← require (dlen == 32) bad_digest_length
    _ ← require (p + 2 + dlen == length attest) trailing_bytes
    digest ← slice attest (p + 2) (p + 2 + dlen)
    require (digest === c.sha256 pcr_values) wrong_digest

unfoldable pub check_signature : List ℕ → Checked (List ℕ)
check_signature signature = do
  _ ← require (not (ltb (length signature) 6)) signature_too_short
  sig_alg ← u16_at signature 0
  _ ← require (sig_alg == tpm_alg_rsassa) bad_scheme
  sig_hash ← u16_at signature 2
  _ ← require (sig_hash == tpm_alg_sha256) bad_signature_hash
  sig_len ← u16_at signature 4
  _ ← require (6 + sig_len == length signature) bad_signature_length
  slice signature 6 (length signature)

-- `verify_quote_structure`, of the host or of the guest, by its count of banks.
unfoldable pub verify_with :
    (List ℕ → ℕ → Checked ℕ) → Crypto → List ℕ → List ℕ → List ℕ → List ℕ → Checked (List ℕ)
verify_with pcr_count c attest signature pcr_values expected_nonce = do
  e ← check_extra_data attest expected_nonce
  count ← pcr_count attest (e + 25)
  s ← check_selection attest count (e + 29)
  _ ← check_digest c attest pcr_values s
  check_signature signature

unfoldable pub verify_quote_structure_host :
    Crypto → List ℕ → List ℕ → List ℕ → List ℕ → Checked (List ℕ)
verify_quote_structure_host = verify_with pcr_count_host

pub verify_quote_structure_guest : Crypto → List ℕ → List ℕ → List ℕ → List ℕ → Checked (List ℕ)
verify_quote_structure_guest = verify_with pcr_count_guest
