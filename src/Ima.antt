-- ===== src/Ima.antt =====
-- The measurement log against PCR 10: `extend_pcr`, `replay_find_prefix` and
-- `select_collector_hash_verified` of verified/src/lib.rs, and `reconcile_ima_against_pcr10` of
-- sgx/src/lib.rs. PCR values and digests are lists of 32 bytes.
pub mod Replay
pub mod Select
pub mod Log
mod Examples
use vpma.Prelude.{
  ℕ, zero, suc, ◌+◌, ◌-◌, Bool, true, false, not, ◌&&◌, Option, none, some, List, [], ◌∷◌, ◌++◌,
  map, ltb, ◌==◌, if◌then◌else◌, ℤ, pos, negsuc, length, take, get_or,
}
use vpma.Crypto.{Crypto, zero32}
use vpma.Text.{ct_eq_32, hex_decode, is_zero_hash, name_is}
use vpma.Anchor.{trim}

pub record ImaRecord : Type 0 where
  pub extend_digest : List ℕ
  pub file_hash : List ℕ
  pub file_path : List ℕ
  pub end_offset : ℕ

pub record AttestedImaPrefix : Type 0 where
  pub attested : List ImaRecord
  pub entries_total : ℕ
  pub attested_bytes : ℕ

pub data Reconciled : Type 0 where
  reconciled : AttestedImaPrefix → Reconciled
  refused : ℤ → Reconciled

module _ (c : Crypto) where
  pub extend_pcr : List ℕ → List ℕ → List ℕ
  extend_pcr pcr digest = c.sha256 (pcr ++ digest)

  -- The loop of `replay_find_prefix`: the register after `i` digests, `i`, the other digests.
  pub replay_loop : List ℕ → List ℕ → ℕ → List (List ℕ) → Option ℕ
  replay_loop target pcr i [] = none
  replay_loop target pcr i (d ∷ ds) =
      let next = extend_pcr pcr d in
      let rest = replay_loop target next (i + 1) ds in
      if ct_eq_32 next target then some (i + 1) else rest

  pub replay_find_prefix : List (List ℕ) → List ℕ → Option ℕ
  replay_find_prefix digests target =
      if ct_eq_32 zero32 target then some 0 else replay_loop target zero32 0 digests

  pub attested_prefix : List ImaRecord → Option ℕ → Reconciled
  attested_prefix records none = refused (negsuc 8)
  attested_prefix records (some zero) = refused (negsuc 0)
  attested_prefix records (some (suc n)) = reconciled (record {
    attested = take (suc n) records;
    entries_total = length records;
    attested_bytes = get_or (map (λ r. r.end_offset) records) n 0;
  })

  pub reconcile_decoded : List ImaRecord → Option (List ℕ) → Reconciled
  reconcile_decoded records none = refused (negsuc 4)
  reconcile_decoded records (some target) =
      if not (length target == 32)
      then refused (negsuc 4)
      else if length records == 0
      then refused (negsuc 0)
      else attested_prefix records (replay_find_prefix (map (λ r. r.extend_digest) records) target)

  pub reconcile_ima_against_pcr10 : List ImaRecord → List ℕ → Reconciled
  reconcile_ima_against_pcr10 records pcr10_hex =
      reconcile_decoded records (hex_decode (trim pcr10_hex))

pub record RecordView : Type 0 where
  pub hash : List ℕ
  pub path : List ℕ

-- "scaphandre"
abbrev pub collector_name : List ℕ
collector_name = 0x73 ∷ 0x63 ∷ 0x61 ∷ 0x70 ∷ 0x68 ∷ 0x61 ∷ 0x6E ∷ 0x64 ∷ 0x72 ∷ 0x65 ∷ []

unfoldable pub is_collector : RecordView → Bool
is_collector rec =
    name_is rec.path collector_name && not (length rec.hash == 0) && not (is_zero_hash rec.hash)

-- The loop, with what was found so far; the inner loop copies the hash.
unfoldable pub select_loop : Option (List ℕ) → List RecordView → Option (List ℕ)
select_loop found [] = found
select_loop found (rec ∷ records) =
    select_loop (if is_collector rec then some rec.hash else found) records

unfoldable pub select_collector_hash_verified : List RecordView → Option (List ℕ)
unfolding select_loop
select_collector_hash_verified records = select_loop none records
