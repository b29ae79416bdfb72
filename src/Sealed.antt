-- ===== src/Sealed.antt =====
-- The sealed checkpoint of sgx_vm/src/checkpoint.rs: `Checkpoint` and `SealedStorage`. The file is
-- its bytes, or nothing where it does not exist; the time is an argument of the calls that read the
-- clock.
pub mod Storage
mod Examples
use vpma.Prelude.{
  ℕ, Bool, true, false, not, Option, none, some, List, [], ◌∷◌, ◌++◌, ltb, ◌==◌, ◌===◌,
  if◌then◌else◌, length, take, drop,
}
use vpma.Crypto.{Crypto, zero32}
use vpma.Encoding.{spec_u64_le}
use vpma.Encoding.Words.{from_le}

pub record Checkpoint : Type 0 where
  pub latest_chained_root : List ℕ
  pub block_count : ℕ
  pub vm_name : List ℕ
  pub last_updated : ℕ

pub new_checkpoint : List ℕ → ℕ → Checkpoint
new_checkpoint vm_name now = record {
  latest_chained_root = zero32;
  block_count = 0;
  vm_name = vm_name;
  last_updated = now;
}

pub update : Checkpoint → List ℕ → ℕ → ℕ → Checkpoint
update cp chained_root block_count now = record cp {
  latest_chained_root = chained_root;
  block_count = block_count;
  last_updated = now;
}

pub checkpoint_bytes : Checkpoint → List ℕ
checkpoint_bytes cp =
    cp.latest_chained_root
    ++ (spec_u64_le cp.block_count ++ (spec_u64_le cp.last_updated ++ cp.vm_name))

pub data SealError : Type 0 where
  io_error invalid_data tampering_detected : SealError

pub data Loaded : Type 0 where
  loaded : Option Checkpoint → Loaded
  load_failed : SealError → Loaded

pub data VerifyResult : Type 0 where
  valid no_checkpoint : VerifyResult
  load_error : SealError → VerifyResult
  block_count_mismatch : ℕ → ℕ → VerifyResult
  root_mismatch : List ℕ → List ℕ → VerifyResult

-- What `fs::write` does: it writes the bytes, or fails and leaves some file.
pub data Write : Type 0 where
  written : Write
  write_failed : Option (List ℕ) → Write

pub from_bytes : (List ℕ → List ℕ) → List ℕ → Option Checkpoint
from_bytes utf8_lossy bytes =
    if ltb (length bytes) 48
    then none
    else some (record {
      latest_chained_root = take 32 bytes;
      block_count = from_le (take 8 (drop 32 bytes));
      vm_name = utf8_lossy (drop 48 bytes);
      last_updated = from_le (take 8 (drop 40 bytes));
    })

pub parsed : Option Checkpoint → Loaded
parsed none = load_failed invalid_data
parsed (some cp) = loaded (some cp)

-- `utf8_lossy` is `String::from_utf8_lossy`.
module _ (c : Crypto) (utf8_lossy : List ℕ → List ℕ) (seal_key : List ℕ) where
  -- The file and the result; `none` is success.
  pub save : Checkpoint → Write → Option (List ℕ) × Option SealError
  save cp written =
      let plaintext = checkpoint_bytes cp in (some (c.hmac seal_key plaintext ++ plaintext), none)
  save cp (write_failed left) = (left, some io_error)

  pub open_sealed : List ℕ → Loaded
  open_sealed sealed =
      if ltb (length sealed) 32
      then load_failed invalid_data
      else let stored_mac = take 32 sealed in
        let plaintext = drop 32 sealed in
        if not (stored_mac === c.hmac seal_key plaintext)
        then load_failed tampering_detected
        else parsed (from_bytes utf8_lossy plaintext)

  -- The file, and whether it can be read.
  pub load : Option (List ℕ) → Bool → Loaded
  load none readable = loaded none
  load (some sealed) true = open_sealed sealed
  load (some sealed) false = load_failed io_error

  pub compare_with_db : Loaded → ℕ → List ℕ → VerifyResult
  compare_with_db (load_failed e) db_block_count db_latest_root = load_error e
  compare_with_db (loaded none) db_block_count db_latest_root = no_checkpoint
  compare_with_db (loaded (some cp)) db_block_count db_latest_root =
      if not (db_block_count == cp.block_count)
      then block_count_mismatch cp.block_count db_block_count
      else if not (db_latest_root === c.hex_encode cp.latest_chained_root)
      then root_mismatch (c.hex_encode cp.latest_chained_root) db_latest_root
      else valid

  pub verify_against_db : Option (List ℕ) → Bool → ℕ → List ℕ → VerifyResult
  verify_against_db file readable db_block_count db_latest_root =
      compare_with_db (load file readable) db_block_count db_latest_root
