-- ===== src/Blockchain.antt =====
-- sgx_vm/src/blockchain.rs: blocks of records chained by their roots. The clock is an argument: the
-- timestamp that `get_timestamp` returns when a block is made.
pub mod Calls
pub mod Made
pub mod Tamper
mod Examples
use vpma.Prelude.{
  ℕ, zero, suc, ◌+◌, ◌%◌, ◌^◌, Bool, true, false, not, Option, none, some, List, [], ◌∷◌, ◌++◌, leb,
  ◌==◌, ◌===◌, if◌then◌else◌, length, push,
}
use vpma.Crypto.{Crypto, zero32}
use vpma.Encoding.{encode_chained_root}
use vpma.Merkle.{EnergyRecord, MerkleTree, MerkleNode, Outcome, done, panic, ◌>>=◌, build}

pub record Block : Type 0 where
  pub block_number : ℕ
  pub vm_name : List ℕ
  pub merkle_root : List ℕ
  pub prev_chained_root : List ℕ
  pub chained_root : List ℕ
  pub record_count : ℕ
  pub timestamp : List ℕ
  pub records : List EnergyRecord
  pub leaf_hashes : List (List ℕ)
  pub internal_nodes : List MerkleNode
  pub tree_height : ℕ

-- The hexadecimal texts of the mismatches stand for the digests that they show.
pub data BlockVerifyResult : Type 0 where
  valid : BlockVerifyResult
  merkle_root_mismatch : List ℕ → List ℕ → BlockVerifyResult
  chained_root_mismatch : List ℕ → List ℕ → BlockVerifyResult
  record_count_mismatch : ℕ → ℕ → BlockVerifyResult

pub block_is_valid : BlockVerifyResult → Bool
block_is_valid valid = true
block_is_valid _ = false

pub data ChainVerifyResult : Type 0 where
  chain_valid : ℕ → ChainVerifyResult
  block_invalid : ℕ → BlockVerifyResult → ChainVerifyResult
  chain_broken : ℕ → List ℕ → List ℕ → ChainVerifyResult
  block_number_gap : ℕ → ℕ → ChainVerifyResult

pub record Blockchain : Type 0 where
  pub vm_name : List ℕ
  pub current_block_number : ℕ
  pub latest_chained_root : List ℕ
  pub accumulated_records : List EnergyRecord
  pub batch_size : ℕ

pub new_chain : List ℕ → ℕ → Blockchain
new_chain vm_name batch_size = record {
  vm_name = vm_name;
  current_block_number = 0;
  latest_chained_root = zero32;
  accumulated_records = [];
  batch_size = batch_size;
}

pub from_checkpoint : List ℕ → ℕ → List ℕ → ℕ → Blockchain
from_checkpoint vm_name block_number latest_chained_root batch_size = record {
  vm_name = vm_name;
  current_block_number = block_number;
  latest_chained_root = latest_chained_root;
  accumulated_records = [];
  batch_size = batch_size;
}

unfoldable pub unwrap_or {ℓ} : {A : Type ℓ} → Option A → A → A
unwrap_or none d = d
unwrap_or (some a) d = a

pub verify_chain_link : Block → Block → Bool
verify_chain_link b prev_block = b.prev_chained_root === prev_block.chained_root

pub is_valid : ChainVerifyResult → Bool
is_valid (chain_valid n) = true
is_valid _ = false

pub with_block : Outcome (Blockchain × Block) → Outcome (Blockchain × Option Block)
with_block r = r >>= λ made. done (made.0, some made.1)

-- The body of the loop of `verify_blockchain` up to the assignment at its end; `none` goes on.
pub check_link : Block → ℕ → List ℕ → BlockVerifyResult → Option ChainVerifyResult
check_link b i prev_chained_root block_result =
    if not (block_is_valid block_result)
    then some (block_invalid b.block_number block_result)
    else if not (b.prev_chained_root === prev_chained_root)
    then some (chain_broken b.block_number prev_chained_root b.prev_chained_root)
    else if not (b.block_number == i)
    then some (block_number_gap i b.block_number)
    else none

module _ (c : Crypto) where
  unfoldable pub compute_chained_root : List ℕ → List ℕ → List ℕ
  compute_chained_root prev merkle = c.sha256 (encode_chained_root prev merkle)

  unfoldable pub new_block : ℕ → List ℕ → List ℕ → List EnergyRecord → List ℕ → Outcome Block
  new_block block_number vm_name prev_chained_root records timestamp = do
    tree ← build c records
    let merkle_root = unwrap_or tree.root zero32
    done (record {
      block_number = block_number;
      vm_name = vm_name;
      merkle_root = merkle_root;
      prev_chained_root = prev_chained_root;
      chained_root = compute_chained_root prev_chained_root merkle_root;
      record_count = length records % 2 ^ 32;
      timestamp = timestamp;
      records = records;
      leaf_hashes = tree.leaf_hashes;
      internal_nodes = tree.internal_nodes;
      tree_height = tree.height;
    })

  pub genesis : List ℕ → List EnergyRecord → List ℕ → Outcome Block
  genesis vm_name records timestamp = new_block 0 vm_name zero32 records timestamp

  -- `Block::verify`, once the tree has been built again.
  pub check_block : Block → List ℕ → BlockVerifyResult
  check_block b computed_merkle_root =
      if not (computed_merkle_root === b.merkle_root)
      then merkle_root_mismatch b.merkle_root computed_merkle_root
      else let computed_chained = compute_chained_root b.prev_chained_root b.merkle_root in
        if not (computed_chained === b.chained_root)
        then chained_root_mismatch b.chained_root computed_chained
        else if not (length b.records % 2 ^ 32 == b.record_count)
        then record_count_mismatch b.record_count (length b.records % 2 ^ 32)
        else valid

  pub verify_block : Block → Outcome BlockVerifyResult
  verify_block b = do tree ← build c b.records; done (check_block b (unwrap_or tree.root zero32))

  -- `i` counts the blocks before the list.
  unfoldable pub verify_loop : ℕ → List ℕ → List Block → Outcome ChainVerifyResult
  verify_loop i prev_chained_root [] = done (chain_valid i)
  verify_loop i prev_chained_root (b ∷ rest) = do
    block_result ← verify_block b
    elim (check_link b i prev_chained_root block_result) [
      | some r ↦ done r
      | none ↦ verify_loop (i + 1) b.chained_root rest
    ]

  pub verify_blockchain : List Block → Outcome ChainVerifyResult
  verify_blockchain [] = done (chain_valid 0)
  verify_blockchain (b ∷ rest) = verify_loop 0 zero32 (b ∷ rest)

  -- `self.current_block_number += 1` stays below 2^64.
  pub create_block : Blockchain → List ℕ → Outcome (Blockchain × Block)
  create_block chain timestamp = do
    block ←
        new_block chain.current_block_number chain.vm_name chain.latest_chained_root
          chain.accumulated_records timestamp
    done (
      record chain {
        accumulated_records = [];
        latest_chained_root = block.chained_root;
        current_block_number = chain.current_block_number + 1;
      },
      block,
    )

  pub add_record : Blockchain → EnergyRecord → List ℕ → Outcome (Blockchain × Option Block)
  add_record chain r timestamp =
      let grown = record chain { accumulated_records = push chain.accumulated_records r } in
      if leb grown.batch_size (length grown.accumulated_records)
      then with_block (create_block grown timestamp)
      else done (grown, none)

  pub flush : Blockchain → List ℕ → Outcome (Blockchain × Option Block)
  flush chain timestamp = elim chain.accumulated_records [
    | [] ↦ done (chain, none)
    | r ∷ rs ↦ with_block (create_block chain timestamp)
  ]
