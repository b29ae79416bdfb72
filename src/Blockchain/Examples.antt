-- ===== src/Blockchain/Examples.antt =====
-- Tests of the chain, and the theorems at concrete inputs.
use vpma.Prelude.{Mem, ℕ, ap, ◌∙◌, ◌≡◌, ◌++◌, ◌⊎◌, refl, List, [], ◌∷◌, map, arith, length, All}
use vpma.Crypto.{Collision, zero32}
use vpma.Crypto.Toy.{toy}
use vpma.Merkle.{EnergyRecord, done}
use vpma.Merkle.Records.{InRange}
use vpma.Blockchain.{Block, Blockchain, chain_valid, new_chain, verify_loop, verify_blockchain}
use vpma.Blockchain.Calls.{Call, adds, flushes, given, create_block_lem}
use vpma.Blockchain.Made.{
  records_of, run, verify_loop_step, verify_blockchain_lem, verify_blockchain-run,
}
use vpma.Blockchain.Tamper.{HoldsRecords, chain_inputs, chains_bound_by_tip}

abbrev reading : ℕ → EnergyRecord
reading n = record {
  pid = n;
  cpu_time = 1;
  energy_joules = 2;
  power_watts = 3;
  vm_name = 118 ∷ 109 ∷ [];
  timestamp = 116 ∷ [];
}

-- Two records fill a batch, the third is flushed, and the last flush has nothing to do.
abbrev script : List Call
script =
    adds (reading 1) (116 ∷ [])
    ∷ adds (reading 2) (117 ∷ [])
    ∷ adds (reading 3) (118 ∷ [])
    ∷ flushes (119 ∷ [])
    ∷ flushes (120 ∷ [])
    ∷ []

verify_blockchain-run_example :
    (chain : Blockchain) × (blocks : List Block) × (run toy (new_chain (118 ∷ 109 ∷ []) 2) script
      ≡ done (chain, blocks))
    × (verify_blockchain toy blocks ≡ done (chain_valid (length blocks)))
    × (chain.current_block_number ≡ length blocks)
    × (records_of blocks ++ chain.accumulated_records ≡ given script)
verify_blockchain-run_example = verify_blockchain-run toy (118 ∷ 109 ∷ []) 2 script

abbrev start : Blockchain
start = record {
  vm_name = 118 ∷ 109 ∷ [];
  current_block_number = 0;
  latest_chained_root = zero32;
  accumulated_records = reading 1 ∷ reading 2 ∷ [];
  batch_size = 2;
}

abbrev first_block : Block
first_block = (create_block_lem toy start (116 ∷ [])).0.1

first_block_accepted : verify_blockchain toy (first_block ∷ []) ≡ done (chain_valid 1)
first_block_accepted =
    let (made, e, x) = create_block_lem toy start (116 ∷ []) in
    verify_blockchain_lem toy (first_block ∷ [])
    ∙ verify_loop_step toy start made.0 first_block start.accumulated_records [] x
    ∙ (unfold verify_loop in ap (λ n. done (chain_valid n)) x.counts)

both-InRange : All InRange start.accumulated_records
both-InRange = omega arith

first_block-HoldsRecords : HoldsRecords first_block
first_block-HoldsRecords =
    let h = (create_block_lem toy start (116 ∷ [])).2.holds in
    record {
      nonempty = rw h (omega arith);
      fits = rw h (omega arith);
      in_range = rw h both-InRange;
    }

chains_bound_by_tip_example :
    (map (λ (b : Block). b.records) (first_block ∷ [])
      ≡ map (λ (b : Block). b.records) (first_block ∷ []))
    ⊎ Collision toy
        (λ x. Mem x (chain_inputs toy (first_block ∷ []) ++ chain_inputs toy (first_block ∷ [])))
chains_bound_by_tip_example =
    chains_bound_by_tip toy (first_block ∷ []) (first_block ∷ []) 1 1 refl
      (first_block-HoldsRecords, tt) (first_block-HoldsRecords, tt) first_block_accepted
      first_block_accepted refl
