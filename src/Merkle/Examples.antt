-- ===== src/Merkle/Examples.antt =====
-- Tests of the tree, and the theorems at concrete inputs.
use vpma.Prelude.{
  Mem, ℕ, ◌≡◌, ◌⊎◌, refl, true, some, List, [], ◌∷◌, ◌++◌, arith, length, get_elem?, All,
}
use vpma.Crypto.{Collision, zero32}
use vpma.Crypto.Toy.{toy}
use vpma.Merkle.{
  EnergyRecord, MerkleTree, MerkleProof, compute_root_from_leaves, commit_root, done, build,
  generate_proof, verify,
}
use vpma.Merkle.Levels.{spec_fold_to_root}
use vpma.Merkle.Root.{leaves_of, build-compute_root_from_leaves}
use vpma.Merkle.Proofs.{verify-generate_proof}
use vpma.Merkle.Records.{InRange, tree_inputs, records_bound_by_root}

abbrev reading : ℕ → EnergyRecord
reading n = record {
  pid = n;
  cpu_time = 1;
  energy_joules = 2;
  power_watts = 3;
  vm_name = 118 ∷ 109 ∷ [];
  timestamp = 116 ∷ [];
}

abbrev three : List EnergyRecord
three = reading 1 ∷ reading 2 ∷ reading 3 ∷ []

three_leaves : length (leaves_of toy three) ≡ 3
three_leaves = refl

build-compute_root_from_leaves_example :
    (t : MerkleTree) × (build toy three ≡ done t)
    × (t.leaf_hashes ≡ leaves_of toy three)
    × (t.leaf_count ≡ length three)
    × (compute_root_from_leaves toy t.leaf_hashes ≡ done t.root)
build-compute_root_from_leaves_example = build-compute_root_from_leaves toy three

-- The third record of three is promoted once.
verify-generate_proof_example :
    (root : List ℕ) × (p : MerkleProof) × ((build-compute_root_from_leaves toy three).0.root
      ≡ some root)
    × (generate_proof toy (build-compute_root_from_leaves toy three).0 2 ≡ done (some p))
    × (get_elem? (leaves_of toy three) 2 ≡ some p.leaf_hash)
    × (p.leaf_index ≡ 2)
    × (verify toy p root ≡ true)
verify-generate_proof_example =
    verify-generate_proof toy three (build-compute_root_from_leaves toy three).0 2
      (build-compute_root_from_leaves toy three).1 (omega arith)

All-InRange : All InRange three
All-InRange = omega arith

abbrev two_leaves : List (List ℕ)
two_leaves = zero32 ∷ zero32 ∷ []

abbrev two_root : List ℕ
two_root = commit_root toy 2 (spec_fold_to_root toy 2 two_leaves)

abbrev three_tree : MerkleTree
three_tree = (build-compute_root_from_leaves toy three).0

three_built : build toy three ≡ done three_tree
three_built = (build-compute_root_from_leaves toy three).1

three_root : (root : List ℕ) × (three_tree.root ≡ some root)
three_root =
    let r = verify-generate_proof toy three three_tree 2 three_built (omega arith) in (r.0, r.2)

records_bound_by_root_example :
    (three ≡ three) ⊎ Collision toy (λ x. Mem x (tree_inputs toy three ++ tree_inputs toy three))
records_bound_by_root_example =
    records_bound_by_root toy three three three_tree three_tree three_root.0 (omega arith)
      (omega arith) All-InRange All-InRange three_built three_built three_root.1 three_root.1
