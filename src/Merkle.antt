-- ===== src/Merkle.antt =====
-- sgx_vm/src/merkle.rs, and `fold_to_root` of verified/src/lib.rs: the Merkle tree over energy
-- records, its root and its inclusion proofs. A digest `[u8; 32]` is a list of bytes; an index out
-- of range is the outcome `panic`. The proofs are in the modules below.
pub mod Levels
pub mod Root
pub mod Path
pub mod Proofs
pub mod Binding
pub mod Records
mod Examples
use vpma.Prelude.{
  ℕ, zero, suc, ◌+◌, ◌-◌, ◌/◌, ◌%◌, ◌^◌, Bool, true, false, not, ◌&&◌, Option, none, some, List, [],
  ◌∷◌, ◌++◌, map, ltb, leb, ◌==◌, ◌===◌, if◌then◌else◌, length, get_elem?, push,
}
use vpma.Crypto.{Crypto, zero32}
use vpma.Encoding.{encode_record_fields, encode_leaf, encode_internal, encode_root}

-- The f64 fields are their bit patterns, which is what `to_bytes` reads of them.
pub record EnergyRecord : Type 0 where
  pub pid : ℕ
  pub cpu_time : ℕ
  pub energy_joules : ℕ
  pub power_watts : ℕ
  pub vm_name : List ℕ
  pub timestamp : List ℕ

pub to_bytes : EnergyRecord → List ℕ
to_bytes r =
    encode_record_fields r.pid r.cpu_time r.energy_joules r.power_watts r.vm_name r.timestamp

pub record MerkleNode : Type 0 where
  pub level : ℕ
  pub position : ℕ
  pub hash : List ℕ
  pub left_child : Option (List ℕ)
  pub right_child : Option (List ℕ)

pub record MerkleTree : Type 0 where
  pub root : Option (List ℕ)
  pub leaf_hashes : List (List ℕ)
  pub leaf_count : ℕ
  pub internal_nodes : List MerkleNode
  pub height : ℕ

pub record MerkleProof : Type 0 where
  pub leaf_hash : List ℕ
  pub proof_hashes : List (List ℕ)
  pub proof_directions : List Bool
  pub leaf_index : ℕ
  pub leaf_count : ℕ

pub data Outcome {ℓ} (A : Type ℓ) : Type ℓ where
  done : A → Outcome A
  panic : Outcome A

-- `xs[i]`
pub index {ℓ} : {A : Type ℓ} → List A → ℕ → Outcome A
index xs i = elim (get_elem? xs i) [ none ↦ panic | some x ↦ done x ]

infixl 5 ◌>>=◌
abbrev pub ◌>>=◌ {ℓ κ} : {A : Type ℓ} {B : Type κ} → Outcome A → (A → Outcome B) → Outcome B
done a >>= f = f a
panic >>= f = panic

pub leaf_nodes : ℕ → List (List ℕ) → List MerkleNode
leaf_nodes pos [] = []
leaf_nodes pos (h ∷ hs) =
    record { level = 0; position = pos % 2 ^ 32; hash = h; left_child = none; right_child = none }
    ∷ leaf_nodes (pos + 1) hs

-- A level of odd length promotes its last node.
pub is_promoted_odd : List (List ℕ) → ℕ → Bool
is_promoted_odd current_level current_index =
    length current_level % 2 == 1 && current_index == length current_level - 1

module _ (c : Crypto) where
  pub hash_leaf : List ℕ → List ℕ
  hash_leaf record_bytes = c.sha256 (encode_leaf record_bytes)

  pub hash_pair : List ℕ → List ℕ → List ℕ
  hash_pair left right = c.sha256 (encode_internal left right)

  pub commit_root : ℕ → List ℕ → List ℕ
  commit_root leaf_count subtree_root = c.sha256 (encode_root (leaf_count % 2 ^ 64) subtree_root)

  -- The inner loop over `i`, and the odd node that is promoted after it: the last argument is what
  -- `i` has not reached.
  pub pair_loop : List (List ℕ) → List (List ℕ) → List (List ℕ)
  pair_loop next [] = next
  pair_loop next (x ∷ []) = push next x
  pair_loop next (l ∷ r ∷ rest) = pair_loop (push next (hash_pair l r)) rest

  -- `while cur.len() > 1`, with fuel; a level is shorter than the one before it.
  pub fold_loop : ℕ → List (List ℕ) → List (List ℕ)
  fold_loop zero cur = cur
  fold_loop (suc fuel) cur = elim (ltb 1 (length cur)) [
    | true ↦ fold_loop fuel (pair_loop [] cur)
    | false ↦ cur
  ]

  pub fold_to_root : List (List ℕ) → Outcome (List ℕ)
  fold_to_root leaves = index (fold_loop (length leaves) leaves) 0

  -- `None` for no leaf.
  pub compute_root_from_leaves : List (List ℕ) → Outcome (Option (List ℕ))
  compute_root_from_leaves [] = done none
  compute_root_from_leaves (leaf ∷ leaves) = do
    subtree ← fold_to_root (leaf ∷ leaves)
    done (some (commit_root (length (leaf ∷ leaves)) subtree))

  pub parent_node : ℕ → ℕ → List ℕ → List ℕ → MerkleNode
  parent_node level_num pos left right = record {
    level = level_num;
    position = pos;
    hash = hash_pair left right;
    left_child = some left;
    right_child = some right;
  }

  -- One level of `build`: the next level, and the nodes with those of this level added.
  pub level_loop :
      ℕ → ℕ → List (List ℕ) → List MerkleNode → List (List ℕ) → List (List ℕ) × List MerkleNode
  level_loop level_num pos next nodes [] = (next, nodes)
  level_loop level_num pos next nodes (x ∷ []) = (push next x, nodes)
  level_loop level_num pos next nodes (l ∷ r ∷ rest) =
      level_loop level_num (pos + 1) (push next (hash_pair l r))
        (push nodes (parent_node level_num pos l r)) rest

  -- The outer loop of `build`: the last level's number and all nodes.
  pub build_loop : ℕ → List (List ℕ) → ℕ → List MerkleNode → ℕ × List MerkleNode
  build_loop zero current_level level_num nodes = (level_num, nodes)
  build_loop (suc fuel) current_level level_num nodes = elim (ltb 1 (length current_level)) [
    | true ↦
        let (next, nodes') = level_loop (level_num + 1) 0 [] nodes current_level in
        build_loop fuel next (level_num + 1) nodes'
    | false ↦ (level_num, nodes)
  ]

  unfoldable pub build : List EnergyRecord → Outcome MerkleTree
  build [] =
      done
        (record { root = none; leaf_hashes = []; leaf_count = 0; internal_nodes = []; height = 0 })
  build (r ∷ rs) = do
    let leaf_hashes = map (λ (x : EnergyRecord). hash_leaf (to_bytes x)) (r ∷ rs)
    let leaf_count = length leaf_hashes
    let built = build_loop leaf_count leaf_hashes 0 (leaf_nodes 0 leaf_hashes)
    subtree ← fold_to_root leaf_hashes
    done (record {
      root = some (commit_root leaf_count subtree);
      leaf_hashes = leaf_hashes;
      leaf_count = leaf_count;
      internal_nodes = built.1;
      height = built.0 + 1;
    })

  pub verify_record : MerkleTree → EnergyRecord → ℕ → Outcome Bool
  verify_record tree r leaf_index =
      if leb (length tree.leaf_hashes) leaf_index
      then done false
      else do stored ← index tree.leaf_hashes leaf_index; done (hash_leaf (to_bytes r) === stored)

  -- The loop of `generate_proof`, which adds to the hashes and the directions.
  pub proof_loop :
      ℕ → List (List ℕ) → ℕ → List (List ℕ) → List Bool → Outcome (List (List ℕ) × List Bool)
  proof_loop zero current_level current_index hashes directions = done (hashes, directions)
  proof_loop (suc fuel) current_level current_index hashes directions =
      elim (ltb 1 (length current_level)) [
        | false ↦ done (hashes, directions)
        | true ↦ elim (is_promoted_odd current_level current_index) [
          | true ↦
              proof_loop fuel (pair_loop [] current_level) (current_index / 2) hashes directions
          | false ↦
              index current_level
                (if current_index % 2 == 0 then current_index + 1 else current_index - 1)
              >>= λ sibling.
                  proof_loop fuel (pair_loop [] current_level) (current_index / 2)
                    (push hashes sibling) (push directions (current_index % 2 == 1))
        ]
      ]

  pub generate_proof : MerkleTree → ℕ → Outcome (Option MerkleProof)
  generate_proof tree leaf_index = if leb tree.leaf_count leaf_index then done none else do
    path ← proof_loop (length tree.leaf_hashes) tree.leaf_hashes leaf_index [] []
    leaf_hash ← index tree.leaf_hashes leaf_index
    done (
        some (record {
          leaf_hash = leaf_hash;
          proof_hashes = path.0;
          proof_directions = path.1;
          leaf_index = leaf_index;
          leaf_count = tree.leaf_count;
        }))

  -- The loop of `MerkleProof::verify` over the zipped lists.
  pub verify_loop : List ℕ → List (List ℕ) → List Bool → List ℕ
  verify_loop current [] directions = current
  verify_loop current (h ∷ hs) [] = current
  verify_loop current (h ∷ hs) (is_left ∷ ds) =
      verify_loop (if is_left then hash_pair h current else hash_pair current h) hs ds

  pub verify : MerkleProof → List ℕ → Bool
  verify p root_hash =
      commit_root p.leaf_count (verify_loop p.leaf_hash p.proof_hashes p.proof_directions)
      === root_hash
