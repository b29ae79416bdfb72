-- ===== src/RedisClient/Insert.antt =====
-- `insert_block`: the block's fields, its records and its Merkle nodes, in batches of commands.
use vpma.Prelude.{
  ℕ, zero, suc, ◌+◌, Option, none, some, List, [], ◌∷◌, ◌++◌, ℤ, length, take, drop, get_elem?,
}
use vpma.Crypto.{Crypto}
use vpma.Text.Numbers.{show_u64}
use vpma.Merkle.{EnergyRecord, MerkleNode}
use vpma.Blockchain.{Block}
use vpma.Exporter.{Text}
use vpma.Redis.{RedisValue}
use vpma.Redis.Numbers.{show_i64}
use vpma.RedisClient.{
  Ran, ran, failed, Action, pure, ◌>>=◌, hset, incr, hset_command, rpush_command,
  block_number_field, chained_root_field, vm_name_field,
}

-- BATCH_SIZE
abbrev pub insert_batch_size : ℕ
insert_batch_size = 100

-- "block_counter"
abbrev pub counter_key : Text
counter_key = 98 ∷ 108 ∷ 111 ∷ 99 ∷ 107 ∷ 95 ∷ 99 ∷ 111 ∷ 117 ∷ 110 ∷ 116 ∷ 101 ∷ 114 ∷ []

-- "block:"
abbrev pub block_prefix : Text
block_prefix = 98 ∷ 108 ∷ 111 ∷ 99 ∷ 107 ∷ 58 ∷ []

-- "records:"
abbrev records_prefix : Text
records_prefix = 114 ∷ 101 ∷ 99 ∷ 111 ∷ 114 ∷ 100 ∷ 115 ∷ 58 ∷ []

-- "merkle:"
abbrev merkle_prefix : Text
merkle_prefix = 109 ∷ 101 ∷ 114 ∷ 107 ∷ 108 ∷ 101 ∷ 58 ∷ []

-- "merkle_root"
abbrev merkle_root_field : Text
merkle_root_field = 109 ∷ 101 ∷ 114 ∷ 107 ∷ 108 ∷ 101 ∷ 95 ∷ 114 ∷ 111 ∷ 111 ∷ 116 ∷ []

-- "prev_chained_root"
abbrev prev_chained_root_field : Text
prev_chained_root_field =
    112 ∷ 114 ∷ 101 ∷ 118 ∷ 95 ∷ 99 ∷ 104 ∷ 97 ∷ 105 ∷ 110 ∷ 101 ∷ 100 ∷ 95 ∷ 114 ∷ 111 ∷ 111 ∷ 116
    ∷ []

-- "record_count"
abbrev record_count_field : Text
record_count_field = 114 ∷ 101 ∷ 99 ∷ 111 ∷ 114 ∷ 100 ∷ 95 ∷ 99 ∷ 111 ∷ 117 ∷ 110 ∷ 116 ∷ []

-- "tree_height"
abbrev tree_height_field : Text
tree_height_field = 116 ∷ 114 ∷ 101 ∷ 101 ∷ 95 ∷ 104 ∷ 101 ∷ 105 ∷ 103 ∷ 104 ∷ 116 ∷ []

-- "created_at"
abbrev created_at_field : Text
created_at_field = 99 ∷ 114 ∷ 101 ∷ 97 ∷ 116 ∷ 101 ∷ 100 ∷ 95 ∷ 97 ∷ 116 ∷ []

-- "2026-02-13T00:00:00Z"
abbrev pub chrono_timestamp : Text
chrono_timestamp =
    50 ∷ 48 ∷ 50 ∷ 54 ∷ 45 ∷ 48 ∷ 50 ∷ 45 ∷ 49 ∷ 51 ∷ 84 ∷ 48 ∷ 48 ∷ 58 ∷ 48 ∷ 48 ∷ 58 ∷ 48 ∷ 48
    ∷ 90 ∷ []

-- `slice::chunks`, on fuel for their number.
unfoldable pub chunks {ℓ} : {A : Type ℓ} → ℕ → ℕ → List A → List (List A)
chunks zero n xs = []
chunks (suc fuel) n [] = []
chunks (suc fuel) n (x ∷ xs) = take n (x ∷ xs) ∷ chunks fuel n (drop n (x ∷ xs))

-- "{}:{}"
unfoldable pub node_key : MerkleNode → Text
node_key node = show_u64 node.level ++ (58 ∷ show_u64 node.position)

module _ (c : Crypto) (show_f64 : ℕ → Text) where
  unfoldable pub hex_or_empty : Option (List ℕ) → Text
  hex_or_empty none = []
  hex_or_empty (some h) = c.hex_encode h

  -- format!("{}|{}|{}|{}|{}|{}|{}", …)
  unfoldable pub record_str : Option (List ℕ) → EnergyRecord → Text
  record_str leaf_hash r =
      hex_or_empty leaf_hash
      ++ (124
          ∷ (show_u64 r.pid
              ++ (124
                  ∷ (show_f64 r.cpu_time
                      ++ (124
                          ∷ (show_f64 r.energy_joules
                              ++ (124
                                  ∷ (show_f64 r.power_watts
                                      ++ (124 ∷ (r.vm_name ++ (124 ∷ r.timestamp)))))))))))

  -- The loop over a chunk, from a global index on.
  unfoldable pub record_strs : List (List ℕ) → ℕ → List EnergyRecord → List Text
  record_strs leaf_hashes global_idx [] = []
  record_strs leaf_hashes global_idx (r ∷ rs) =
      record_str (get_elem? leaf_hashes global_idx) r ∷ record_strs leaf_hashes (global_idx + 1) rs

  unfoldable pub record_commands :
      Text → List (List ℕ) → ℕ → List (List EnergyRecord) → List (List Text)
  record_commands records_key leaf_hashes global_idx [] = []
  record_commands records_key leaf_hashes global_idx (chunk ∷ rest) =
      (rpush_command ∷ records_key ∷ record_strs leaf_hashes global_idx chunk)
      ∷ record_commands records_key leaf_hashes (global_idx + length chunk) rest

  unfoldable pub node_value : MerkleNode → Text
  node_value node =
      c.hex_encode node.hash
      ++ (124 ∷ (hex_or_empty node.left_child ++ (124 ∷ hex_or_empty node.right_child)))

  unfoldable pub node_args : List MerkleNode → List Text
  node_args [] = []
  node_args (node ∷ nodes) = node_key node ∷ node_value node ∷ node_args nodes

  unfoldable pub node_commands : Text → List (List MerkleNode) → List (List Text)
  node_commands merkle_key [] = []
  node_commands merkle_key (chunk ∷ rest) =
      (hset_command ∷ merkle_key ∷ node_args chunk) ∷ node_commands merkle_key rest

  pub block_fields : Block → List (Text × Text)
  block_fields block =
      (block_number_field, show_u64 block.block_number)
      ∷ (merkle_root_field, c.hex_encode block.merkle_root)
      ∷ (prev_chained_root_field, c.hex_encode block.prev_chained_root)
      ∷ (chained_root_field, c.hex_encode block.chained_root)
      ∷ (record_count_field, show_u64 block.record_count)
      ∷ (tree_height_field, show_u64 block.tree_height)
      ∷ (vm_name_field, block.vm_name)
      ∷ (created_at_field, chrono_timestamp)
      ∷ []

  -- All commands for the records of a block, and all for its nodes.
  unfoldable pub all_record_commands : Text → Block → List (List Text)
  all_record_commands id block =
      record_commands (records_prefix ++ id) block.leaf_hashes 0
        (chunks (length block.records) insert_batch_size block.records)

  unfoldable pub all_node_commands : Text → Block → List (List Text)
  all_node_commands id block =
      node_commands (merkle_prefix ++ id)
        (chunks (length block.internal_nodes) insert_batch_size block.internal_nodes)

  module _ (σ : Type 0) (exec : σ → List Text → Ran σ RedisValue) where
    -- All commands are written before the first response is read: after an error the server still
    -- has the others.
    unfoldable pub join_result :
        Ran σ RedisValue → (σ → Ran σ (List RedisValue)) → Ran σ (List RedisValue)
    join_result (ran s v) rest = first v (rest s)
      where
        first : RedisValue → Ran σ (List RedisValue) → Ran σ (List RedisValue)
        first v (ran t vs) = ran t (v ∷ vs)
        first v (failed t e) = failed t e
    join_result (failed s e) rest = state_only (rest s)
      where
        state_only : Ran σ (List RedisValue) → Ran σ (List RedisValue)
        state_only (ran t vs) = failed t e
        state_only (failed t e') = failed t e

    unfoldable pub pipeline : List (List Text) → Action σ (List RedisValue)
    pipeline [] = pure []
    pipeline (args ∷ commands) = λ s. join_result (exec s args) (pipeline commands)

    -- A pipeline of no commands is not sent.
    unfoldable pub insert_block : Block → Action σ ℤ
    insert_block block = do
      block_id ← incr σ exec counter_key
      let id = show_i64 block_id
      hashed ← hset σ exec (block_prefix ++ id) (block_fields block)
      records ← pipeline (all_record_commands id block)
      nodes ← pipeline (all_node_commands id block)
      pure block_id
