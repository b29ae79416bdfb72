-- ===== src/GpuFlush/Examples.antt =====
-- A flush of an empty batch, and an enclave that starts after it, with the toy functions.
use vpma.Prelude.{ℕ, ◌≡◌, refl, true, false, none, List, [], ◌∷◌, arith}
use vpma.Crypto.Toy.{toy}
use vpma.Merkle.{done}
use vpma.Blockchain.{Block}
use vpma.Export.{new_guest}
use vpma.GpuReadings.{GpuGuest, GpuSurroundings, Stored}
use vpma.GpuFlush.{flush_gpu_block_to_redis}
use vpma.GpuFlush.Stores.{Flushed, flush_gpu_block_to_redis_lem}
use vpma.Anchor.{checkpoint_line}
use vpma.Crypto.{zero32}
use vpma.Text.{is_valid_tenant_label, label_loop, is_safe_label_byte}

abbrev master : List ℕ
master = 7 ∷ []

abbrev node : List ℕ
node = 0x61 ∷ []

abbrev started : GpuGuest
started = record {
  guest = new_guest;
  gpu_energy_state = [];
  chain_resume_refused = false;
  bindings = [];
}

abbrev surroundings : GpuSurroundings
surroundings = record {
  timestamp = 116 ∷ [];
  registered = λ key. false;
  connects = true;
  anchor_line = none;
  latest_block = none;
  insert_succeeds = true;
}

abbrev root : List ℕ
root =
    3 ∷ 0 ∷ 0 ∷ 0 ∷ 0 ∷ 0 ∷ 0 ∷ 0 ∷ 0 ∷ 0 ∷ 0 ∷ 0 ∷ 0 ∷ 0 ∷ 0 ∷ 0 ∷ 0 ∷ 0 ∷ 0 ∷ 0 ∷ 0 ∷ 0 ∷ 0 ∷ 0
    ∷ 0 ∷ 0 ∷ 0 ∷ 0 ∷ 0 ∷ 0 ∷ 0 ∷ 0 ∷ []

abbrev block : Block
block = record {
  block_number = 0;
  vm_name = node;
  merkle_root = zero32;
  prev_chained_root = zero32;
  chained_root = root;
  record_count = 0;
  timestamp = 116 ∷ [];
  records = [];
  leaf_hashes = [];
  internal_nodes = [];
  tree_height = 0;
}

abbrev line : List ℕ
line = checkpoint_line toy master node 0 root

abbrev flushed_guest : GpuGuest
flushed_guest = record started {
  guest = record new_guest {
    block_number = 1;
    latest_chained_root = root;
    state_initialized = true;
  };
}

node_label : is_valid_tenant_label node ≡ true
unfolding is_valid_tenant_label label_loop is_safe_label_byte
node_label = refl

flush_gpu_block_to_redis_lem_example :
    (r : GpuGuest × Stored) × (flush_gpu_block_to_redis toy master started node surroundings
      ≡ done r)
    × Flushed toy master started node surroundings r
flush_gpu_block_to_redis_lem_example =
    flush_gpu_block_to_redis_lem toy master started node surroundings node_label (omega arith)
