-- ===== src/Gpu/Examples.antt =====
-- A guest enclave and a GPU, with the toy functions.
use vpma.Prelude.{
  ℕ, ◌+◌, ◌<◌, ◌≤◌, ◌≡◌, refl, Bool, true, false, none, List, [], ◌∷◌, arith, length, All,
}
use vpma.Crypto.{zero32}
use vpma.Crypto.Toy.{toy}
use vpma.Merkle.{done}
use vpma.Blockchain.{Block, verify_loop, chain_valid}
use vpma.Export.{new_guest}
use vpma.Exporter.{Text}
use vpma.GpuReadings.{GpuGuest, GpuGroup, GpuDbExportReq, GpuSurroundings, GpuHandled}
use vpma.GpuReadings.Baselines.{total, Grows}
use vpma.Gpu.{GpuFloats, handle_gpu_db_export}
use vpma.Gpu.Charged.{energy_of, IsReading}
use vpma.Gpu.Calls.{Answer, handle_gpu_db_export_lem}
use vpma.Gpu.Runs.{GpuCall, run_gpu_exports, run_gpu_exports_lem}
use vpma.Gpu.Latch.{run_gpu_exports-refused}

abbrev floats : GpuFloats
floats = record { of_u64 = λ n. n; joules = λ n. n }

abbrev master : List ℕ
master = 7 ∷ []

abbrev node : Text
node = 0x61 ∷ []

abbrev reading : ℕ → GpuGroup
reading energy = record {
  gpu_index = 0;
  gpu_uuid = 71 ∷ 80 ∷ 85 ∷ 45 ∷ 0x62 ∷ [];
  energy_uj = energy;
  procs =
      record { pid = 5; util = 30; cgroup = [] } ∷ record { pid = 6; util = 150; cgroup = [] } ∷ [];
  tag = none;
}

abbrev request : ℕ → GpuDbExportReq
request energy = record {
  node_id = node;
  gpus = reading energy ∷ [];
  immudb_addr = [];
  tag_key = none;
  tag_epoch = 0;
}

abbrev surroundings : GpuSurroundings
surroundings = record {
  timestamp = 116 ∷ [];
  registered = λ key. false;
  connects = true;
  anchor_line = none;
  latest_block = none;
  insert_succeeds = true;
}

-- With 98 calls of the batch behind it.
abbrev gpu_guest : Bool → Bool → GpuGuest
gpu_guest initialized refused = record {
  guest = record new_guest { iteration_count = 98; state_initialized = initialized };
  gpu_energy_state = [];
  chain_resume_refused = refused;
  bindings = [];
}

reading-IsReading : (e : ℕ) → e < 2000 → All IsReading (reading e ∷ [])
reading-IsReading e small = ((omega (arith, small), omega arith), tt)

handle_gpu_db_export_lem_example :
    (h : GpuHandled) × (handle_gpu_db_export toy master floats
        (gpu_guest false false)
        (request 1000)
        surroundings
      ≡ done h)
    × Answer toy master floats (gpu_guest false false) (request 1000) surroundings h
handle_gpu_db_export_lem_example =
    handle_gpu_db_export_lem toy master floats (gpu_guest false false) (request 1000) surroundings
      (omega arith) (reading-IsReading 1000 (omega arith))

abbrev calls : List GpuCall
calls = (request 1000, surroundings) ∷ (request 1300, surroundings) ∷ []

run_gpu_exports_lem_example :
    (r : GpuGuest × List (Text × ℕ) × List Block) × (run_gpu_exports toy master floats
        (gpu_guest true false)
        calls
      ≡ done r)
    × (verify_loop toy 0 zero32 r.2 ≡ done (chain_valid r.0.guest.block_number))
    × (r.0.guest.block_number ≡ 0 + length r.2)
    × Grows [] r.0.gpu_energy_state
    × (energy_of r.1 + total [] ≤ total r.0.gpu_energy_state)
run_gpu_exports_lem_example =
    run_gpu_exports_lem toy master floats (gpu_guest true false) calls refl (omega arith)
      (reading-IsReading 1000 (omega arith), (reading-IsReading 1300 (omega arith), tt))

run_gpu_exports-refused_example :
    (r : GpuGuest × List (Text × ℕ) × List Block) × (run_gpu_exports toy master floats
        (gpu_guest true true)
        calls
      ≡ done r)
    × (r.2 ≡ [])
    × (r.0.chain_resume_refused ≡ true)
    × (r.0.guest.block_number ≡ 0)
    × (r.0.guest.latest_chained_root ≡ zero32)
run_gpu_exports-refused_example =
    run_gpu_exports-refused toy master floats (gpu_guest true true) calls refl (omega arith)
      (reading-IsReading 1000 (omega arith), (reading-IsReading 1300 (omega arith), tt))
