-- ===== src/Export/Examples.antt =====
-- A guest enclave at the end of a batch, with the toy functions.
use vpma.Prelude.{ℕ, ◌+◌, ◌≡◌, refl, true, some, List, [], ◌∷◌, arith, length}
use vpma.Crypto.{zero32}
use vpma.Crypto.Toy.{toy}
use vpma.Merkle.{done}
use vpma.Blockchain.{Block, verify_loop, chain_valid}
use vpma.Chain.{new_state, SignedLink, sign_state}
use vpma.Export.{
  Guest, new_guest, Floats, DbExportReq, Surroundings, nothing, Handled, handle_db_export,
}
use vpma.Export.Calls.{AreU64, Answer, handle_db_export_lem}
use vpma.Export.Runs.{Call, run_exports, run_exports_lem}

abbrev floats : Floats
floats = record { cpu_time = λ idle ticks. ticks; joules = λ n. n; watts = λ prev now n. n }

abbrev master : List ℕ
master = 7 ∷ []

abbrev tenant : List ℕ
tenant = 0x61 ∷ []

abbrev first_link : SignedLink
first_link = (sign_state toy master tenant new_state 100 100).1

abbrev full_guest : Guest
full_guest = record new_guest { iteration_count = 99; state_initialized = true }

abbrev request : DbExportReq
request = record {
  vm_name = tenant;
  energy_uj = 100;
  counter = first_link.link.counter;
  previous_hash = some first_link.link.previous_hash;
  signature = some first_link.signature;
  energy_delta = 100;
  processes = (1, 10) ∷ (2, 20) ∷ [];
}

abbrev surroundings : Surroundings
surroundings = record {
  now = 5;
  timestamp = 116 ∷ [];
  latest_block = nothing;
  insert_succeeds = true;
}

request-AreU64 : AreU64 request
request-AreU64 = (omega arith, (omega arith, (omega arith, tt)))

handle_db_export_lem_example :
    (h : Handled) × (handle_db_export toy master floats full_guest request surroundings ≡ done h)
    × Answer toy master floats full_guest request h
handle_db_export_lem_example =
    handle_db_export_lem toy master floats full_guest request surroundings request-AreU64

abbrev calls : List Call
calls = (request, surroundings) ∷ (request, surroundings) ∷ []

run_exports_lem_example :
    (r : Guest × List Block) × (run_exports toy master floats full_guest calls ≡ done r)
    × (verify_loop toy 0 zero32 r.1 ≡ done (chain_valid r.0.block_number))
    × (r.0.block_number ≡ 0 + length r.1)
run_exports_lem_example =
    run_exports_lem toy master floats full_guest calls refl (omega arith)
      (request-AreU64, (request-AreU64, tt))
