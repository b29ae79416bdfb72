-- ===== src/Lib.antt =====
-- VPMA: the verifiable part of an energy monitor, modelled on its Rust sources.
--
-- A host enclave (sgx/) and a guest enclave (sgx_vm/) turn energy readings into records that can be
-- checked later. Both call one crate of pure functions, verified/src/lib.rs. A reading goes through
-- these parts:
--   * the guest checks that its host's energy chain continues (Chain) and that its own boot and
--     binary are the expected ones (Admission, Ima);
--   * the host shares its energy out to virtual machines (Exporter), checks the tags of the readings
--     and signs one chain step for each machine (Host);
--   * in each export the guest verifies the step and shares the machine's energy out to processes
--     (Export, Attribution); the energy of its GPUs goes the same way, with its own checks (Gpu);
--   * each record is encoded to bytes (Encoding) and hashed into the leaf of a Merkle tree (Merkle);
--   * batches of records become blocks, each of which is chained to the one before (Blockchain);
--   * blocks are stored in a Redis server and found there again (RedisClient, Redis);
--   * the last chained root of a tenant is signed into a checkpoint line (Anchor), which is compared
--     with the stored blocks on a restart (decide_resume in Admission).
--
-- Files and sources:
--   * Encoding.antt: the encoders and their specifications, verified/src/lib.rs. Encoding/Loops
--     compares the two, Encoding/Fields and Encoding/Domains are about injectivity.
--   * Text.antt: tests and parsers on bytes of verified/src/lib.rs, and hex_decode of
--     sgx/src/lib.rs.
--   * Crypto.antt: SHA-256, HMAC and hexadecimal text as parameters (sha2, hmac and hex are other
--     packages), with their lengths and byte ranges; Crypto/Toy.antt is a concrete choice for tests.
--   * Merkle.antt: sgx_vm/src/merkle.rs and fold_to_root of verified/src/lib.rs. An index out of
--     range is a panic, as a value of Outcome.
--   * Blockchain.antt: sgx_vm/src/blockchain.rs. The clock is an argument of the calls that read it.
--   * Anchor.antt: parse_checkpoint_line of verified/src/lib.rs; sign_checkpoint, checkpoint_line
--     and verify_checkpoint_line of sgx_vm/src/checkpoint.rs.
--   * Sealed.antt: Checkpoint and SealedStorage of sgx_vm/src/checkpoint.rs. The file is passed in and
--     out; reading and writing can fail.
--   * Chain.antt: admit_chain_step of verified/src/lib.rs; the chain states with
--     ecall_verify_energy_chain and ecall_sign_energy_chain of sgx_vm/src/lib.rs. The states of all
--     tenants are passed in and out, and the map is an association list.
--   * Admission.antt: admit_boot, decide_resume, admit_measurement_tag and choose_collector_hash of
--     verified/src/lib.rs.
--   * Ima.antt: replay_find_prefix and select_collector_hash_verified of verified/src/lib.rs,
--     reconcile_ima_against_pcr10 of sgx/src/lib.rs. Ima/Log is parse_ima_log there, up to
--     verify_ima_log_against_pcr10; Ima/Log/Guest is the function of that name in sgx_vm/src/lib.rs.
--   * Attribution.antt: attribute_by_weight of verified/src/lib.rs.
--   * Siptag.antt: sipround, absorb and siptag of verified/src/lib.rs, the keyed tag of a measurement.
--   * Export.antt: handle_db_export of sgx_vm/src/main.rs, which composes the chain check, the
--     attribution and the blocks. Export/Calls is about one call, Export/Runs about runs of calls.
--     The answers of the Redis server and the clock are arguments, and so is the arithmetic on f64.
--   * GpuReadings.antt, GpuFlush.antt, Gpu.antt: handle_gpu_db_export and flush_gpu_block_to_redis of
--     sgx_vm/src/main.rs: the checks of one reading and its weights, the flush of a batch with the
--     resumption of the chain, and the cycle that composes them with Chain, Attribution, Siptag,
--     Admission, Anchor and Blockchain. Gpu/Calls is about one call, Gpu/Runs and Gpu/Latch about
--     runs. GpuOwner.antt: resolve_gpu_owner there, which reads the text of a cgroup file. The
--     registry of bindings, the Redis server, the clock and f64 are arguments.
--   * Redis.antt: the protocol of sgx_vm/src/redis_store.rs on bytes; Redis/Wire has the form of each
--     value that a server writes. RedisClient.antt: the operations there on a connection, with the
--     server as an argument; RedisClient/Insert is insert_block.
--   * Exporter.antt: src/exporters/qemu.rs. The conversions from and to f64 are arguments.
--     HostTotal.antt: compute_total_host_energy there and the call of sgx/src/lib.rs for it.
--   * Host.antt: the reading checks and signing loops of ecall_compute_vm_energy_simple and
--     ecall_compute_vm_energy_cgroup in sgx/src/lib.rs, with the chains that they keep. Host and guest
--     derive the key of a chain from a master key each, two parameters: in SGX builds the two keys
--     differ, since each enclave has its own function for it; elsewhere they are the same.
--   * Quote.antt: verify_quote_structure of sgx/src/lib.rs and of sgx_vm/src/lib.rs and the reads of
--     verified/src/lib.rs. An index or slice out of range is a panic, as a value of Checked.
--   * Calendar.antt: the timestamps of sgx_vm/src/blockchain.rs and lib.rs, as fields.
--   * Prelude.antt and its children: Boolean tests, list and bit lemmas, the integers.
--
-- Numbers are natural numbers; a machine type appears as `% 2 ^ w` where the source can wrap around,
-- and as a bound in a hypothesis elsewhere. Floating-point fields of a record are the 64 bits that
-- the source takes of them. Texts are lists of bytes.
--
-- Loops over a slice recurse on the list. The loops that halve a level (the root fold, the tree
-- build, proofs) run on fuel equal to the number of leaves: a level of n > 1 nodes has fewer than n
-- parents, so the loop ends before the fuel does. The decimal text of a u64 uses fuel 20, its
-- greatest number of digits. The loop over the years runs on any fuel above the number of days since
-- 1970: each round takes off at least 365 of them. The reading of a response has the number of
-- nested calls that the stack holds, of which one more than the number of bytes is enough; slice::chunks has the length of
-- the slice.
--
-- Not modelled: sockets, TLS, the TPM tools and the collectors of the host, which are input
-- and output; the checks of pointers and UTF-8 at the foreign interface; log lines and error texts;
-- the JSON of requests and the buffers that responses are copied to; the second anchor signature of a
-- flush, which mbedtls makes; the servers that dispatch commands and their nonces;
-- the third copy of the date loops, in sgx_vm/src/main.rs. A block whose insertion fails may be in the
-- store in part: the guest takes it as not stored, and so do the models of the two cycles.
pub mod Prelude
pub mod Encoding
pub mod Crypto
pub mod Merkle
pub mod Blockchain
pub mod Text
pub mod Anchor
pub mod Chain
pub mod Admission
pub mod Ima
pub mod Attribution
pub mod Sealed
pub mod Siptag
pub mod Export
pub mod Exporter
pub mod GpuOwner
pub mod GpuReadings
pub mod GpuFlush
pub mod Gpu
pub mod Host
pub mod Quote
pub mod Calendar
pub mod Redis
pub mod RedisClient
pub mod HostTotal
