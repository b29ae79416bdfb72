-- ===== src/GpuFlush/Stores.antt =====
-- What a flush stores, and how it leaves the chain.
use vpma.Prelude.{
  ℕ, ◌+◌, ◌%◌, ◌^◌, ◌<◌, ◌≡◌, refl, inl, inr, Bool, true, false, Option, none, some, List, [],
  if◌then◌else◌, arith, Bool-cases,
}
use vpma.Crypto.{Crypto}
use vpma.Text.{is_valid_tenant_label}
use vpma.Anchor.{verify_checkpoint_line}
use vpma.Anchor.Lines.{verify-checkpoint_line}
use vpma.Merkle.{done, ◌>>=◌}
use vpma.Blockchain.{Block}
use vpma.Blockchain.Calls.{new_block_lem}
use vpma.Blockchain.Tamper.{verify_block-root}
use vpma.Export.Stored.{Stores, stays, moves}
use vpma.GpuReadings.{GpuGuest, GpuSurroundings, Stored}
use vpma.GpuFlush.{initialize, store_block, flush_gpu_block_to_redis}
use vpma.GpuFlush.Resumes.{
  Begins, initialize_lem, running, unreachable, compared, Compared, Head, resumes, starts, differs,
}

abbrev pub block_of : Stored → Option Block
block_of none = none
block_of (some (b, line)) = some b

-- The state after a full batch has been dealt with.
abbrev emptied : GpuGuest → ℕ → List ℕ → GpuGuest
emptied t n root = record t {
  guest = record t.guest {
    block_number = n;
    latest_chained_root = root;
    iteration_count = 0;
    accumulated_records = [];
  };
}

module _ (c : Crypto) (master : List ℕ) where
  -- The anchor that is sent is accepted for the tenant, with the number and root of the block.
  abbrev pub Attested : List ℕ → Stored → Type 0
  Attested tenant none = Unit {0}
  Attested tenant (some (b, line)) =
      verify_checkpoint_line c master tenant line ≡ some (b.block_number, b.chained_root)

  -- The ends of a flush: the chain is not extended after a refusal, then and later; or the batch is
  -- dealt with, from the state with which the flush begins.
  pub data Flushed (s : GpuGuest) (tenant : List ℕ) (env : GpuSurroundings)
      : GpuGuest × Stored → Type 0 where
    held : s.chain_resume_refused ≡ true → Flushed s tenant env (s, none)
    refused_now :
        (t : GpuGuest)
        → s.chain_resume_refused ≡ false
        → Begins c master s tenant env (t, false)
        → Flushed s tenant env (t, none)
    appends :
        (t : GpuGuest) (r : GpuGuest × Stored)
        → s.chain_resume_refused ≡ false
        → Begins c master s tenant env (t, true)
        → Stores c t.guest r.0.guest (block_of r.1)
        → Attested tenant r.1
        → r.0 ≡ emptied t r.0.guest.block_number r.0.guest.latest_chained_root
        → Flushed s tenant env r

  store_block_lem :
      (t : GpuGuest) (tenant : List ℕ) (env : GpuSurroundings)
      → is_valid_tenant_label tenant ≡ true
      → t.guest.block_number < 2 ^ 64
      → (r : GpuGuest × Stored) × (store_block c master t tenant env ≡ done r)
        × Stores c t.guest r.0.guest (block_of r.1)
        × Attested tenant r.1
        × (r.0 ≡ emptied t r.0.guest.block_number r.0.guest.latest_chained_root)
  unfolding store_block
  store_block_lem t tenant env label small =
      let g = t.guest in
      let (b, made, good, links, number, holds) =
        new_block_lem c g.block_number tenant g.latest_chained_root g.accumulated_records
          env.timestamp in
      let (size, bytes) = verify_block-root c b good in
      elim (Bool-cases env.insert_succeeds) [
        | inl put ↦ (
          (emptied t ((g.block_number + 1) % 2 ^ 64) b.chained_root, some (b, _)),
          rw (made, ◌>>=◌, put) refl,
          moves b refl good links number refl refl,
          verify-checkpoint_line c master tenant b.block_number b.chained_root label
              (rw number small) size bytes,
          refl,
        )
        | inr lost ↦ (
          (emptied t g.block_number g.latest_chained_root, none),
          rw (made, ◌>>=◌, lost) refl,
          stays refl refl refl,
          tt,
          refl,
        )
      ]

  number_bound :
      (s : GpuGuest) (a b : Head) (r : GpuGuest × Bool)
      → Compared c master s a b r
      → s.guest.block_number < 2 ^ 64
      → r.0.guest.block_number < 2 ^ 64
  number_bound s a b r (resumes n root) small = omega arith
  number_bound s a b r starts small = small
  number_bound s a b r (differs _ _ ne) small = small

  start_number_bound :
      (s : GpuGuest) (tenant : List ℕ) (env : GpuSurroundings) (r : GpuGuest × Bool)
      → Begins c master s tenant env r
      → s.guest.block_number < 2 ^ 64
      → r.0.guest.block_number < 2 ^ 64
  start_number_bound s tenant env r (running on) small = small
  start_number_bound s tenant env r (unreachable off down) small = small
  start_number_bound s tenant env r (compared _ off up same) small = number_bound s _ _ r same small

  -- For a valid tenant label and a u64 block number a flush ends without a panic, in one of the
  -- ways of `Flushed`: nothing happens because the resumption was refused before, or it is refused
  -- now because the verified anchor and the latest stored block are not the same; or, from a state
  -- that was initialized, or could not be, or is resumed at exactly that block or started where
  -- there is neither, the batch is emptied and, where the insertion succeeds, the block is a good
  -- one that links to the chain's head, with an anchor line that verifies with the number and root of that block.
  pub flush_gpu_block_to_redis_lem :
      (s : GpuGuest) (tenant : List ℕ) (env : GpuSurroundings)
      → is_valid_tenant_label tenant ≡ true
      → s.guest.block_number < 2 ^ 64
      → (r : GpuGuest × Stored) × (flush_gpu_block_to_redis c master s tenant env ≡ done r)
        × Flushed s tenant env r
  unfolding flush_gpu_block_to_redis
  flush_gpu_block_to_redis_lem s tenant env label small =
      go_on s.chain_resume_refused (initialize c master s tenant env) refl
        (initialize_lem c master s tenant env)
    where
      go_on :
          (refused : Bool) (i : GpuGuest × Bool)
          → s.chain_resume_refused ≡ refused
          → Begins c master s tenant env i
          → (r : GpuGuest × Stored) × ((if refused
                then done (s, none)
                else if i.1
                then store_block c master i.0 tenant env
                else done (i.0, none))
              ≡ done r)
            × Flushed s tenant env r
      go_on true i e begun = ((s, none), refl, held e)
      go_on false (t, false) e begun = ((t, none), refl, refused_now t e begun)
      go_on false (t, true) e begun =
          let (r, eq, stored, attested, empty) =
            store_block_lem t tenant env label
              (start_number_bound s tenant env (t, true) begun small) in
          (r, eq, appends t r e begun stored attested empty)
