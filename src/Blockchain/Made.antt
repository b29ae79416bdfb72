-- ===== src/Blockchain/Made.antt =====
-- Whatever the calls, the blocks that a `Blockchain` makes pass `verify_blockchain`, and no record
-- is lost or changed.
use vpma.Prelude.{
  ℕ, ◌+◌, ◌≡◌, refl, sym, ap, ap₂, ◌∙◌, inl, inr, true, Option, none, some, List, [], ◌∷◌, ◌++◌,
  append-nil, append_assoc, arith, ◌==◌, ==_iff, ◌===◌, ===-refl, length,
}
use vpma.Crypto.{Crypto, zero32}
use vpma.Merkle.{EnergyRecord, Outcome, done, ◌>>=◌}
use vpma.Blockchain.{
  Block, Blockchain, valid, block_is_valid, chain_valid, new_chain, check_link, verify_block,
  verify_loop, verify_blockchain,
}
use vpma.Blockchain.Calls.{Call, adds, flushes, given, step, Extends, After, step_lem}

pub records_of : List Block → List EnergyRecord
records_of [] = []
records_of (b ∷ bs) = b.records ++ records_of bs

abbrev pub emit : Option Block → List Block → List Block
emit none bs = bs
emit (some b) bs = b ∷ bs

module _ (c : Crypto) where
  -- The last state and the blocks, first block first.
  pub run : Blockchain → List Call → Outcome (Blockchain × List Block)
  run chain [] = done (chain, [])
  run chain (k ∷ ks) = step c chain k >>= λ s. run s.0 ks >>= λ rest. done (rest.0, emit s.1 rest.1)

  -- What a run from a chain makes: the calls end, the blocks verify from where the chain stands,
  -- and blocks and what is left over hold exactly the records.
  record Grows (chain : Blockchain) (rs : List EnergyRecord)
      (outcome : Outcome (Blockchain × List Block)) : Type 0 where
    last : Blockchain
    blocks : List Block
    ends : outcome ≡ done (last, blocks)
    verifies :
        verify_loop c chain.current_block_number chain.latest_chained_root blocks
        ≡ done (chain_valid (chain.current_block_number + length blocks))
    counted : last.current_block_number ≡ chain.current_block_number + length blocks
    keeps : records_of blocks ++ last.accumulated_records ≡ rs

  given-cons : (k : Call) (ks : List Call) → given (k ∷ ks) ≡ given (k ∷ []) ++ given ks
  unfolding given
  given-cons (adds x ts) ks = refl
  given-cons (flushes ts) ks = refl

  -- One good block at the head of what `verify_blockchain` has not seen.
  pub verify_loop_link :
      (n : ℕ) (root : List ℕ) (b : Block) (bs : List Block)
      → verify_block c b ≡ done valid
      → b.prev_chained_root ≡ root
      → b.block_number ≡ n
      → verify_loop c n root (b ∷ bs) ≡ verify_loop c (n + 1) b.chained_root bs
  verify_loop_link n root b bs good links numbered =
      let p : (b.prev_chained_root === root) ≡ true = rw links (===-refl root) in
      let e : (b.block_number == n) ≡ true = (==_iff _ _).1 numbered in
      let g : check_link b n root valid ≡ none = unfold check_link block_is_valid in rw (p, e) in
      unfold verify_loop in rw (good, ◌>>=◌, g)

  pub verify_loop_step :
      (chain chain' : Blockchain) (b : Block) (rs : List EnergyRecord) (bs : List Block)
      → Extends c chain chain' b rs
      → verify_loop c chain.current_block_number chain.latest_chained_root (b ∷ bs)
        ≡ verify_loop c chain'.current_block_number chain'.latest_chained_root bs
  verify_loop_step chain chain' b rs bs x =
      verify_loop_link _ _ b bs x.checks x.links x.numbered
      ∙ ap₂ (λ i d. verify_loop c i d bs) (sym x.counts) (sym x.moves)

  grow :
      (chain : Blockchain) (k : Call) (ks : List Call) (r : Blockchain × Option Block)
      → step c chain k ≡ done r
      → After c chain (chain.accumulated_records ++ given (k ∷ [])) r
      → Grows r.0 (r.0.accumulated_records ++ given ks) (run r.0 ks)
      → Grows chain (chain.accumulated_records ++ given (k ∷ ks)) (run chain (k ∷ ks))
  unfolding After
  grow chain k ks r e (inl (no_block, latest, number, gathered)) g = record {
    last = g.last;
    blocks = g.blocks;
    ends = unfold run in rw (e, ◌>>=◌, g.ends, ◌>>=◌, no_block, emit);
    verifies = cc (g.verifies);
    counted = rw (← number) g.counted;
    keeps = cc (
      g.keeps,
      append_assoc chain.accumulated_records (given (k ∷ [])) (given ks),
      given-cons k ks,
    );
  }
  grow chain k ks r e (inr (b, made, x)) g = record {
    last = g.last;
    blocks = b ∷ g.blocks;
    ends = unfold run in rw (e, ◌>>=◌, g.ends, ◌>>=◌, made, emit);
    verifies =
        verify_loop_step chain r.0 b _ g.blocks x
        ∙ g.verifies
        ∙ ap (λ n. done (chain_valid n)) (omega (arith, x.counts));
    counted = omega (arith, g.counted, x.counts);
    keeps =
        let rest : r.0.accumulated_records ++ given ks ≡ given ks = rw (x.empties) in
        unfold records_of in
        cc (
          append_assoc b.records (records_of g.blocks) g.last.accumulated_records,
          g.keeps,
          x.holds,
          rest,
          append_assoc chain.accumulated_records (given (k ∷ [])) (given ks),
          given-cons k ks,
        );
  }

  run-Grows :
      (chain : Blockchain) (ks : List Call)
      → Grows chain (chain.accumulated_records ++ given ks) (run chain ks)
  run-Grows chain [] = record {
    last = chain;
    blocks = [];
    ends = unfold run in refl;
    verifies = unfold verify_loop in ap (λ n. done (chain_valid n)) (omega arith);
    counted = omega arith;
    keeps = unfold records_of given in sym (append-nil chain.accumulated_records);
  }
  run-Grows chain (k ∷ ks) =
      let (r, e, a) = step_lem c chain k in grow chain k ks r e a (run-Grows r.0 ks)

  pub verify_blockchain_lem : (bs : List Block) → verify_blockchain c bs ≡ verify_loop c 0 zero32 bs
  unfolding verify_blockchain verify_loop
  verify_blockchain_lem [] = refl
  verify_blockchain_lem (b ∷ bs) = refl

  -- From a new chain, whatever the batch size and the calls (records added, flushes), the calls
  -- end without a panic, `verify_blockchain` accepts the blocks that they made with their number,
  -- the chain's block number is that number, and the records of the blocks followed by those still
  -- gathered are the records added, in order.
  pub verify_blockchain-run :
      (vm_name : List ℕ) (batch_size : ℕ) (calls : List Call)
      → (chain : Blockchain) × (blocks : List Block) × (run (new_chain vm_name batch_size) calls
          ≡ done (chain, blocks))
        × (verify_blockchain c blocks ≡ done (chain_valid (length blocks)))
        × (chain.current_block_number ≡ length blocks)
        × (records_of blocks ++ chain.accumulated_records ≡ given calls)
  unfolding new_chain
  verify_blockchain-run vm_name batch_size calls =
      let g = run-Grows (new_chain vm_name batch_size) calls in
      (
        g.last,
        g.blocks,
        g.ends,
        verify_blockchain_lem g.blocks ∙ g.verifies ∙ ap (λ n. done (chain_valid n)) (omega arith),
        omega (arith, g.counted),
        g.keeps,
      )
