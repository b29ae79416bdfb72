-- ===== src/Blockchain/Tamper.antt =====
-- The last chained root of a chain that `verify_blockchain` accepts commits to every record in it.
use vpma.Prelude.{
  ℕ, ◌+◌, ◌%◌, ◌^◌, ◌<◌, ◌≡◌, ◌≢◌, refl, sym, ap, ◌∙◌, ◌⊎◌, inl, inr, Option, none, some, List, [],
  ◌∷◌, ◌++◌, map, Mem, All-split, All-members, arith, ===-sound, length, length-map, All,
  Option-cases,
}
use vpma.Crypto.{Crypto, Collision, zero32}
use vpma.Encoding.{encode_chained_root}
use vpma.Encoding.Domains.{encode_chained_root-injective}
use vpma.Merkle.{EnergyRecord, to_bytes, hash_leaf, commit_root, MerkleTree, done, ◌>>=◌, build}
use vpma.Merkle.Levels.{spec_fold_to_root}
use vpma.Merkle.Binding.{sha256-cancel}
use vpma.Merkle.Root.{build-compute_root_from_leaves, compute_root_from_leaves_lem}
use vpma.Merkle.Records.{InRange, tree_inputs, records-cancel}
use vpma.Blockchain.{
  Block, BlockVerifyResult, valid, block_is_valid, merkle_root_mismatch, chained_root_mismatch,
  record_count_mismatch, chain_valid, compute_chained_root, check_block, verify_block, check_link,
  verify_loop, verify_blockchain, unwrap_or,
}

-- What the checks on one block establish.
pub record Checked (c : Crypto) (b : Block) (tree : MerkleTree) : Type 0 where
  pub merkle : unwrap_or tree.root zero32 ≡ b.merkle_root
  pub chained : compute_chained_root c b.prev_chained_root b.merkle_root ≡ b.chained_root
  pub counted : length b.records % 2 ^ 32 ≡ b.record_count

-- The hypotheses on a block: some records, of the machine types, fewer than 2^64.
pub record HoldsRecords (b : Block) : Type 0 where
  pub nonempty : 0 < length b.records
  pub fits : length b.records < 2 ^ 64
  pub in_range : All InRange b.records

some-unwrap_or {ℓ} : {A : Type ℓ} (o : Option A) (x d : A) → o ≡ some x → o ≡ some (unwrap_or o d)
unfolding unwrap_or
some-unwrap_or none x d h = cc
some-unwrap_or (some y) x d h = refl

module _ (c : Crypto) where
  check_block-Checked :
      (b : Block) (t : MerkleTree)
      → check_block c b (unwrap_or t.root zero32) ≡ valid
      → Checked c b t
  unfolding check_block
  check_block-Checked b t h = record {
    merkle = ===-sound _ _ (ground arith);
    chained = ===-sound _ _ (ground arith);
    counted = ground arith;
  }

  check_link-none :
      (b : Block) (i : ℕ) (prev : List ℕ) (r : BlockVerifyResult)
      → check_link b i prev r ≡ none
      → (r ≡ valid) × (b.prev_chained_root ≡ prev) × (b.block_number ≡ i)
  unfolding check_link block_is_valid
  check_link-none b i prev valid h = (refl, ===-sound _ _ (ground arith), ground arith)
  check_link-none b i prev (merkle_root_mismatch s t) h = cc
  check_link-none b i prev (chained_root_mismatch s t) h = cc
  check_link-none b i prev (record_count_mismatch s t) h = cc

  check_link-some :
      (b : Block) (i : ℕ) (prev : List ℕ) (r : BlockVerifyResult) (n : ℕ)
      → check_link b i prev r ≢ some (chain_valid n)
  unfolding check_link
  check_link-some b i prev r n h = ground arith

  -- What the loop establishes of its first block, and of the rest.
  verify_loop-first :
      (i : ℕ) (prev : List ℕ) (b : Block) (rest : List Block) (n : ℕ)
      → verify_loop c i prev (b ∷ rest) ≡ done (chain_valid n)
      → (t : MerkleTree) × (build c b.records ≡ done t)
        × Checked c b t
        × (b.prev_chained_root ≡ prev)
        × (b.block_number ≡ i)
        × (verify_loop c (i + 1) b.chained_root rest ≡ done (chain_valid n))
  verify_loop-first i prev b rest n h =
      let built = build-compute_root_from_leaves c b.records in
      let t = built.0 in
      let r = check_block c b (unwrap_or t.root zero32) in
      let e : verify_block c b ≡ done r = unfold verify_block in rw (built.1, ◌>>=◌) in
      elim (Option-cases (check_link b i prev r)) [
        | inl goes_on ↦
            let (ok, link, num) = check_link-none b i prev r goes_on in
            (
              t,
              built.1,
              check_block-Checked b t ok,
              link,
              num,
              unfold verify_loop in (rw (e, ◌>>=◌, goes_on) at h),
            )
        | inr (s, stops) ↦
            let d : done s ≡ done (chain_valid n) =
              unfold verify_loop in (rw (e, ◌>>=◌, stops) at h) in
            absurd (check_link-some b i prev r n (cc (stops, d)))
      ]

  -- The chained root after some blocks.
  pub tip : List ℕ → List Block → List ℕ
  tip prev [] = prev
  tip prev (b ∷ bs) = tip b.chained_root bs

  length-compute_chained_root : (p m : List ℕ) → length (compute_chained_root c p m) ≡ 32
  unfolding compute_chained_root
  length-compute_chained_root p m = c.length-sha256 (encode_chained_root p m)

  root-some :
      (b : Block) (t : MerkleTree)
      → HoldsRecords b
      → build c b.records ≡ done t
      → t.root ≡ some (unwrap_or t.root zero32)
  root-some b t h e =
      let (t', e', leaves, count, root) = build-compute_root_from_leaves c b.records in
      let f = λ (x : EnergyRecord). hash_leaf c (to_bytes x) in
      let top =
        compute_root_from_leaves_lem c t'.leaf_hashes
          (omega (arith, h.nonempty, ap length leaves, length-map f b.records)) in
      let r =
        commit_root c (length t'.leaf_hashes)
          (spec_fold_to_root c (length t'.leaf_hashes) t'.leaf_hashes) in
      some-unwrap_or t.root r zero32 (cc (top, root, e, e'))

  verify_blockchain-loop :
      (bs : List Block) (n : ℕ)
      → verify_blockchain c bs ≡ done (chain_valid n)
      → verify_loop c 0 zero32 bs ≡ done (chain_valid n)
  unfolding verify_blockchain verify_loop
  verify_blockchain-loop [] n h = h
  verify_blockchain-loop (b ∷ bs) n h = h

  -- The chained root of a good block is a digest.
  pub verify_block-root :
      (b : Block)
      → verify_block c b ≡ done valid
      → (length b.chained_root ≡ 32) × All (λ n. n < 256) b.chained_root
  verify_block-root b h =
      let built = build-compute_root_from_leaves c b.records in
      let r = check_block c b (unwrap_or (built.0).root zero32) in
      let e : verify_block c b ≡ done r = unfold verify_block in rw (built.1, ◌>>=◌) in
      let same : done r ≡ done valid = sym e ∙ h in
      let checked = check_block-Checked b built.0 cc in
      rw (← checked.chained) (
        unfold compute_chained_root in
        (
          c.length-sha256 (encode_chained_root b.prev_chained_root b.merkle_root),
          c.sha256_bytes (encode_chained_root b.prev_chained_root b.merkle_root),
        ))

  -- Everything that is hashed for some blocks: the chained root and the tree of each.
  abbrev pub chain_inputs : List Block → List (List ℕ)
  chain_inputs [] = []
  chain_inputs (b ∷ bs) =
      encode_chained_root b.prev_chained_root b.merkle_root
      ∷ (tree_inputs c b.records ++ chain_inputs bs)

module _ (c : Crypto) (In : List ℕ → Type 0) where
  chained-cancel :
      (p m q n : List ℕ)
      → length p ≡ length q
      → In (encode_chained_root p m)
      → In (encode_chained_root q n)
      → compute_chained_root c p m ≡ compute_chained_root c q n
      → ((p ≡ q) × (m ≡ n)) ⊎ Collision c In
  unfolding compute_chained_root
  chained-cancel p m q n l i j e =
      elim (sha256-cancel c In (encode_chained_root p m) (encode_chained_root q n) i j e) [
        | inl s ↦ inl (encode_chained_root-injective p m q n l s)
        | inr k ↦ inr k
      ]

  -- Two blocks that pass their checks and agree in the Merkle root hold the same records.
  merkle-cancel :
      (b d : Block) (s t : MerkleTree)
      → HoldsRecords b
      → HoldsRecords d
      → All In (tree_inputs c b.records)
      → All In (tree_inputs c d.records)
      → build c b.records ≡ done s
      → build c d.records ≡ done t
      → Checked c b s
      → Checked c d t
      → b.merkle_root ≡ d.merkle_root
      → (b.records ≡ d.records) ⊎ Collision c In
  merkle-cancel b d s t p q i j eb ed u v e =
      records-cancel c In b.records d.records s t b.merkle_root p.fits q.fits p.in_range q.in_range
        i j eb ed (cc (root-some c b s p eb, u.merkle)) (cc (root-some c d t q ed, v.merkle))

  chains-cancel :
      (k h m n : ℕ) (p q : List ℕ) (bs ds : List Block)
      → length bs ≡ length ds
      → length p ≡ 32
      → length q ≡ 32
      → All HoldsRecords bs
      → All HoldsRecords ds
      → All In (chain_inputs c bs)
      → All In (chain_inputs c ds)
      → verify_loop c k p bs ≡ done (chain_valid m)
      → verify_loop c h q ds ≡ done (chain_valid n)
      → tip c p bs ≡ tip c q ds
      → ((p ≡ q) × (map (λ (b : Block). b.records) bs ≡ map (λ (b : Block). b.records) ds))
        ⊎ Collision c In
  unfolding tip
  chains-cancel k h m n p q [] [] l lp lq hb hd ib id vb vd e = inl (e, refl)
  chains-cancel k h m n p q [] (d ∷ ds) l lp lq hb hd ib id vb vd e = absurd (omega arith)
  chains-cancel k h m n p q (b ∷ bs) [] l lp lq hb hd ib id vb vd e = absurd (omega arith)
  chains-cancel k h m n p q (b ∷ bs) (d ∷ ds) l lp lq hb hd ib id vb vd e =
      let (s, eb, cb, kb, nb, rb) = verify_loop-first c k p b bs m vb in
      let (t, ed, cd, kd, nd, rd) = verify_loop-first c h q d ds n vd in
      let lb : length b.chained_root ≡ 32 =
        ap length (sym cb.chained)
        ∙ length-compute_chained_root c b.prev_chained_root b.merkle_root in
      let ld : length d.chained_root ≡ 32 =
        ap length (sym cd.chained)
        ∙ length-compute_chained_root c d.prev_chained_root d.merkle_root in
      let (xb, tb) = All-split In (tree_inputs c b.records) (chain_inputs c bs) ib.1 in
      let (xd, td) = All-split In (tree_inputs c d.records) (chain_inputs c ds) id.1 in
      elim (chains-cancel (k + 1) (h + 1) m n b.chained_root d.chained_root bs ds (omega arith) lb
        ld hb.1 hd.1 tb td rb rd e) [
          | inr k ↦ inr k
          | inl (same, tails) ↦
              elim (chained-cancel b.prev_chained_root b.merkle_root d.prev_chained_root
                d.merkle_root (ap length kb ∙ lp ∙ sym lq ∙ ap length (sym kd)) ib.0 id.0
                (cc (cb.chained, cd.chained))) [
                  | inr k ↦ inr k
                  | inl (prevs, roots) ↦
                      elim (merkle-cancel b d s t hb.0 hd.0 xb xd eb ed cb cd roots) [
                        | inr k ↦ inr k
                        | inl heads ↦ inl (cc (prevs, kb, kd), cc (heads, tails))
                      ]
                ]
        ]

-- Two chains of equally many blocks, each block with at least one record, its records in range and
-- fewer than 2^64, that `verify_blockchain` accepts and whose last chained roots are equal hold the
-- same records block by block, or two different ones of the inputs that are hashed for these two
-- chains have one hash.
pub chains_bound_by_tip :
    (c : Crypto) (bs ds : List Block) (m n : ℕ)
    → length bs ≡ length ds
    → All HoldsRecords bs
    → All HoldsRecords ds
    → verify_blockchain c bs ≡ done (chain_valid m)
    → verify_blockchain c ds ≡ done (chain_valid n)
    → tip c zero32 bs ≡ tip c zero32 ds
    → (map (λ (b : Block). b.records) bs ≡ map (λ (b : Block). b.records) ds)
      ⊎ Collision c (λ x. Mem x (chain_inputs c bs ++ chain_inputs c ds))
chains_bound_by_tip c bs ds m n l hb hd vb vd e =
    let (i, j) =
      All-split _ (chain_inputs c bs) (chain_inputs c ds)
        (All-members _ (chain_inputs c bs ++ chain_inputs c ds) (λ x m. m)) in
    elim (chains-cancel c _ 0 0 m n zero32 zero32 bs ds l refl refl hb hd i j
      (verify_blockchain-loop c bs m vb) (verify_blockchain-loop c ds n vd) e) [
        | inl same ↦ inl same.1
        | inr k ↦ inr k
      ]
