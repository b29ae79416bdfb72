-- ===== src/Blockchain/Calls.antt =====
-- What each call on a `Blockchain` does: it makes no block and gathers, or makes one good block.
use vpma.Prelude.{
  ℕ, ◌+◌, ◌%◌, ◌^◌, ◌≡◌, refl, sym, ap, subst, ◌∙◌, ◌⊎◌, inl, inr, true, Option, none, some, List,
  [], ◌∷◌, ◌++◌, append-nil, arith, leb, ◌==◌, ==_iff, ===-refl, length, Bool-cases,
}
use vpma.Crypto.{Crypto, zero32}
use vpma.Merkle.{EnergyRecord, MerkleTree, Outcome, done, ◌>>=◌}
use vpma.Merkle.Root.{build-compute_root_from_leaves}
use vpma.Blockchain.{
  Block, Blockchain, valid, compute_chained_root, new_block, check_block, verify_block,
  create_block, with_block, add_record, flush, unwrap_or,
}

-- The public calls that change a `Blockchain`, each with the time at which it is made.
pub data Call : Type 0 where
  adds : EnergyRecord → List ℕ → Call
  flushes : List ℕ → Call

-- The record that a call hands over.
unfoldable pub given : List Call → List EnergyRecord
given [] = []
given (adds r ts ∷ calls) = r ∷ given calls
given (flushes ts ∷ calls) = given calls

module _ (c : Crypto) where
  unfoldable pub step : Blockchain → Call → Outcome (Blockchain × Option Block)
  step chain (adds r timestamp) = add_record c chain r timestamp
  step chain (flushes timestamp) = flush c chain timestamp

  -- What a new block is to the chain that made it.
  pub record Extends (chain chain' : Blockchain) (b : Block) (rs : List EnergyRecord) : Type 0 where
    pub checks : verify_block c b ≡ done valid
    pub links : b.prev_chained_root ≡ chain.latest_chained_root
    pub numbered : b.block_number ≡ chain.current_block_number
    pub holds : b.records ≡ rs
    pub moves : chain'.latest_chained_root ≡ b.chained_root
    pub counts : chain'.current_block_number ≡ chain.current_block_number + 1
    pub empties : chain'.accumulated_records ≡ []

  block_of : Blockchain → MerkleTree → List ℕ → Block
  block_of chain t ts = record {
    block_number = chain.current_block_number;
    vm_name = chain.vm_name;
    merkle_root = unwrap_or t.root zero32;
    prev_chained_root = chain.latest_chained_root;
    chained_root = compute_chained_root c chain.latest_chained_root (unwrap_or t.root zero32);
    record_count = length chain.accumulated_records % 2 ^ 32;
    timestamp = ts;
    records = chain.accumulated_records;
    leaf_hashes = t.leaf_hashes;
    internal_nodes = t.internal_nodes;
    tree_height = t.height;
  }

  after : Blockchain → Block → Blockchain
  after chain b = record chain {
    accumulated_records = [];
    latest_chained_root = b.chained_root;
    current_block_number = chain.current_block_number + 1;
  }

  check_block_of :
      (chain : Blockchain) (t : MerkleTree) (ts : List ℕ)
      → check_block c (block_of chain t ts) (unwrap_or t.root zero32) ≡ valid
  unfolding check_block block_of
  check_block_of chain t ts =
      let same : (length chain.accumulated_records % 2 ^ 32
            == length chain.accumulated_records % 2 ^ 32)
          ≡ true =
        (==_iff _ _).1 refl in
      simp (===-refl, same)

  pub create_block_lem :
      (chain : Blockchain) (ts : List ℕ)
      → (made : Blockchain × Block) × (create_block c chain ts ≡ done made)
        × Extends chain made.0 made.1 chain.accumulated_records
  create_block_lem chain ts =
      let built = build-compute_root_from_leaves c chain.accumulated_records in
      let t = built.0 in
      let b = block_of chain t ts in
      (
        (after chain b, b),
        unfold create_block new_block block_of after in rw (built.1, ◌>>=◌),
        record {
          checks =
              unfold verify_block block_of in
              rw (built.1, ◌>>=◌) (ap done (check_block_of chain t ts));
          links = unfold block_of in refl;
          numbered = unfold block_of in refl;
          holds = unfold block_of in refl;
          moves = unfold after in refl;
          counts = unfold after in refl;
          empties = unfold after in refl;
        },
      )

  -- A call makes no block and leaves the links alone, or makes one block of all that was gathered.
  unfoldable pub After : Blockchain → List EnergyRecord → Blockchain × Option Block → Type 0
  After chain rs r =
      ((r.1 ≡ none)
        × (r.0.latest_chained_root ≡ chain.latest_chained_root)
        × (r.0.current_block_number ≡ chain.current_block_number)
        × (r.0.accumulated_records ≡ rs))
      ⊎ ((b : Block) × (r.1 ≡ some b) × Extends chain r.0 b rs)

  with_block_lem :
      (chain : Blockchain) (ts : List ℕ)
      → (r : Blockchain × Option Block) × (with_block (create_block c chain ts) ≡ done r)
        × After chain chain.accumulated_records r
  unfolding After
  with_block_lem chain ts =
      let (made, e, x) = create_block_lem chain ts in
      ((made.0, some made.1), unfold with_block in rw (e, ◌>>=◌), inr (made.1, refl, x))

  flush_full :
      (chain : Blockchain) (ts : List ℕ) (x : EnergyRecord) (xs : List EnergyRecord)
      → chain.accumulated_records ≡ x ∷ xs
      → flush c chain ts ≡ with_block (create_block c chain ts)
  unfolding flush
  flush_full chain ts x xs e = ground arith

  flush_lem :
      (chain : Blockchain) (ts : List ℕ) (rs : List EnergyRecord)
      → chain.accumulated_records ≡ rs
      → (r : Blockchain × Option Block) × (flush c chain ts ≡ done r) × After chain rs r
  unfolding After
  flush_lem chain ts [] e = ((chain, none), unfold flush in ground arith, inl (refl, refl, refl, e))
  flush_lem chain ts (x ∷ xs) e =
      let (r, w, a) = with_block_lem chain ts in
      (r, flush_full chain ts x xs e ∙ w, subst (λ l. After chain l r) e a)

  -- The links of a chain do not depend on what it has gathered.
  After-grown :
      (chain : Blockchain) (x : EnergyRecord) (r : Blockchain × Option Block)
      → After
          (record chain { accumulated_records = chain.accumulated_records ++ (x ∷ []) })
          (chain.accumulated_records ++ (x ∷ []))
          r
      → After chain (chain.accumulated_records ++ (x ∷ [])) r
  unfolding After
  After-grown chain x r (inl h) = inl h
  After-grown chain x r (inr (b, e, g)) = inr (
    b,
    e,
    record {
      checks = g.checks;
      links = g.links;
      numbered = g.numbered;
      holds = g.holds;
      moves = g.moves;
      counts = g.counts;
      empties = g.empties;
    },
  )

  add_record_lem :
      (chain : Blockchain) (x : EnergyRecord) (ts : List ℕ)
      → (r : Blockchain × Option Block) × (add_record c chain x ts ≡ done r)
        × After chain (chain.accumulated_records ++ (x ∷ [])) r
  unfolding After
  add_record_lem chain x ts =
      let grown = record chain { accumulated_records = chain.accumulated_records ++ (x ∷ []) } in
      elim (Bool-cases (leb chain.batch_size (length grown.accumulated_records))) [
        | inl full ↦
            let (r, w, a) = with_block_lem grown ts in
            (r, unfold add_record in rw full w, After-grown chain x r a)
        | inr room ↦ ((grown, none), unfold add_record in rw room, inl (refl, refl, refl, refl))
      ]

  pub step_lem :
      (chain : Blockchain) (k : Call)
      → (r : Blockchain × Option Block) × (step chain k ≡ done r)
        × After chain (chain.accumulated_records ++ given (k ∷ [])) r
  unfolding step given
  step_lem chain (adds x ts) = add_record_lem chain x ts
  step_lem chain (flushes ts) =
      flush_lem chain ts (chain.accumulated_records ++ [])
        (sym (append-nil chain.accumulated_records))

  -- A new block passes its own test, and has the number, link and records that it was given.
  pub new_block_lem :
      (n : ℕ) (vm_name prev : List ℕ) (rs : List EnergyRecord) (ts : List ℕ)
      → (b : Block) × (new_block c n vm_name prev rs ts ≡ done b)
        × (verify_block c b ≡ done valid)
        × (b.prev_chained_root ≡ prev)
        × (b.block_number ≡ n)
        × (b.records ≡ rs)
  new_block_lem n vm_name prev rs ts =
      let chain : Blockchain = record {
        vm_name = vm_name;
        current_block_number = n;
        latest_chained_root = prev;
        accumulated_records = rs;
        batch_size = 0;
      } in
      let built = build-compute_root_from_leaves c rs in
      let b = block_of chain built.0 ts in
      (
        b,
        unfold new_block block_of in rw (built.1, ◌>>=◌),
        unfold verify_block block_of in
            rw (built.1, ◌>>=◌) (ap done (check_block_of chain built.0 ts)),
        unfold block_of in refl,
        unfold block_of in refl,
        unfold block_of in refl,
      )
