-- ===== src/Merkle/Proofs.antt =====
-- Inclusion proofs: `generate_proof` succeeds for every leaf, and `verify` accepts what it returns.
use vpma.Prelude.{
  ℕ, zero, suc, ◌/◌, ◌≤◌, ◌<◌, ◌≡◌, refl, ap₂, ◌∙◌, inl, inr, Bool, true, false, some, List, [],
  ◌∷◌, ◌++◌, append-nil, append_assoc, arith, leb, ===_iff, length, length-map, get_elem?, push,
}
use vpma.Crypto.{Crypto}
use vpma.Merkle.{
  EnergyRecord, MerkleTree, MerkleProof, to_bytes, hash_leaf, hash_pair, commit_root, fold_loop,
  index, done, proof_loop, generate_proof, verify_loop, verify, build, ◌>>=◌,
}
use vpma.Merkle.Levels.{
  spec_fold_level, length-spec_fold_level, fold_loop_step, fold_loop_lem, spec_fold_to_root,
}
use vpma.Merkle.Root.{leaves_of, compute_root_from_leaves_lem, build-compute_root_from_leaves}
use vpma.Merkle.Path.{
  get_elem?-some, lt_of_get_elem?, Promoted, LeftOf, RightOf, parent, proof_loop-promoted,
  proof_loop-left, proof_loop-right,
}

module _ (c : Crypto) where
  -- A path from a node to the last level: what the loop adds, and that hashing along it from the
  -- node gives the last level.
  record Climbs (fuel : ℕ) (level : List (List ℕ)) (i : ℕ) (x : List ℕ) : Type 0 where
    hashes : List (List ℕ)
    directions : List Bool
    collects :
        (hs : List (List ℕ)) (ds : List Bool)
        → proof_loop c fuel level i hs ds ≡ done (hs ++ hashes, ds ++ directions)
    arrives : fold_loop c fuel level ≡ verify_loop c x hashes directions ∷ []

  climb-left :
      (fuel : ℕ) (level : List (List ℕ)) (i : ℕ) (x : List ℕ)
      → LeftOf c level i x
      → ((y : List ℕ)
          → get_elem? (spec_fold_level c level) (i / 2) ≡ some y
          → Climbs fuel (spec_fold_level c level) (i / 2) y)
      → Climbs (suc fuel) level i x
  unfolding verify_loop
  climb-left fuel level i x (s, even_, h, g, next) rest =
      let r = rest (hash_pair c x s) next in
      record {
        hashes = s ∷ r.hashes;
        directions = false ∷ r.directions;
        collects = λ hs ds.
            proof_loop-left c fuel level i s hs ds even_ h g
            ∙ r.collects (push hs s) (push ds false)
            ∙ ap₂ (λ a b. done (a, b)) (append_assoc hs (s ∷ []) r.hashes)
                (append_assoc ds (false ∷ []) r.directions);
        arrives = fold_loop_step c fuel level (omega arith) ∙ r.arrives;
      }

  climb-right :
      (fuel : ℕ) (level : List (List ℕ)) (i : ℕ) (x : List ℕ)
      → i < length level
      → RightOf c level i x
      → ((y : List ℕ)
          → get_elem? (spec_fold_level c level) (i / 2) ≡ some y
          → Climbs fuel (spec_fold_level c level) (i / 2) y)
      → Climbs (suc fuel) level i x
  unfolding verify_loop
  climb-right fuel level i x h (s, odd_, g, next) rest =
      let r = rest (hash_pair c s x) next in
      record {
        hashes = s ∷ r.hashes;
        directions = true ∷ r.directions;
        collects = λ hs ds.
            proof_loop-right c fuel level i s hs ds odd_ h g
            ∙ r.collects (push hs s) (push ds true)
            ∙ ap₂ (λ a b. done (a, b)) (append_assoc hs (s ∷ []) r.hashes)
                (append_assoc ds (true ∷ []) r.directions);
        arrives = fold_loop_step c fuel level (omega arith) ∙ r.arrives;
      }

  climb-Promoted :
      (fuel : ℕ) (level : List (List ℕ)) (i : ℕ) (x : List ℕ)
      → 1 < length level
      → Promoted c level i x
      → ((y : List ℕ)
          → get_elem? (spec_fold_level c level) (i / 2) ≡ some y
          → Climbs fuel (spec_fold_level c level) (i / 2) y)
      → Climbs (suc fuel) level i x
  climb-Promoted fuel level i x h (odd_, last, next) rest =
      let r = rest x next in
      record {
        hashes = r.hashes;
        directions = r.directions;
        collects = λ hs ds. proof_loop-promoted c fuel level i hs ds h odd_ last ∙ r.collects hs ds;
        arrives = fold_loop_step c fuel level h ∙ r.arrives;
      }

  climbs :
      (fuel : ℕ) (level : List (List ℕ)) (i : ℕ) (x : List ℕ)
      → length level ≤ fuel
      → get_elem? level i ≡ some x
      → Climbs fuel level i x
  climbs fuel [] i x h g = cc
  climbs zero (y ∷ level) i x h g = absurd (omega arith)
  climbs (suc f) (y ∷ []) zero x h g = record {
    hashes = [];
    directions = [];
    collects = λ hs ds. unfold proof_loop in simp append-nil;
    arrives = unfold fold_loop verify_loop in cc g;
  }
  climbs (suc f) (y ∷ []) (suc i) x h g = cc
  climbs (suc f) (y ∷ y' ∷ ys) i x h g =
      let level = y ∷ y' ∷ ys in
      let rest = λ (z : List ℕ).
        climbs f (spec_fold_level c level) (i / 2) z
          (omega (arith, length-spec_fold_level c level)) in
      elim (parent c level i x g) [
        | inl p ↦ climb-Promoted f level i x (omega arith) p rest
        | inr (inl p) ↦ climb-left f level i x p rest
        | inr (inr p) ↦ climb-right f level i x (lt_of_get_elem? level i x g) p rest
      ]

  fold-Climbs :
      (level : List (List ℕ)) (i : ℕ) (x : List ℕ) (k : Climbs (length level) level i x)
      → 0 < length level
      → verify_loop c x k.hashes k.directions ≡ spec_fold_to_root c (length level) level
  fold-Climbs level i x k h = cc (k.arrives, fold_loop_lem c (length level) level h (omega arith))

  generate_proof_lem :
      (t : MerkleTree) (i : ℕ)
      → t.leaf_count ≡ length t.leaf_hashes
      → i < length t.leaf_hashes
      → (p : MerkleProof) × (generate_proof c t i ≡ done (some p))
        × (get_elem? t.leaf_hashes i ≡ some p.leaf_hash)
        × (p.leaf_index ≡ i)
        × (p.leaf_count ≡ t.leaf_count)
        × (verify_loop c p.leaf_hash p.proof_hashes p.proof_directions
            ≡ spec_fold_to_root c (length t.leaf_hashes) t.leaf_hashes)
  generate_proof_lem t i n h =
      let hs = t.leaf_hashes in
      let (x, g) = get_elem?-some hs i h in
      let k = climbs (length hs) hs i x (omega arith) g in
      let m : leb t.leaf_count i ≡ false = ground arith in
      let e : index hs i ≡ done x = unfold index in rw (g, index) in
      (
        record {
          leaf_hash = x;
          proof_hashes = k.hashes;
          proof_directions = k.directions;
          leaf_index = i;
          leaf_count = t.leaf_count;
        },
        unfold generate_proof in rw (m, k.collects [] [], e, ◌>>=◌),
        g,
        refl,
        refl,
        fold-Climbs hs i x k (omega arith),
      )

  verify_lem :
      (p : MerkleProof) (root sub : List ℕ) (n : ℕ)
      → p.leaf_count ≡ n
      → verify_loop c p.leaf_hash p.proof_hashes p.proof_directions ≡ sub
      → commit_root c n sub ≡ root
      → verify c p root ≡ true
  unfolding verify
  verify_lem p root sub n e v r = (===_iff _ root).1 (ap₂ (commit_root c) e v ∙ r)

  -- For every list of records and every index below its length, the tree that `build` returns has
  -- a root, and `generate_proof` returns, without a panic, a proof for that index and the record's
  -- leaf hash that `verify` accepts against the root.
  pub verify-generate_proof :
      (rs : List EnergyRecord) (t : MerkleTree) (i : ℕ)
      → build c rs ≡ done t
      → i < length rs
      → (root : List ℕ) × (p : MerkleProof) × (t.root ≡ some root)
        × (generate_proof c t i ≡ done (some p))
        × (get_elem? (leaves_of c rs) i ≡ some p.leaf_hash)
        × (p.leaf_index ≡ i)
        × (verify c p root ≡ true)
  verify-generate_proof rs t i e h =
      let (t', b, l, n, r) = build-compute_root_from_leaves c rs in
      let same : t' ≡ t = cc in
      let f = λ (x : EnergyRecord). hash_leaf c (to_bytes x) in
      let len : length t.leaf_hashes ≡ length rs = cc (length-map f rs) in
      let count : t.leaf_count ≡ length t.leaf_hashes = cc in
      let (p, made, at, idx, cnt, v) = generate_proof_lem t i count (omega arith) in
      let root =
        commit_root c (length t.leaf_hashes)
          (spec_fold_to_root c (length t.leaf_hashes) t.leaf_hashes) in
      let top = compute_root_from_leaves_lem c t.leaf_hashes (omega arith) in
      (root, p, cc, made, cc, idx, verify_lem p root _ _ (cnt ∙ count) v refl)
