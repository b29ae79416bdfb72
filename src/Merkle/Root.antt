-- ===== src/Merkle/Root.antt =====
-- Building a tree ends without a panic, and its root is that of `compute_root_from_leaves`.
use vpma.Prelude.{ℕ, ◌<◌, ◌+◌, ◌≡◌, refl, none, some, List, [], ◌∷◌, map, arith, length, length-map}
use vpma.Crypto.{Crypto}
use vpma.Merkle.{
  EnergyRecord, MerkleTree, to_bytes, hash_leaf, commit_root, compute_root_from_leaves, done, build,
  build_loop, leaf_nodes,
}
use vpma.Merkle.Levels.{spec_fold_to_root, fold_to_root_lem}

module _ (c : Crypto) where
  -- The leaf hashes of the records.
  abbrev pub leaves_of : List EnergyRecord → List (List ℕ)
  leaves_of = map λ (x : EnergyRecord). hash_leaf c (to_bytes x)

  pub compute_root_from_leaves_lem :
      (hs : List (List ℕ))
      → 0 < length hs
      → compute_root_from_leaves c hs
        ≡ done (some (commit_root c (length hs) (spec_fold_to_root c (length hs) hs)))
  unfolding compute_root_from_leaves
  compute_root_from_leaves_lem [] h = absurd (omega arith)
  compute_root_from_leaves_lem (x ∷ xs) h = rw (fold_to_root_lem c (x ∷ xs) h)

  -- The tree that `build` returns for a nonempty list.
  tree_of : EnergyRecord → List EnergyRecord → MerkleTree
  tree_of r rs =
      let hs = leaves_of (r ∷ rs) in
      let built = build_loop c (length hs) hs 0 (leaf_nodes 0 hs) in
      record {
        root = some (commit_root c (length hs) (spec_fold_to_root c (length hs) hs));
        leaf_hashes = hs;
        leaf_count = length hs;
        internal_nodes = built.1;
        height = built.0 + 1;
      }

  build_lem : (r : EnergyRecord) (rs : List EnergyRecord) → build c (r ∷ rs) ≡ done (tree_of r rs)
  unfolding build tree_of
  build_lem r rs = rw (fold_to_root_lem c (leaves_of (r ∷ rs)) (omega arith))

  -- For every list of records `build` returns a tree without a panic, whose leaf hashes are those
  -- of the records in order, whose leaf count is their number, and whose root is what
  -- `compute_root_from_leaves` returns on the leaf hashes.
  pub build-compute_root_from_leaves :
      (rs : List EnergyRecord)
      → (t : MerkleTree) × (build c rs ≡ done t)
        × (t.leaf_hashes ≡ leaves_of rs)
        × (t.leaf_count ≡ length rs)
        × (compute_root_from_leaves c t.leaf_hashes ≡ done t.root)
  unfolding tree_of
  build-compute_root_from_leaves [] = (
    record { root = none; leaf_hashes = []; leaf_count = 0; internal_nodes = []; height = 0 },
    unfold build in refl,
    refl,
    refl,
    unfold compute_root_from_leaves in refl,
  )
  build-compute_root_from_leaves (r ∷ rs) = (
    tree_of r rs,
    build_lem r rs,
    refl,
    length-map (λ (x : EnergyRecord). hash_leaf c (to_bytes x)) (r ∷ rs),
    unfold compute_root_from_leaves in rw (fold_to_root_lem c (leaves_of (r ∷ rs)) (omega arith)),
  )
