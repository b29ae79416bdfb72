-- ===== src/Merkle/Levels.antt =====
-- One level of the tree: the specification `spec_fold_level` and `spec_fold_to_root` of
-- verified/src/lib.rs, and the facts on the loops that the other modules use.
use vpma.Prelude.{
  ℕ, zero, suc, ◌+◌, ◌/◌, ◌%◌, ◌^◌, ◌≤◌, ◌<◌, ◌≡◌, refl, ◌∙◌, true, List, [], ◌∷◌, ◌++◌, append-nil,
  append_assoc, arith, ltb, length,
}
use vpma.Crypto.{Crypto, zero32}
use vpma.Encoding.{encode_internal, encode_root}
use vpma.Merkle.{hash_pair, pair_loop, fold_loop, fold_to_root, index, done}

module _ (c : Crypto) where
  unfoldable pub spec_fold_level : List (List ℕ) → List (List ℕ)
  spec_fold_level [] = []
  spec_fold_level (x ∷ []) = x ∷ []
  spec_fold_level (l ∷ r ∷ rest) = hash_pair c l r ∷ spec_fold_level rest

  pub pair_loop_lem :
      (next rest : List (List ℕ)) → pair_loop c next rest ≡ next ++ spec_fold_level rest
  unfolding pair_loop spec_fold_level
  pair_loop_lem next [] = simp append-nil
  pair_loop_lem next (x ∷ []) = refl
  pair_loop_lem next (l ∷ r ∷ rest) =
      pair_loop_lem (next ++ (hash_pair c l r ∷ [])) rest
      ∙ append_assoc next (hash_pair c l r ∷ []) (spec_fold_level rest)

  -- A level has half the nodes of the one below it, rounded up.
  pub length-spec_fold_level :
      (level : List (List ℕ)) → length (spec_fold_level level) ≡ (length level + 1) / 2
  unfolding spec_fold_level
  length-spec_fold_level [] = omega arith
  length-spec_fold_level (x ∷ []) = omega arith
  length-spec_fold_level (l ∷ r ∷ rest) = omega (arith, length-spec_fold_level rest)

  -- `spec_fold_to_root`, by recursion on a number that is at least the length.
  unfoldable pub spec_fold_to_root : ℕ → List (List ℕ) → List ℕ
  spec_fold_to_root n [] = zero32
  spec_fold_to_root n (x ∷ []) = x
  spec_fold_to_root zero (x ∷ y ∷ rest) = zero32
  spec_fold_to_root (suc n) (x ∷ y ∷ rest) = spec_fold_to_root n (spec_fold_level (x ∷ y ∷ rest))

  pub fold_loop_step :
      (fuel : ℕ) (cur : List (List ℕ))
      → 1 < length cur
      → fold_loop c (suc fuel) cur ≡ fold_loop c fuel (spec_fold_level cur)
  fold_loop_step fuel cur h =
      let e : ltb 1 (length cur) ≡ true = ground arith in
      unfold fold_loop in rw (e, fold_loop) (rw (pair_loop_lem [] cur))

  -- With fuel for every level the outer loop leaves exactly the one node that the specification
  -- computes.
  pub fold_loop_lem :
      (fuel : ℕ) (level : List (List ℕ))
      → 0 < length level
      → length level ≤ fuel
      → fold_loop c fuel level ≡ spec_fold_to_root fuel level ∷ []
  unfolding spec_fold_to_root
  fold_loop_lem fuel [] p h = absurd (omega arith)
  fold_loop_lem zero (x ∷ rest) p h = absurd (omega arith)
  fold_loop_lem (suc f) (x ∷ []) p h = unfold fold_loop in refl
  fold_loop_lem (suc f) (x ∷ y ∷ rest) p h =
      fold_loop_step f (x ∷ y ∷ rest) (omega arith)
      ∙ fold_loop_lem f (spec_fold_level (x ∷ y ∷ rest))
          (omega (arith, length-spec_fold_level (x ∷ y ∷ rest)))
          (omega (arith, length-spec_fold_level (x ∷ y ∷ rest)))

  -- On a nonempty list of leaves `fold_to_root` ends without a panic, at the node of the
  -- specification.
  pub fold_to_root_lem :
      (leaves : List (List ℕ))
      → 0 < length leaves
      → fold_to_root c leaves ≡ done (spec_fold_to_root (length leaves) leaves)
  unfolding fold_to_root index
  fold_to_root_lem leaves h = rw (fold_loop_lem (length leaves) leaves h (omega arith))

  -- What is hashed for one level, for all levels, and for a root with all levels below it.
  abbrev pub level_inputs : List (List ℕ) → List (List ℕ)
  level_inputs [] = []
  level_inputs (x ∷ []) = []
  level_inputs (l ∷ r ∷ rest) = encode_internal l r ∷ level_inputs rest

  abbrev pub fold_inputs : ℕ → List (List ℕ) → List (List ℕ)
  fold_inputs n [] = []
  fold_inputs n (x ∷ []) = []
  fold_inputs zero (x ∷ y ∷ rest) = []
  fold_inputs (suc n) (x ∷ y ∷ rest) =
      level_inputs (x ∷ y ∷ rest) ++ fold_inputs n (spec_fold_level (x ∷ y ∷ rest))

  abbrev pub root_inputs : List (List ℕ) → List (List ℕ)
  root_inputs leaves =
      encode_root (length leaves % 2 ^ 64) (spec_fold_to_root (length leaves) leaves)
      ∷ fold_inputs (length leaves) leaves
