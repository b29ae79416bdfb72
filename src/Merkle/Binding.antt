-- ===== src/Merkle/Binding.antt =====
-- What a root says of its leaves, up to a collision among the inputs that are hashed.
use vpma.Prelude.{
  ℕ, zero, suc, ◌%◌, ◌^◌, ◌≤◌, ◌<◌, ◌≡◌, refl, sym, ap, subst, ◌∙◌, ◌⊎◌, inl, inr, some, List, [],
  ◌∷◌, arith, length, All, All-split, ◌===◌, ===_iff, Bool-cases,
}
use vpma.Crypto.{Crypto, Collision}
use vpma.Encoding.{encode_internal, encode_root}
use vpma.Encoding.Domains.{encode_internal-injective, encode_root-injective}
use vpma.Merkle.{hash_pair, commit_root, compute_root_from_leaves, done}
use vpma.Merkle.Levels.{
  spec_fold_level, length-spec_fold_level, spec_fold_to_root, fold_to_root_lem, level_inputs,
  fold_inputs, root_inputs,
}

-- All digests are 32 bytes long.
abbrev pub AreDigests : List (List ℕ) → Type 0
AreDigests = All (λ d. length d ≡ 32)

module _ (c : Crypto) where
  AreDigests-spec_fold_level :
      (xs : List (List ℕ)) → AreDigests xs → AreDigests (spec_fold_level c xs)
  unfolding spec_fold_level hash_pair
  AreDigests-spec_fold_level [] h = tt
  AreDigests-spec_fold_level (x ∷ []) h = h
  AreDigests-spec_fold_level (l ∷ r ∷ rest) h =
      (c.length-sha256 (encode_internal l r), AreDigests-spec_fold_level rest h.1.1)

module _ (c : Crypto) (In : List ℕ → Type 0) where
  -- Equal hashes come from equal inputs, or from a collision that is at hand.
  pub sha256-cancel :
      (x y : List ℕ) → In x → In y → c.sha256 x ≡ c.sha256 y → (x ≡ y) ⊎ Collision c In
  sha256-cancel x y i j e = elim (Bool-cases (x === y)) [
    | inl t ↦ inl ((===_iff x y).0 t)
    | inr f ↦ inr (record {
      first = x;
      second = y;
      first_in = i;
      second_in = j;
      differ = λ p. cc (f, (===_iff x y).1 p);
      same = e;
    })
  ]

  hash_pair-cancel :
      (a b p q : List ℕ)
      → length a ≡ length p
      → In (encode_internal a b)
      → In (encode_internal p q)
      → hash_pair c a b ≡ hash_pair c p q
      → ((a ≡ p) × (b ≡ q)) ⊎ Collision c In
  unfolding hash_pair
  hash_pair-cancel a b p q n i j e =
      elim (sha256-cancel (encode_internal a b) (encode_internal p q) i j e) [
        | inl s ↦ inl (encode_internal-injective a b p q n s)
        | inr k ↦ inr k
      ]

  level-cancel :
      (xs ys : List (List ℕ))
      → length xs ≡ length ys
      → AreDigests xs
      → AreDigests ys
      → All In (level_inputs c xs)
      → All In (level_inputs c ys)
      → spec_fold_level c xs ≡ spec_fold_level c ys
      → (xs ≡ ys) ⊎ Collision c In
  unfolding spec_fold_level
  level-cancel [] [] n p q i j e = inl refl
  level-cancel [] (y ∷ ys) n p q i j e = absurd (omega arith)
  level-cancel (x ∷ []) [] n p q i j e = absurd (omega arith)
  level-cancel (x ∷ []) (y ∷ []) n p q i j e = inl e
  level-cancel (x ∷ []) (y ∷ y' ∷ ys) n p q i j e = absurd (omega arith)
  level-cancel (x ∷ x' ∷ xs) [] n p q i j e = absurd (omega arith)
  level-cancel (x ∷ x' ∷ xs) (y ∷ []) n p q i j e = absurd (omega arith)
  level-cancel (x ∷ x' ∷ xs) (y ∷ y' ∷ ys) n p q i j e =
      elim (hash_pair-cancel x x' y y' (omega arith) i.0 j.0 (cc)) [
        | inr k ↦ inr k
        | inl s ↦ elim (level-cancel xs ys (omega arith) p.1.1 q.1.1 i.1 j.1 (cc)) [
          | inr k ↦ inr k
          | inl t ↦ inl (cc (s.0, s.1, t))
        ]
      ]

  fold-cancel :
      (fuel : ℕ) (xs ys : List (List ℕ))
      → length xs ≡ length ys
      → length xs ≤ fuel
      → AreDigests xs
      → AreDigests ys
      → All In (fold_inputs c fuel xs)
      → All In (fold_inputs c fuel ys)
      → spec_fold_to_root c fuel xs ≡ spec_fold_to_root c fuel ys
      → (xs ≡ ys) ⊎ Collision c In
  unfolding spec_fold_to_root
  fold-cancel f [] [] n h p q i j e = inl refl
  fold-cancel f [] (y ∷ ys) n h p q i j e = absurd (omega arith)
  fold-cancel f (x ∷ xs) [] n h p q i j e = absurd (omega arith)
  fold-cancel f (x ∷ []) (y ∷ []) n h p q i j e = inl (cc e)
  fold-cancel f (x ∷ []) (y ∷ y' ∷ ys) n h p q i j e = absurd (omega arith)
  fold-cancel f (x ∷ x' ∷ xs) (y ∷ []) n h p q i j e = absurd (omega arith)
  fold-cancel zero (x ∷ x' ∷ xs) (y ∷ y' ∷ ys) n h p q i j e = absurd (omega arith)
  fold-cancel (suc f) (x ∷ x' ∷ xs) (y ∷ y' ∷ ys) n h p q i j e =
      let lx = length-spec_fold_level c (x ∷ x' ∷ xs) in
      let ly = length-spec_fold_level c (y ∷ y' ∷ ys) in
      let (ix, ix') = All-split In (level_inputs c (x ∷ x' ∷ xs)) _ i in
      let (iy, iy') = All-split In (level_inputs c (y ∷ y' ∷ ys)) _ j in
      elim (fold-cancel f (spec_fold_level c (x ∷ x' ∷ xs)) (spec_fold_level c (y ∷ y' ∷ ys))
        (omega (arith, lx, ly)) (omega (arith, lx)) (AreDigests-spec_fold_level c (x ∷ x' ∷ xs) p)
        (AreDigests-spec_fold_level c (y ∷ y' ∷ ys) q) ix' iy' e) [
          | inr k ↦ inr k
          | inl s ↦ level-cancel (x ∷ x' ∷ xs) (y ∷ y' ∷ ys) n p q ix iy s
        ]

  commit-cancel :
      (xs ys : List (List ℕ))
      → length xs < 2 ^ 64
      → length ys < 2 ^ 64
      → AreDigests xs
      → AreDigests ys
      → All In (root_inputs c xs)
      → All In (root_inputs c ys)
      → commit_root c (length xs) (spec_fold_to_root c (length xs) xs)
        ≡ commit_root c (length ys) (spec_fold_to_root c (length ys) ys)
      → (xs ≡ ys) ⊎ Collision c In
  unfolding commit_root
  commit-cancel xs ys u v p q i j e =
      elim (sha256-cancel (encode_root (length xs % 2 ^ 64) (spec_fold_to_root c (length xs) xs))
        (encode_root (length ys % 2 ^ 64) (spec_fold_to_root c (length ys) ys)) i.0 j.0 e) [
          | inr k ↦ inr k
          | inl s ↦
              let r =
                encode_root-injective (length xs % 2 ^ 64) (length ys % 2 ^ 64) _ _ (omega arith)
                  (omega arith) s in
              let n : length xs ≡ length ys = omega (arith, r.0) in
              fold-cancel (length xs) xs ys n (omega arith) p q i.1
                (subst (λ k. All In (fold_inputs c k ys)) (sym n) j.1)
                (r.1 ∙ ap (λ k. spec_fold_to_root c k ys) (sym n))
        ]

  -- Two lists of 32-byte leaves, nonempty and below 2^64 long, that have one root are equal, or
  -- what is hashed on the way to the root has two different inputs with one hash.
  pub leaves_bound_by_root :
      (xs ys : List (List ℕ)) (root : List ℕ)
      → length xs < 2 ^ 64
      → length ys < 2 ^ 64
      → AreDigests xs
      → AreDigests ys
      → All In (root_inputs c xs)
      → All In (root_inputs c ys)
      → compute_root_from_leaves c xs ≡ done (some root)
      → compute_root_from_leaves c ys ≡ done (some root)
      → (xs ≡ ys) ⊎ Collision c In
  unfolding compute_root_from_leaves
  leaves_bound_by_root [] ys root u v p q i j ex ey = cc
  leaves_bound_by_root (x ∷ xs) [] root u v p q i j ex ey = cc
  leaves_bound_by_root (x ∷ xs) (y ∷ ys) root u v p q i j ex ey =
      commit-cancel (x ∷ xs) (y ∷ ys) u v p q i j (
        cc (
          ex,
          ey,
          fold_to_root_lem c (x ∷ xs) (omega arith),
          fold_to_root_lem c (y ∷ ys) (omega arith),
        ))
