-- ===== src/Merkle/Path.antt =====
-- One step of an inclusion proof: where the node at an index goes in the next level.
use vpma.Prelude.{
  ℕ, zero, suc, ◌+◌, ◌-◌, ◌/◌, ◌%◌, ◌<◌, ◌≡◌, refl, ap, ◌∙◌, ◌⊎◌, inl, inr, Bool, true, false, some,
  List, [], ◌∷◌, arith, ltb, ◌==◌, if◌then◌else◌, length, get_elem?, push,
}
use vpma.Crypto.{Crypto}
use vpma.Merkle.{hash_pair, index, done, is_promoted_odd, proof_loop}
use vpma.Merkle.Levels.{spec_fold_level, pair_loop_lem}

pub get_elem?-some {ℓ} :
    {A : Type ℓ} (xs : List A) (i : ℕ) → i < length xs → (x : A) × (get_elem? xs i ≡ some x)
get_elem?-some [] i h = absurd (omega arith)
get_elem?-some (x ∷ xs) zero h = (x, refl)
get_elem?-some (x ∷ xs) (suc i) h = get_elem?-some xs i (omega arith)

pub lt_of_get_elem? {ℓ} :
    {A : Type ℓ} (xs : List A) (i : ℕ) (x : A) → get_elem? xs i ≡ some x → i < length xs
lt_of_get_elem? [] i x h = cc
lt_of_get_elem? (y ∷ xs) zero x h = omega arith
lt_of_get_elem? (y ∷ xs) (suc i) x h = omega (arith, lt_of_get_elem? xs i x h)

module _ (c : Crypto) where
  -- Where the node at an index goes in the next level.
  abbrev pub Promoted : List (List ℕ) → ℕ → List ℕ → Type 0
  Promoted xs i x =
      (length xs % 2 ≡ 1)
      × (i + 1 ≡ length xs)
      × (get_elem? (spec_fold_level c xs) (i / 2) ≡ some x)

  abbrev pub LeftOf : List (List ℕ) → ℕ → List ℕ → Type 0
  LeftOf xs i x =
      (s : List ℕ) × (i % 2 ≡ 0)
      × (i + 1 < length xs)
      × (get_elem? xs (i + 1) ≡ some s)
      × (get_elem? (spec_fold_level c xs) (i / 2) ≡ some (hash_pair c x s))

  abbrev pub RightOf : List (List ℕ) → ℕ → List ℕ → Type 0
  RightOf xs i x =
      (s : List ℕ) × (i % 2 ≡ 1)
      × (get_elem? xs (i - 1) ≡ some s)
      × (get_elem? (spec_fold_level c xs) (i / 2) ≡ some (hash_pair c s x))

  pub parent :
      (xs : List (List ℕ)) (i : ℕ) (x : List ℕ)
      → get_elem? xs i ≡ some x
      → Promoted xs i x ⊎ (LeftOf xs i x ⊎ RightOf xs i x)
  unfolding spec_fold_level
  parent [] i x h = cc
  parent (a ∷ []) zero x h = inl (refl, refl, h)
  parent (a ∷ []) (suc i) x h = cc
  parent (a ∷ b ∷ r) zero x h = inr (inl (b, refl, omega arith, refl, cc))
  parent (a ∷ b ∷ r) (suc zero) x h = inr (inr (a, refl, refl, cc))
  parent (a ∷ b ∷ r) (suc (suc i)) x h =
      let half : suc (suc i) / 2 ≡ suc (i / 2) = omega arith in
      elim (parent r i x h) [
        | inl (p, q, g) ↦ inl (omega arith, omega arith, rw half g)
        | inr (inl (s, p, q, e, g)) ↦
            let up : suc (suc i) + 1 ≡ suc (suc (i + 1)) = omega arith in
            inr (inl (s, omega arith, omega arith, rw up e, rw half g))
        | inr (inr (s, p, e, g)) ↦
            let pos : 0 < i = ground arith in
            let down : suc (suc i) - 1 ≡ suc (suc (i - 1)) = omega arith in
            inr (inr (s, omega arith, rw down e, rw half g))
      ]

  pub proof_loop-promoted :
      (fuel : ℕ) (level : List (List ℕ)) (i : ℕ) (hs : List (List ℕ)) (ds : List Bool)
      → 1 < length level
      → length level % 2 ≡ 1
      → i + 1 ≡ length level
      → proof_loop c (suc fuel) level i hs ds
        ≡ proof_loop c fuel (spec_fold_level c level) (i / 2) hs ds
  proof_loop-promoted fuel level i hs ds h odd_ last =
      let e : ltb 1 (length level) ≡ true = ground arith in
      let p : is_promoted_odd level i ≡ true = unfold is_promoted_odd in ground arith in
      unfold proof_loop in rw (e, p, proof_loop) (rw (pair_loop_lem c [] level))

  proof_loop-sibling :
      (fuel : ℕ) (level : List (List ℕ)) (i : ℕ) (s : List ℕ) (hs : List (List ℕ)) (ds : List Bool)
      → 1 < length level
      → is_promoted_odd level i ≡ false
      → get_elem? level (if i % 2 == 0 then i + 1 else i - 1) ≡ some s
      → proof_loop c (suc fuel) level i hs ds
        ≡ proof_loop c fuel (spec_fold_level c level) (i / 2) (push hs s) (push ds (i % 2 == 1))
  proof_loop-sibling fuel level i s hs ds h p g =
      let e : ltb 1 (length level) ≡ true = ground arith in
      let x : index level (if i % 2 == 0 then i + 1 else i - 1) ≡ done s =
        unfold index in rw (g, index) in
      unfold proof_loop in rw (e, p, x, proof_loop) (rw (pair_loop_lem c [] level))

  pub proof_loop-left :
      (fuel : ℕ) (level : List (List ℕ)) (i : ℕ) (s : List ℕ) (hs : List (List ℕ)) (ds : List Bool)
      → i % 2 ≡ 0
      → i + 1 < length level
      → get_elem? level (i + 1) ≡ some s
      → proof_loop c (suc fuel) level i hs ds
        ≡ proof_loop c fuel (spec_fold_level c level) (i / 2) (push hs s) (push ds false)
  proof_loop-left fuel level i s hs ds even_ h g =
      let t : (i % 2 == 0) ≡ true = ground arith in
      let u : (i % 2 == 1) ≡ false = ground arith in
      let p : is_promoted_odd level i ≡ false = unfold is_promoted_odd in ground arith in
      proof_loop-sibling fuel level i s hs ds (omega arith) p (rw t g)
      ∙ ap (λ b. proof_loop c fuel (spec_fold_level c level) (i / 2) (push hs s) (push ds b)) u

  pub proof_loop-right :
      (fuel : ℕ) (level : List (List ℕ)) (i : ℕ) (s : List ℕ) (hs : List (List ℕ)) (ds : List Bool)
      → i % 2 ≡ 1
      → i < length level
      → get_elem? level (i - 1) ≡ some s
      → proof_loop c (suc fuel) level i hs ds
        ≡ proof_loop c fuel (spec_fold_level c level) (i / 2) (push hs s) (push ds true)
  proof_loop-right fuel level i s hs ds odd_ h g =
      let t : (i % 2 == 0) ≡ false = ground arith in
      let u : (i % 2 == 1) ≡ true = ground arith in
      let p : is_promoted_odd level i ≡ false = unfold is_promoted_odd in ground arith in
      proof_loop-sibling fuel level i s hs ds (omega arith) p (rw t g)
      ∙ ap (λ b. proof_loop c fuel (spec_fold_level c level) (i / 2) (push hs s) (push ds b)) u
