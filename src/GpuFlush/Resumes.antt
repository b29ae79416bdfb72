-- ===== src/GpuFlush/Resumes.antt =====
-- When the first flush goes on from the stored chain.
use vpma.Prelude.{
  ℕ, ◌+◌, ◌%◌, ◌^◌, ◌≡◌, ◌≢◌, refl, sym, ap₂, subst, ◌∙◌, inl, inr, Bool, true, false, not, ◌||◌,
  Option, none, some, List, if◌then◌else◌, ◌==◌, ==_iff, Bool-cases,
}
use vpma.Crypto.{Crypto}
use vpma.Text.{slices_eq}
use vpma.Text.Tests.{slices_eq_iff}
use vpma.Admission.{decide_resume}
use vpma.GpuReadings.{GpuGuest, GpuSurroundings}
use vpma.GpuFlush.{head_or_zero, anchor_stored, on_decision, resume_from, initialize}

abbrev pub Head : Type 0
Head = Option (ℕ × List ℕ)

abbrev pub refused_state : GpuGuest → GpuGuest
refused_state s = record s { chain_resume_refused = true }

abbrev pub resumed_state : GpuGuest → ℕ → List ℕ → GpuGuest
resumed_state s n root = record s {
  guest = record s.guest {
    block_number = (n + 1) % 2 ^ 64;
    latest_chained_root = root;
    state_initialized = true;
  };
}

abbrev pub fresh_state : GpuGuest → GpuGuest
fresh_state s = record s { guest = record s.guest { state_initialized = true } }

other_root : (root other : List ℕ) → slices_eq root other ≡ false → root ≢ other
other_root root other v e = let bad : true ≡ false = sym ((slices_eq_iff root other).1 e) ∙ v in cc

other_number : (n m : ℕ) → (n == m) ≡ false → n ≢ m
other_number n m f e = let bad : true ≡ false = sym ((==_iff n m).1 e) ∙ f in cc

module _ (c : Crypto) (master : List ℕ) where
  -- What the comparison of the verified anchor with the latest stored block leads to.
  pub data Compared (s : GpuGuest) : Head → Head → GpuGuest × Bool → Type 0 where
    resumes :
        (n : ℕ) (root : List ℕ)
        → Compared s (some (n, root)) (some (n, root)) (resumed_state s n root, true)
    starts : Compared s none none (fresh_state s, true)
    differs :
        (anchor stored : Head) → anchor ≢ stored → Compared s anchor stored (refused_state s, false)

  resume_from_lem :
      (s : GpuGuest) (anchor stored : Head)
      → Compared s anchor stored (resume_from c master s anchor stored)
  unfolding resume_from head_or_zero on_decision decide_resume
  resume_from_lem s none none = starts
  resume_from_lem s none (some (n, root)) = differs none (some (n, root)) (λ e. cc)
  resume_from_lem s (some (n, root)) none = differs (some (n, root)) none (λ e. cc)
  resume_from_lem s (some (n, root)) (some (m, other)) = elim (Bool-cases (n == m)) [
    | inl t ↦ elim (Bool-cases (slices_eq root other)) [
      | inl u ↦
          rw (t, u)
            (subst (λ (h : Head). Compared s (some (n, root)) h (resumed_state s n root, true))
              (ap₂ (λ (k : ℕ) (r : List ℕ). some (k, r)) ((==_iff n m).0 t)
                ((slices_eq_iff root other).0 u))
              (resumes n root))
      | inr v ↦
          rw (t, v) (differs (some (n, root)) (some (m, other)) (λ e. other_root root other v cc))
    ]
    | inr f ↦ rw f (differs (some (n, root)) (some (m, other)) (λ e. other_number n m f cc))
  ]

  -- How a flush begins: with a state that is initialized or a server that cannot be reached, or by
  -- comparing the anchor, if it verifies, with the latest block.
  pub data Begins (s : GpuGuest) (tenant : List ℕ) (env : GpuSurroundings)
      : GpuGuest × Bool → Type 0 where
    running : s.guest.state_initialized ≡ true → Begins s tenant env (s, true)
    unreachable :
        s.guest.state_initialized ≡ false → env.connects ≡ false → Begins s tenant env (s, true)
    compared :
        (r : GpuGuest × Bool)
        → s.guest.state_initialized ≡ false
        → env.connects ≡ true
        → Compared s (anchor_stored c master tenant env.anchor_line) env.latest_block r
        → Begins s tenant env r

  pub initialize_lem :
      (s : GpuGuest) (tenant : List ℕ) (env : GpuSurroundings)
      → Begins s tenant env (initialize c master s tenant env)
  unfolding initialize
  initialize_lem s tenant env = pick s.guest.state_initialized env.connects refl refl
    where
      pick :
          (on up : Bool)
          → s.guest.state_initialized ≡ on
          → env.connects ≡ up
          → Begins s tenant env (
              if on || not up
              then (s, true)
              else resume_from c master s
                  (anchor_stored c master tenant env.anchor_line)
                  env.latest_block)
      pick true up e f = running e
      pick false false e f = unreachable e f
      pick false true e f = compared _ e f (resume_from_lem s _ env.latest_block)
