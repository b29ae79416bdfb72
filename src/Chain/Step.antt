-- ===== src/Chain/Step.antt =====
-- `admit_chain_step` against what it is specified to accept.
use vpma.Prelude.{
  ℕ, ◌+◌, ◌<◌, ◌≤◌, ◌≡◌, ◌≢◌, refl, ◌↔◌, ◌⊎◌, Bool, true, false, arith, ltb, if◌then◌else◌,
  IsNegative,
}
use vpma.Chain.{
  ChainDenial, mac_mismatch, energy_changed_under_same_counter, counter_rollback,
  counter_discontinuity, cumulative_energy_mismatch, prev_hash_mismatch, ChainVerdict, accept,
  idempotent_skip, reject, max_u64, admit_chain_step, chain_denial_code,
}

-- `spec_sat_add`
unfoldable pub spec_sat_add : ℕ → ℕ → ℕ
spec_sat_add a b = if ltb max_u64 (a + b) then max_u64 else a + b

-- `spec_chain_step_acceptable`
abbrev pub StepAcceptable : Bool → Bool → Bool → ℕ → ℕ → ℕ → ℕ → ℕ → Type 0
StepAcceptable mac_ok prev_hash_ok initialized stored_counter stored_energy incoming_counter
      incoming_energy incoming_delta =
    (mac_ok ≡ true)
    × ((initialized ≡ false)
        ⊎ ((incoming_counter ≡ stored_counter + 1)
            × (incoming_energy ≡ spec_sat_add stored_energy incoming_delta)
            × (prev_hash_ok ≡ true)))

-- What a verdict says of the step: the same arguments, then the verdict.
abbrev pub Explains : Bool → Bool → Bool → ℕ → ℕ → ℕ → ℕ → ℕ → ChainVerdict → Type 0
Explains m p i sc se ic ie id accept = StepAcceptable m p i sc se ic ie id
Explains m p i sc se ic ie id idempotent_skip = (m ≡ true) × (i ≡ true) × (ic ≡ sc) × (ie ≡ se)
Explains m p i sc se ic ie id (reject mac_mismatch) = m ≡ false
Explains m p i sc se ic ie id (reject energy_changed_under_same_counter) =
    (m ≡ true) × (i ≡ true) × (ic ≡ sc) × (ie ≢ se)
Explains m p i sc se ic ie id (reject counter_rollback) = (m ≡ true) × (i ≡ true) × (ic < sc)
Explains m p i sc se ic ie id (reject counter_discontinuity) =
    (m ≡ true) × (i ≡ true) × (sc + 1 < ic)
Explains m p i sc se ic ie id (reject cumulative_energy_mismatch) =
    (m ≡ true) × (i ≡ true) × (ic ≡ sc + 1) × (ie ≢ spec_sat_add se id)
Explains m p i sc se ic ie id (reject prev_hash_mismatch) =
    (m ≡ true) × (i ≡ true) × (ic ≡ sc + 1) × (ie ≡ spec_sat_add se id) × (p ≡ false)

module _ (m p i : Bool) (sc se ic ie id : ℕ) (fits : id ≤ max_u64) where
  -- For a u64 delta, a step is accepted exactly when its MAC is right and, if the chain has been
  -- started, its counter is the next one, its energy is the saturating sum of the stored energy
  -- and the delta, and its previous hash is right.
  pub admit_chain_step-accept_iff :
      (admit_chain_step m p i sc se ic ie id ≡ accept) ↔ StepAcceptable m p i sc se ic ie id
  unfolding admit_chain_step spec_sat_add
  admit_chain_step-accept_iff = (λ h. ground arith, λ h. ground arith)

  -- For a u64 delta, each verdict means what it says: accepted as above; a repeated step is one with
  -- a right MAC on a started chain with the stored counter and energy; a refusal is due to a wrong
  -- MAC, or with a right one on a started chain to another energy under the stored counter, a
  -- smaller counter, a counter past the next one, or at the next counter an energy that is not the
  -- saturating sum, or the right sum with a wrong previous hash.
  pub admit_chain_step-Explains :
      Explains m p i sc se ic ie id (admit_chain_step m p i sc se ic ie id)
  admit_chain_step-Explains = explain (admit_chain_step m p i sc se ic ie id) refl
    where
      explain :
          (v : ChainVerdict)
          → admit_chain_step m p i sc se ic ie id ≡ v
          → Explains m p i sc se ic ie id v
      explain accept h = admit_chain_step-accept_iff.0 h
      explain idempotent_skip h = unfold admit_chain_step in ground arith
      explain (reject mac_mismatch) h = unfold admit_chain_step in ground arith
      explain (reject energy_changed_under_same_counter) h = unfold admit_chain_step in ground arith
      explain (reject counter_rollback) h = unfold admit_chain_step in ground arith
      explain (reject counter_discontinuity) h = unfold admit_chain_step in ground arith
      explain (reject cumulative_energy_mismatch) h =
          unfold admit_chain_step spec_sat_add in ground arith
      explain (reject prev_hash_mismatch) h = unfold admit_chain_step spec_sat_add in ground arith

pub chain_denial_code-IsNegative : (d : ChainDenial) → IsNegative (chain_denial_code d)
unfolding chain_denial_code
chain_denial_code-IsNegative mac_mismatch = tt
chain_denial_code-IsNegative energy_changed_under_same_counter = tt
chain_denial_code-IsNegative counter_rollback = tt
chain_denial_code-IsNegative counter_discontinuity = tt
chain_denial_code-IsNegative cumulative_energy_mismatch = tt
chain_denial_code-IsNegative prev_hash_mismatch = tt
