-- ===== src/Chain/Guest.antt =====
-- The guest's chain state: what a verified step does to it, and what a run of steps adds up to.
use vpma.Prelude.{
  ℕ, ◌+◌, ◌<◌, ◌≤◌, ◌≡◌, refl, sym, ap, subst, ◌∙◌, ◌⊎◌, inl, inr, Bool, true, false, List, [], ◌∷◌,
  arith, ===-refl, if◌then◌else◌, pos, length, Bool-cases, All, Mem, mem-cons_self, mem-cons_of_mem,
}
use vpma.Crypto.{Crypto}
use vpma.Chain.{
  ChainVerdict, accept, idempotent_skip, reject, max_u64, VmChainState, SignedLink, verdict_on,
  apply_verdict, verify_state, sign_state,
}
use vpma.Chain.Step.{admit_chain_step-accept_iff, spec_sat_add}

-- The sum of energies, held at u64::MAX as each is added.
abbrev pub sat_sum : ℕ → List ℕ → ℕ
sat_sum e [] = e
sat_sum e (d ∷ ds) = sat_sum (spec_sat_add e d) ds

module _ (c : Crypto) (master name : List ℕ) where
  -- The state after the steps, each verified in turn.
  abbrev pub verify_all : VmChainState → List SignedLink → VmChainState
  verify_all s [] = s
  verify_all s (m ∷ ms) = verify_all (verify_state c master name s m).0 ms

  abbrev pub taken_by : ChainVerdict → ℕ → List ℕ → List ℕ
  taken_by accept d ds = d ∷ ds
  taken_by idempotent_skip d ds = ds
  taken_by (reject e) d ds = ds

  -- The energies of the steps that were accepted.
  abbrev pub taken : VmChainState → List SignedLink → List ℕ
  taken s [] = []
  taken s (m ∷ ms) =
      taken_by (verdict_on c master name s m) m.link.energy_delta
        (taken (verify_state c master name s m).0 ms)

  -- What the signer has just signed is accepted, under the conditions of `verify-sign_state`.
  pub accept_signed :
      (s : VmChainState) (energy_uj energy_delta : ℕ)
      → s.counter < max_u64
      → energy_delta ≤ max_u64
      → (s.initialized ≡ false) ⊎ (energy_uj ≡ spec_sat_add s.last_energy_uj energy_delta)
      → verdict_on c master name s (sign_state c master name s energy_uj energy_delta).1 ≡ accept
  unfolding verdict_on sign_state
  accept_signed s energy_uj energy_delta room fits sums =
      let m = (sign_state c master name s energy_uj energy_delta).1 in
      (admit_chain_step-accept_iff _ _ _ _ _ _ _ _ fits).1 (
        ===-refl _,
        elim (Bool-cases s.initialized) [
          | inl on ↦ inr (
            ground arith,
            elim sums [ inl off ↦ absurd (ground arith) | inr e ↦ e ],
            rw on (===-refl _),
          )
          | inr off ↦ inl off
        ],
      )

  -- The verifier accepts what the signer has just signed, if both start from one state whose
  -- counter is below u64::MAX, the delta is a u64 and, on a started chain, the energy is the
  -- saturating sum of the last one and the delta. Both then hold one state again; the verifier
  -- answers 1 for a chain that starts and 0 for one that goes on.
  pub verify-sign_state :
      (s : VmChainState) (energy_uj energy_delta : ℕ)
      → s.counter < max_u64
      → energy_delta ≤ max_u64
      → (s.initialized ≡ false) ⊎ (energy_uj ≡ spec_sat_add s.last_energy_uj energy_delta)
      → verify_state c master name s (sign_state c master name s energy_uj energy_delta).1 ≡ (
        (sign_state c master name s energy_uj energy_delta).0,
        if s.initialized then pos 0 else pos 1,
      )
  verify-sign_state s energy_uj energy_delta room fits sums =
      let ok = accept_signed s energy_uj energy_delta room fits sums in
      unfold verify_state in rw ok (unfold apply_verdict sign_state in refl)

  step_of :
      (s : VmChainState) (m : SignedLink) (v : ChainVerdict)
      → verdict_on c master name s m ≡ v
      → s.initialized ≡ true
      → m.link.energy_delta ≤ max_u64
      → ((apply_verdict c master name s m v).0.initialized ≡ true)
        × ((apply_verdict c master name s m v).0.counter
            ≡ s.counter + length (taken_by v m.link.energy_delta []))
        × ((apply_verdict c master name s m v).0.last_energy_uj
            ≡ sat_sum s.last_energy_uj (taken_by v m.link.energy_delta []))
  unfolding apply_verdict verdict_on
  step_of s m accept h on fits =
      let (_, r) = (admit_chain_step-accept_iff _ _ _ _ _ _ _ _ fits).0 h in
      elim r [ inl off ↦ absurd (ground arith) | inr (n, e, p) ↦ (refl, n, e) ]
  step_of s m idempotent_skip h on fits = (on, omega arith, refl)
  step_of s m (reject e) h on fits = (on, omega arith, refl)

  length-taken_by :
      (v : ChainVerdict) (d : ℕ) (ds : List ℕ)
      → length (taken_by v d ds) ≡ length (taken_by v d []) + length ds
  length-taken_by accept d ds = omega arith
  length-taken_by idempotent_skip d ds = omega arith
  length-taken_by (reject e) d ds = omega arith

  sat_sum-taken_by :
      (v : ChainVerdict) (e d : ℕ) (ds : List ℕ)
      → sat_sum e (taken_by v d ds) ≡ sat_sum (sat_sum e (taken_by v d [])) ds
  sat_sum-taken_by accept e d ds = refl
  sat_sum-taken_by idempotent_skip e d ds = refl
  sat_sum-taken_by (reject x) e d ds = refl

  verify_state-step :
      (s : VmChainState) (m : SignedLink)
      → s.initialized ≡ true
      → m.link.energy_delta ≤ max_u64
      → ((verify_state c master name s m).0.initialized ≡ true)
        × ((verify_state c master name s m).0.counter
            ≡ s.counter + length (taken_by (verdict_on c master name s m) m.link.energy_delta []))
        × ((verify_state c master name s m).0.last_energy_uj
            ≡ sat_sum s.last_energy_uj
                (taken_by (verdict_on c master name s m) m.link.energy_delta []))
  unfolding verify_state
  verify_state-step s m = step_of s m (verdict_on c master name s m) refl

  -- On a started chain.
  started_run :
      (s : VmChainState) (ms : List SignedLink)
      → s.initialized ≡ true
      → All (λ m. m.link.energy_delta ≤ max_u64) ms
      → ((verify_all s ms).initialized ≡ true)
        × ((verify_all s ms).counter ≡ s.counter + length (taken s ms))
        × ((verify_all s ms).last_energy_uj ≡ sat_sum s.last_energy_uj (taken s ms))
  started_run s [] on fits = (on, omega arith, refl)
  started_run s (m ∷ ms) on fits =
      let v = verdict_on c master name s m in
      let (on', n, e) = verify_state-step s m on fits.0 in
      let (on'', ns, es) = started_run (verify_state c master name s m).0 ms on' fits.1 in
      (
        on'',
        omega (arith, n, ns, length-taken_by v m.link.energy_delta (taken _ ms)),
        es
            ∙ (ap (λ x. sat_sum x (taken (verify_state c master name s m).0 ms)) e
                ∙ sym (sat_sum-taken_by v s.last_energy_uj m.link.energy_delta (taken _ ms))),
      )

  fresh_of :
      (s : VmChainState) (m : SignedLink) (v : ChainVerdict)
      → ((v ≡ accept)
          × ((apply_verdict c master name s m v).0.initialized ≡ true)
          × ((apply_verdict c master name s m v).0.counter ≡ m.link.counter)
          × ((apply_verdict c master name s m v).0.last_energy_uj ≡ m.link.energy_uj))
        ⊎ ((taken_by v m.link.energy_delta ≡ λ ds. ds)
            × ((apply_verdict c master name s m v).0 ≡ s))
  unfolding apply_verdict
  fresh_of s m accept = inl (refl, refl, refl, refl)
  fresh_of s m idempotent_skip = inr (refl, refl)
  fresh_of s m (reject e) = inr (refl, refl)

  -- What has come of a chain after some steps, by whether it was started.
  abbrev pub Tally : VmChainState → List SignedLink → Bool → Type 0
  Tally s ms true =
      ((verify_all s ms).counter ≡ s.counter + length (taken s ms))
      × ((verify_all s ms).last_energy_uj ≡ sat_sum s.last_energy_uj (taken s ms))
  Tally s ms false =
      ((taken s ms ≡ []) × (verify_all s ms ≡ s))
      ⊎ ((m : SignedLink) × (ds : List ℕ) × Mem m ms
          × (verdict_on c master name s m ≡ accept)
          × (taken s ms ≡ m.link.energy_delta ∷ ds)
          × ((verify_all s ms).counter ≡ m.link.counter + length ds)
          × ((verify_all s ms).last_energy_uj ≡ sat_sum m.link.energy_uj ds))

  fresh_run :
      (s : VmChainState) (ms : List SignedLink)
      → All (λ m. m.link.energy_delta ≤ max_u64) ms
      → Tally s ms false
  fresh_run s [] fits = inl (refl, refl)
  fresh_run s (m ∷ ms) fits =
      let next = (verify_state c master name s m).0 in
      let rest = fresh_run s ms fits.1 in
      elim (fresh_of s m (verdict_on c master name s m)) [
        | inl (ok, on, n, e) ↦
            let on' : next.initialized ≡ true = unfold verify_state in on in
            let n' : next.counter ≡ m.link.counter = unfold verify_state in n in
            let e' : next.last_energy_uj ≡ m.link.energy_uj = unfold verify_state in e in
            let (_, ns, es) = started_run next ms on' fits.1 in
            inr (
              m,
              taken next ms,
              mem-cons_self,
              ok,
              ap (λ v. taken_by v m.link.energy_delta (taken next ms)) ok,
              ns ∙ ap (λ k. k + length (taken next ms)) n',
              es ∙ ap (λ k. sat_sum k (taken next ms)) e',
            )
        | inr (skips, stays) ↦
            let same : next ≡ s = unfold verify_state in stays in
            let took : taken s (m ∷ ms) ≡ taken s ms =
              ap (λ f. f (taken next ms)) skips ∙ ap (λ t. taken t ms) same in
            let ended : verify_all s (m ∷ ms) ≡ verify_all s ms = ap (λ t. verify_all t ms) same in
            elim rest [
              | inl (nothing, kept) ↦ inl (took ∙ nothing, ended ∙ kept)
              | inr (x, ds, at, ok, these, n, e) ↦ inr (
                x,
                ds,
                mem-cons_of_mem m at,
                ok,
                took ∙ these,
                ap (λ t. t.counter) ended ∙ n,
                ap (λ t. t.last_energy_uj) ended ∙ e,
              )
            ]
      ]

  -- After any steps with u64 deltas, genuine or not, offered in any order: on a chain that was
  -- started, the counter has grown by the number of accepted steps, and the stored energy is the
  -- saturating sum of the stored energy at the start and the deltas of the accepted steps. A chain
  -- that was not started either is as it was, no step being accepted, or was started by one of the
  -- steps, the first accepted one: the counter is that of this step and one more for each further
  -- accepted step, and the energy is the saturating sum of this step's energy and their deltas.
  pub verify_all_lem :
      (s : VmChainState) (ms : List SignedLink)
      → All (λ m. m.link.energy_delta ≤ max_u64) ms
      → Tally s ms s.initialized
  verify_all_lem s ms fits = elim (Bool-cases s.initialized) [
    | inl on ↦ let (_, n, e) = started_run s ms on fits in subst (Tally s ms) (sym on) (n, e)
    | inr off ↦ subst (Tally s ms) (sym off) (fresh_run s ms fits)
  ]

  stale_of :
      (s : VmChainState) (m : SignedLink) (v : ChainVerdict)
      → verdict_on c master name s m ≡ v
      → s.initialized ≡ true
      → m.link.energy_delta ≤ max_u64
      → m.link.counter ≤ s.counter
      → (apply_verdict c master name s m v).0 ≡ s
  unfolding apply_verdict verdict_on
  stale_of s m accept h on fits old =
      let (_, r) = (admit_chain_step-accept_iff _ _ _ _ _ _ _ _ fits).0 h in
      elim r [ inl off ↦ absurd (ground arith) | inr (n, e, p) ↦ absurd (omega (arith, n, old)) ]
  stale_of s m idempotent_skip h on fits old = refl
  stale_of s m (reject e) h on fits old = refl

  accepted_of :
      (s : VmChainState) (m : SignedLink) (v : ChainVerdict)
      → v ≡ accept
      → ((apply_verdict c master name s m v).0.initialized ≡ true)
        × ((apply_verdict c master name s m v).0.counter ≡ m.link.counter)
  unfolding apply_verdict
  accepted_of s m accept h = (refl, refl)
  accepted_of s m idempotent_skip h = absurd cc
  accepted_of s m (reject e) h = absurd cc

  -- No replay: a step with a u64 delta that a chain has accepted changes nothing when it is offered
  -- again, whatever steps with u64 deltas were offered in between.
  pub verify_state-replayed :
      (s : VmChainState) (m : SignedLink) (ms : List SignedLink)
      → verdict_on c master name s m ≡ accept
      → All (λ x. x.link.energy_delta ≤ max_u64) (m ∷ ms)
      → (verify_state c master name (verify_all s (m ∷ ms)) m).0 ≡ verify_all s (m ∷ ms)
  verify_state-replayed s m ms ok fits =
      let first : ((verify_state c master name s m).0.initialized ≡ true)
          × ((verify_state c master name s m).0.counter ≡ m.link.counter) =
        unfold verify_state in accepted_of s m _ ok in
      let (on, at) = first in
      let (on', n, _) = started_run (verify_state c master name s m).0 ms on fits.1 in
      unfold verify_state in
      stale_of (verify_all s (m ∷ ms)) m _ refl on' fits.0 (omega (arith, at, n))
