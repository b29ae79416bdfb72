-- ===== src/Chain/Examples.antt =====
-- The energy chain at concrete inputs: a chain of one tenant, with the toy functions.
use vpma.Prelude.{ℕ, ◌<◌, ◌≤◌, ◌≡◌, refl, ◌↔◌, inr, true, false, List, [], ◌∷◌, arith}
use vpma.Crypto.Toy.{toy}
use vpma.Chain.{
  accept, max_u64, admit_chain_step, VmChainState, new_state, SignedLink, verdict_on, verify_state,
  sign_state, States,
}
use vpma.Chain.Step.{
  StepAcceptable, Explains, admit_chain_step-accept_iff, admit_chain_step-Explains, spec_sat_add,
}
use vpma.Chain.Guest.{accept_signed, verify_all, verify_all_lem, Tally, verify_state-replayed}

admit_chain_step-accept_iff_example :
    (admit_chain_step true true true 4 100 5 130 30 ≡ accept)
    ↔ StepAcceptable true true true 4 100 5 130 30
admit_chain_step-accept_iff_example =
    admit_chain_step-accept_iff true true true 4 100 5 130 30 (omega arith)

admit_chain_step-Explains_example :
    Explains true true true 4 100 5 131 30 (admit_chain_step true true true 4 100 5 131 30)
admit_chain_step-Explains_example =
    admit_chain_step-Explains true true true 4 100 5 131 30 (omega arith)

abbrev master : List ℕ
master = 7 ∷ []

abbrev tenant : List ℕ
tenant = 0x61 ∷ []

abbrev other_tenant : List ℕ
other_tenant = 0x62 ∷ []

-- A new chain after one step, and the next signed step.
abbrev first_state : VmChainState
first_state = (sign_state toy master tenant new_state 100 100).0

abbrev next_link : SignedLink
next_link = (sign_state toy master tenant first_state 130 30).1

abbrev states : States
states = (tenant, first_state) ∷ []

started : first_state.initialized ≡ true
unfolding sign_state
started = refl

room : first_state.counter < max_u64
unfolding sign_state
room = omega arith

next_total : 130 ≡ spec_sat_add first_state.last_energy_uj 30
unfolding sign_state spec_sat_add
next_total = refl

next_delta : next_link.link.energy_delta ≤ max_u64
unfolding sign_state
next_delta = omega arith

next_accepted : verdict_on toy master tenant first_state next_link ≡ accept
next_accepted =
    accept_signed toy master tenant first_state 130 30 room (omega arith) (inr next_total)

abbrev offered : List SignedLink
offered = next_link ∷ next_link ∷ []

-- A started chain is offered the next step twice; a fresh one is offered the same and starts.
verify_all_lem_example :
    Tally toy master tenant first_state offered true
    × Tally toy master tenant new_state offered false
unfolding sign_state
verify_all_lem_example = (
  verify_all_lem toy master tenant first_state offered (next_delta, (next_delta, tt)),
  verify_all_lem toy master tenant new_state offered (next_delta, (next_delta, tt)),
)

verify_state-replayed_example :
    (verify_state toy master tenant (verify_all toy master tenant first_state offered) next_link).0
    ≡ verify_all toy master tenant first_state offered
verify_state-replayed_example =
    verify_state-replayed toy master tenant first_state next_link (next_link ∷ []) next_accepted
      (next_delta, (next_delta, tt))
