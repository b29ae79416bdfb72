-- ===== src/Chain.antt =====
-- The energy chain: `admit_chain_step` of verified/src/lib.rs, the guest's chain state with
-- `ecall_verify_energy_chain` and `ecall_sign_energy_chain` of sgx_vm/src/lib.rs.
pub mod Step
pub mod Guest
mod Examples
use vpma.Prelude.{
  ℕ, zero, suc, ◌+◌, ◌-◌, ◌%◌, ◌^◌, Bool, true, false, not, ◌||◌, Option, none, some, List, [], ◌∷◌,
  ◌++◌, ltb, ◌==◌, ◌===◌, if◌then◌else◌, ℤ, pos, negsuc,
}
use vpma.Crypto.{Crypto, zero32}
use vpma.Text.Numbers.{show_u64}

-- u64::MAX
abbrev pub max_u64 : ℕ
max_u64 = 2 ^ 64 - 1

pub data ChainDenial : Type 0 where
  mac_mismatch energy_changed_under_same_counter counter_rollback : ChainDenial
  counter_discontinuity cumulative_energy_mismatch prev_hash_mismatch : ChainDenial

pub data ChainVerdict : Type 0 where
  accept idempotent_skip : ChainVerdict
  reject : ChainDenial → ChainVerdict

-- The last tests of `admit_chain_step`, after those on the counter. `u64::MAX - incoming_delta`
-- does not underflow.
unfoldable pub check_energy : Bool → ℕ → ℕ → ℕ → ChainVerdict
check_energy prev_hash_ok stored_energy incoming_energy incoming_delta =
    let expected_energy =
      if ltb (max_u64 - incoming_delta) stored_energy
      then max_u64
      else stored_energy + incoming_delta in
    if not (incoming_energy == expected_energy)
    then reject cumulative_energy_mismatch
    else if not prev_hash_ok
    then reject prev_hash_mismatch
    else accept

-- mac_ok, prev_hash_ok, initialized; stored counter and energy; incoming counter, energy and delta.
-- Where `stored_counter + 1` is computed, it is at most the incoming counter.
unfoldable pub admit_chain_step : Bool → Bool → Bool → ℕ → ℕ → ℕ → ℕ → ℕ → ChainVerdict
unfolding check_energy
admit_chain_step mac_ok prev_hash_ok initialized stored_counter stored_energy incoming_counter
      incoming_energy incoming_delta =
    if not mac_ok
    then reject mac_mismatch
    else if not initialized
    then accept
    else if incoming_counter == stored_counter
    then (if not (incoming_energy == stored_energy)
        then reject energy_changed_under_same_counter
        else idempotent_skip)
    else if ltb incoming_counter stored_counter
    then reject counter_rollback
    else if not (incoming_counter == stored_counter + 1)
    then reject counter_discontinuity
    else check_energy prev_hash_ok stored_energy incoming_energy incoming_delta

pub record VmChainState : Type 0 where
  pub counter : ℕ
  pub last_signature : List ℕ
  pub initialized : Bool
  pub last_energy_uj : ℕ

abbrev pub new_state : VmChainState
new_state = record { counter = 0; last_signature = zero32; initialized = false; last_energy_uj = 0 }

-- The `BTreeMap` from tenant names to states: what is stored for a name.
abbrev pub States : Type 0
States = List (List ℕ × VmChainState)

pub find_state : List ℕ → States → Option VmChainState
find_state name [] = none
find_state name ((n, s) ∷ rest) = if n === name then some s else find_state name rest

pub set_state : List ℕ → VmChainState → States → States
set_state name v [] = (name, v) ∷ []
set_state name v ((n, s) ∷ rest) =
    if n === name then (n, v) ∷ rest else (n, s) ∷ set_state name v rest

-- `.entry(name).or_insert_with(VmChainState::new)`
pub or_new : Option VmChainState → VmChainState
or_new none = new_state
or_new (some s) = s

pub entry : List ℕ → States → VmChainState
entry name states = or_new (find_state name states)

-- The return code of a refused step.
unfoldable pub chain_denial_code : ChainDenial → ℤ
chain_denial_code mac_mismatch = negsuc 1
chain_denial_code energy_changed_under_same_counter = negsuc 1
chain_denial_code cumulative_energy_mismatch = negsuc 1
chain_denial_code counter_rollback = negsuc 2
chain_denial_code counter_discontinuity = negsuc 2
chain_denial_code prev_hash_mismatch = negsuc 3

-- What one call hands over: counter, cumulative energy, energy delta, previous hash.
pub record Link : Type 0 where
  pub counter : ℕ
  pub energy_uj : ℕ
  pub energy_delta : ℕ
  pub previous_hash : List ℕ

-- A chain step as it is sent, with its signature.
pub record SignedLink : Type 0 where
  pub link : Link
  pub signature : List ℕ

module _ (c : Crypto) (master : List ℕ) where
  unfoldable pub derive_vm_key : List ℕ → List ℕ
  derive_vm_key vm_name = c.hmac master ((0x76 ∷ 0x6D ∷ 0x3A ∷ []) ++ vm_name)

  -- format!("{}|{}|{}|{}|{}", …)
  unfoldable pub chain_data : List ℕ → Link → List ℕ
  chain_data vm_name l =
      show_u64 l.counter
      ++ (0x7C
          ∷ (vm_name
              ++ (0x7C
                  ∷ (show_u64 l.energy_uj
                      ++ (0x7C
                          ∷ (show_u64 l.energy_delta ++ (0x7C ∷ c.hex_encode l.previous_hash)))))))

  unfoldable pub sign_link : List ℕ → Link → List ℕ
  sign_link vm_name l = c.hmac (derive_vm_key vm_name) (chain_data vm_name l)

  -- `ecall_verify_energy_chain` on the entry of its tenant: the verdict, then its effects.
  unfoldable pub verdict_on : List ℕ → VmChainState → SignedLink → ChainVerdict
  verdict_on vm_name s m =
      let mac_ok = sign_link vm_name m.link === m.signature in
      let prev_hash_ok = not s.initialized || m.link.previous_hash === s.last_signature in
      admit_chain_step mac_ok prev_hash_ok s.initialized s.counter s.last_energy_uj m.link.counter
        m.link.energy_uj m.link.energy_delta

  unfoldable pub apply_verdict :
      List ℕ → VmChainState → SignedLink → ChainVerdict → VmChainState × ℤ
  apply_verdict vm_name s m accept = (
    record {
      counter = m.link.counter;
      last_signature = sign_link vm_name m.link;
      initialized = true;
      last_energy_uj = m.link.energy_uj;
    },
    if s.initialized then pos 0 else pos 1,
  )
  apply_verdict vm_name s m idempotent_skip = (s, pos 2)
  apply_verdict vm_name s m (reject d) = (s, chain_denial_code d)

  unfoldable pub verify_state : List ℕ → VmChainState → SignedLink → VmChainState × ℤ
  verify_state vm_name s m = apply_verdict vm_name s m (verdict_on vm_name s m)

  pub verify_energy_chain : States → List ℕ → SignedLink → States × ℤ
  verify_energy_chain states vm_name m =
      let (s, code) = verify_state vm_name (entry vm_name states) m in
      (set_state vm_name s states, code)

  -- `ecall_sign_energy_chain` on the entry of its tenant.
  unfoldable pub sign_state : List ℕ → VmChainState → ℕ → ℕ → VmChainState × SignedLink × ℤ
  sign_state tenant s energy_uj energy_delta =
      let counter = if not s.initialized then 1 else (s.counter + 1) % 2 ^ 64 in
      let l : Link = record {
        counter = counter;
        energy_uj = energy_uj;
        energy_delta = energy_delta;
        previous_hash = s.last_signature;
      } in
      let signature = sign_link tenant l in
      (
        record {
          counter = counter;
          last_signature = signature;
          initialized = true;
          last_energy_uj = energy_uj;
        },
        record { link = l; signature = signature },
        if not s.initialized then pos 1 else pos 0,
      )

  unfoldable pub sign_energy_chain : States → List ℕ → ℕ → ℕ → States × SignedLink × ℤ
  sign_energy_chain states tenant energy_uj energy_delta =
      let (s, m, code) = sign_state tenant (entry tenant states) energy_uj energy_delta in
      (set_state tenant s states, m, code)
