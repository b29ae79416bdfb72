-- ===== src/Host/Signing.antt =====
-- The guest accepts what the host signs.
use vpma.Prelude.{
  ℕ, ◌≡◌, ◌≢◌, refl, sym, ap, ap₂, ◌∙◌, ◌⊎◌, inl, inr, true, false, some, List, [], ◌∷◌, ◌===◌,
  ===-refl, ===-sound, if◌then◌else◌, Bool-cases, lookup, insert, lookup-insert_same,
  lookup-insert_other,
}
use vpma.Crypto.{Crypto}
use vpma.Exporter.{VmEnergyUpdate}
use vpma.Chain.{accept, SignedLink, verdict_on, verify_state}
use vpma.Host.{
  VmChainState, SignedVmUpdate, Chains, saturating_add, or_started, chain_entry, sign_update,
  sign_loop,
}

module _ (c : Crypto) (master name : List ℕ) where
  -- The host's state after the updates.
  abbrev pub host_after : VmChainState → List VmEnergyUpdate → VmChainState
  host_after h [] = h
  host_after h (u ∷ us) = host_after (sign_update c master h u).0 us

module _ (c : Crypto) (host guest name : List ℕ) where
  -- The guest derives the key with which the host signs, and holds the state of the host or has seen
  -- no step yet.
  pub record Sync (h : VmChainState) (g : vpma.Chain.VmChainState) : Type 0 where
    pub keyed : h.hmac_key ≡ vpma.Chain.derive_vm_key c guest name
    pub agrees :
        (g.initialized ≡ false)
        ⊎ ((g.counter ≡ h.counter)
            × (g.last_signature ≡ h.chain_state)
            × (g.last_energy_uj ≡ h.cumulative_energy_uj))

  -- The step that the host signs for an update, as the guest is handed it.
  abbrev pub link_of : VmChainState → VmEnergyUpdate → SignedLink
  link_of h u =
      let h' = (sign_update c host h u).0 in
      record {
        link = record {
          counter = h'.counter;
          energy_uj = h'.cumulative_energy_uj;
          energy_delta = u.uj_to_add;
          previous_hash = h.chain_state;
        };
        signature = h'.chain_state;
      }

  -- The steps that it signs.
  abbrev pub signed_steps : VmChainState → List VmEnergyUpdate → List SignedLink
  signed_steps h [] = []
  signed_steps h (u ∷ us) = link_of h u ∷ signed_steps (sign_update c host h u).0 us

  -- The guest accepts each step in turn, and ends in the state.
  abbrev pub AcceptsAll :
      vpma.Chain.VmChainState → List SignedLink → (vpma.Chain.VmChainState → Type 0) → Type 0
  AcceptsAll g [] P = P g
  AcceptsAll g (m ∷ ms) P =
      (verdict_on c guest name g m ≡ accept) × AcceptsAll (verify_state c guest name g m).0 ms P

  -- The steps as a relay passes them on: the host hands out the number, the energy, the previous hash
  -- and the signature of each, and the relay adds up the energies itself, from its total on.
  abbrev pub relayed : ℕ → VmChainState → List VmEnergyUpdate → List SignedLink
  relayed total h [] = []
  relayed total h (u ∷ us) =
      let (h', signed) = sign_update c host h u in
      record {
        link = record {
          counter = signed.counter;
          energy_uj = saturating_add total signed.uj_value;
          energy_delta = signed.uj_value;
          previous_hash = h.chain_state;
        };
        signature = h'.chain_state;
      }
      ∷ relayed (saturating_add total signed.uj_value) h' us

module _ (c : Crypto) (master name : List ℕ) where
  -- The updates of this virtual machine, before and after they are signed.
  abbrev pub own : List VmEnergyUpdate → List VmEnergyUpdate
  own [] = []
  own (u ∷ us) = if u.vm_name === name then u ∷ own us else own us

  abbrev pub own_signed : List SignedVmUpdate → List SignedVmUpdate
  own_signed [] = []
  own_signed (u ∷ us) = if u.vm_name === name then u ∷ own_signed us else own_signed us

  abbrev pub signed_updates : VmChainState → List VmEnergyUpdate → List SignedVmUpdate
  signed_updates h [] = []
  signed_updates h (u ∷ us) =
      (sign_update c master h u).1 ∷ signed_updates (sign_update c master h u).0 us

  entry_same :
      (n : List ℕ) (s : VmChainState) (chains : Chains)
      → n ≡ name
      → chain_entry c master name (insert n s chains) ≡ s
  unfolding chain_entry or_started
  entry_same n s chains e =
      let found : lookup name (insert n s chains) ≡ some s =
        rw e (lookup-insert_same name s chains) in
      ap (or_started c master name) found

  entry_other :
      (n : List ℕ) (s : VmChainState) (chains : Chains)
      → name ≢ n
      → chain_entry c master name (insert n s chains) ≡ chain_entry c master name chains
  unfolding chain_entry
  entry_other n s chains ne = ap (or_started c master name) (lookup-insert_other n name s chains ne)

  differ : {n : List ℕ} → (n === name) ≡ false → n ≢ name
  differ {n} f e = let same : (n === name) ≡ true = rw e (===-refl name) in absurd cc

  signed_name :
      (h : VmChainState) (u : VmEnergyUpdate) → (sign_update c master h u).1.vm_name ≡ u.vm_name
  unfolding sign_update
  signed_name h u = refl

  -- The signing loop treats the virtual machines apart: the chain that it leaves for a machine, and
  -- the updates that it signs for it, are those of signing that machine's updates alone, in order.
  pub sign_loop_lem :
      (chains : Chains) (us : List VmEnergyUpdate)
      → (chain_entry c master name (sign_loop c master chains us).0
          ≡ host_after c master name (chain_entry c master name chains) (own us))
        × (own_signed (sign_loop c master chains us).1
            ≡ signed_updates (chain_entry c master name chains) (own us))
  unfolding sign_loop
  sign_loop_lem chains [] = (refl, refl)
  sign_loop_lem chains (u ∷ us) =
      let made = sign_update c master (chain_entry c master u.vm_name chains) u in
      let next : Chains = insert u.vm_name made.0 chains in
      let (kept, outs) = sign_loop_lem next us in
      elim (Bool-cases (u.vm_name === name)) [
        | inl t ↦
            let e = ===-sound u.vm_name name t in
            let same : chain_entry c master name next
                ≡ (sign_update c master (chain_entry c master name chains) u).0 =
              entry_same u.vm_name made.0 chains e
              ∙ ap (λ n. (sign_update c master (chain_entry c master n chains) u).0) e in
            let marked : (made.1.vm_name === name) ≡ true =
              rw (signed_name (chain_entry c master u.vm_name chains) u) t in
            rw (marked, t)
              (
                kept ∙ ap (λ h. host_after c master name h (own us)) same,
                ap₂ (λ x xs. x ∷ xs)
                    (ap (λ n. (sign_update c master (chain_entry c master n chains) u).1) e)
                    (outs ∙ ap (λ h. signed_updates h (own us)) same),
              )
        | inr f ↦
            let marked : (made.1.vm_name === name) ≡ false =
              rw (signed_name (chain_entry c master u.vm_name chains) u) f in
            let other : chain_entry c master name next ≡ chain_entry c master name chains =
              entry_other u.vm_name made.0 chains (λ e. differ f (sym e)) in
            rw (marked, f)
              (
                kept ∙ ap (λ h. host_after c master name h (own us)) other,
                outs ∙ ap (λ h. signed_updates h (own us)) other,
              )
      ]
