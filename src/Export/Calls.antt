-- ===== src/Export/Calls.antt =====
-- Every call of `handle_db_export` on every request, and a run of calls.
use vpma.Prelude.{
  false, ℕ, ◌^◌, ◌≤◌, ◌<◌, ◌≡◌, refl, ap, ◌∙◌, ◌⊎◌, inl, inr, true, Option, none, some, List, arith,
  leb, ◌==◌, ==_iff, ℤ, pos, negsuc, length, Bool-cases, Option-cases, All,
}
use vpma.Crypto.{Crypto}
use vpma.Merkle.{done}
use vpma.Chain.{States}
use vpma.Attribution.Total.{sum, Attributed, attribute_by_weight_lem}
use vpma.Export.{
  Guest, DbExportReq, Surroundings, Handled, Floats, Bucket, buckets_of, saturating_fold, conserve,
  attribute, refusal, decoded_32, verify_request, on_verdict, with_hashes, handle_db_export,
  is_negative, is_skip,
}
use vpma.Export.Shares.{ticks_of, length-ticks_of, energy_of, saturating_fold_lem, buckets_of_lem}
use vpma.Export.Stored.{Stores, Stores-same, gather_lem}

-- The numbers of a request are of u64.
abbrev pub AreU64 : DbExportReq → Type 0
AreU64 req = (req.energy_delta < 2 ^ 64) × All (λ p. p.1 < 2 ^ 64) req.processes

is_skip_lem : (code : ℤ) → is_skip code ≡ true → code ≡ pos 2
unfolding is_skip
is_skip_lem (pos n) h = ap pos ((==_iff n 2).0 h)
is_skip_lem (negsuc n) h = absurd cc

module _ (c : Crypto) (master : List ℕ) (floats : Floats) where
  -- Why a request is refused, by its status.
  pub data Refused (s : Guest) (req : DbExportReq) : ℤ → Type 0 where
    bad_previous_hash : decoded_32 req.previous_hash ≡ none → Refused s req (negsuc 101)
    bad_signature : decoded_32 req.signature ≡ none → Refused s req (negsuc 102)
    by_chain :
        (p g : List ℕ) (code : ℤ)
        → decoded_32 req.previous_hash ≡ some p
        → decoded_32 req.signature ≡ some g
        → (verify_request c master floats s req p g).1 ≡ code
        → (is_negative code ≡ true) ⊎ (code ≡ pos 2)
        → Refused s req code
    too_large : 0xFFFFFFFF ≤ length req.processes → Refused s req (negsuc 103)

  -- A call refuses, and only the states of the chains change; or it attributes the whole delta and
  -- a batch that is full extends the stored chain.
  pub data Answer (s : Guest) (req : DbExportReq) (h : Handled) : Type 0 where
    refuses :
        (code : ℤ)
        → h.1 ≡ refusal code
        → Refused s req code
        → h.2 ≡ none
        → h.0 ≡ record s { chains = h.0.chains }
        → Answer s req h
    attributes :
        (results : List (ℕ × ℕ))
        → h.1 ≡ record { status = pos 0; output_data = some results }
        → energy_of results ≡ req.energy_delta
        → (s.state_initialized ≡ false) ⊎ (Stores c s h.0 h.2 × (h.0.state_initialized ≡ true))
        → Answer s req h

  conserve_lem :
      (s : Guest) (chains : States) (req : DbExportReq) (env : Surroundings) (buckets : List Bucket)
      (shares : List ℕ)
      → length shares ≡ length buckets
      → sum shares ≡ req.energy_delta
      → req.energy_delta < 2 ^ 64
      → (h : Handled) × (conserve c master floats
            (record s { chains = chains })
            req
            env
            buckets
            (some shares)
          ≡ done h)
        × Answer s req h
  unfolding conserve
  conserve_lem s chains req env buckets shares size total small =
      let t : Guest = record s { chains = chains } in
      let folded : saturating_fold 0 shares ≡ req.energy_delta =
        saturating_fold_lem 0 shares (omega (arith, total, small)) ∙ omega (arith, total) in
      let same : (saturating_fold 0 shares == req.energy_delta) ≡ true = (==_iff _ _).1 folded in
      let (h, gathered, results, output, energy, stored) =
        gather_lem c master floats t req env buckets shares size in
      (
        h,
        rw same gathered,
        attributes results output (energy ∙ total) (elim (Bool-cases s.state_initialized) [
          | inl on ↦
              let (moved, still) = stored on in
              inr (Stores-same c s t h.0 h.2 refl refl moved, still)
          | inr off ↦ inl off
        ]),
      )

  attributed :
      (s : Guest) (chains : States) (req : DbExportReq) (env : Surroundings) (buckets : List Bucket)
      (r : Option (List ℕ))
      → req.energy_delta < 2 ^ 64
      → 0 < sum (ticks_of buckets)
      → Attributed req.energy_delta (ticks_of buckets) r
      → (h : Handled) × (conserve c master floats (record s { chains = chains }) req env buckets r
          ≡ done h)
        × Answer s req h
  attributed s chains req env buckets none small busy none_there =
      absurd (omega (arith, busy, none_there))
  attributed s chains req env buckets (some shares) small busy (_, size, total) =
      conserve_lem s chains req env buckets shares (size ∙ length-ticks_of buckets) total small

  attribute_lem :
      (s : Guest) (chains : States) (req : DbExportReq) (env : Surroundings)
      → AreU64 req
      → (h : Handled) × (attribute c master floats (record s { chains = chains }) req env ≡ done h)
        × Answer s req h
  unfolding attribute
  attribute_lem s chains req env small = elim (Bool-cases (leb 0xFFFFFFFF (length req.processes))) [
    | inl many ↦ (
      (record s { chains = chains }, refusal (negsuc 103), none),
      rw many refl,
      refuses (negsuc 103) refl (too_large (ground (arith, many))) refl refl,
    )
    | inr few ↦
        let buckets = buckets_of req.processes in
        let (weights, count, busy) = buckets_of_lem req.processes small.1 (ground (arith, few)) in
        rw few (
          attributed s chains req env buckets _ small.0 busy
            (attribute_by_weight_lem req.energy_delta (ticks_of buckets) small.0 count weights).0)
  ]

  on_verdict_lem :
      (s : Guest) (req : DbExportReq) (env : Surroundings) (p g : List ℕ)
      → AreU64 req
      → decoded_32 req.previous_hash ≡ some p
      → decoded_32 req.signature ≡ some g
      → (h : Handled) × (on_verdict c master floats s req env
            (verify_request c master floats s req p g)
          ≡ done h)
        × Answer s req h
  unfolding on_verdict
  on_verdict_lem s req env p g small e f =
      let r = verify_request c master floats s req p g in
      let t : Guest = record s { chains = r.0 } in
      elim (Bool-cases (is_negative r.1)) [
        | inl bad ↦ (
          (t, refusal r.1, none),
          rw bad refl,
          refuses r.1 refl (by_chain p g r.1 e f refl (inl bad)) refl refl,
        )
        | inr good ↦ elim (Bool-cases (is_skip r.1)) [
          | inl skip ↦ (
            (t, refusal (pos 2), none),
            rw (good, skip) refl,
            refuses (pos 2) refl (by_chain p g (pos 2) e f (is_skip_lem r.1 skip) (inr refl)) refl
                refl,
          )
          | inr new ↦ rw (good, new) (attribute_lem s r.0 req env small)
        ]
      ]

  -- Each call ends without a panic. It refuses for one of the reasons of `Refused`, stores nothing
  -- and changes only the states of the chains; or the energies that it answers add up to exactly
  -- the delta and, once the state is initialized, a block that it inserts with success is good and extends the
  -- chain. A failed attribution or a broken conservation (-105 and -106) does not occur.
  pub handle_db_export_lem :
      (s : Guest) (req : DbExportReq) (env : Surroundings)
      → AreU64 req
      → (h : Handled) × (handle_db_export c master floats s req env ≡ done h) × Answer s req h
  unfolding handle_db_export with_hashes
  handle_db_export_lem s req env small = elim (Option-cases (decoded_32 req.previous_hash)) [
    | inl e ↦ (
      (s, refusal (negsuc 101), none),
      rw e refl,
      refuses (negsuc 101) refl (bad_previous_hash e) refl refl,
    )
    | inr (p, e) ↦ elim (Option-cases (decoded_32 req.signature)) [
      | inl f ↦ (
        (s, refusal (negsuc 102), none),
        rw (e, f) refl,
        refuses (negsuc 102) refl (bad_signature f) refl refl,
      )
      | inr (g, f) ↦ rw (e, f) (on_verdict_lem s req env p g small e f)
    ]
  ]
