-- ===== src/Gpu/Calls.antt =====
-- Every call of `handle_gpu_db_export`.
use vpma.Prelude.{
  ℕ, ◌+◌, ◌%◌, ◌^◌, ◌≤◌, ◌<◌, ◌≡◌, ◌≢◌, refl, sym, ap, ◌∙◌, inl, inr, Bool, true, false, none, some,
  List, [], ◌++◌, arith, ◌==◌, ==_iff, ℤ, pos, negsuc, Bool-cases, All,
}
use vpma.Crypto.{Crypto}
use vpma.Text.{is_valid_tenant_label}
use vpma.Chain.{sign_energy_chain, sign_state, entry}
use vpma.Merkle.{done, ◌>>=◌}
use vpma.Export.{is_negative}
use vpma.Exporter.{Text}
use vpma.GpuReadings.{
  gpu_prefix, GpuGuest, GpuDbExportReq, GpuSurroundings, gpu_refusal, GpuHandled, has_duplicate,
}
use vpma.GpuReadings.Baselines.{total, Grows}
use vpma.GpuReadings.Evident.{Evident}
use vpma.GpuFlush.Stores.{Flushed, flush_gpu_block_to_redis_lem}
use vpma.Gpu.{
  gpu_batch_size, Cycle, LoopEnd, GpuFloats, count_cycle, sign_node, on_signed, after_loop,
  process_gpus, check_bindings, with_bindings, handle_gpu_db_export,
}
use vpma.Gpu.Charged.{
  energy_of, IsReading, firsts, Denied, Touches, Looped, all_charged, one_denied, gpu_loop_lem,
}

abbrev start : GpuGuest → List (Text × Bool) → Cycle
start s bindings = record {
  state = record s { bindings = bindings };
  results = [];
  node_energy_uj = 0;
  node_delta = 0;
}

not_full : (n : ℕ) → (n == gpu_batch_size) ≡ false → n ≢ gpu_batch_size
not_full n f e = let bad : true ≡ false = sym ((==_iff n gpu_batch_size).1 e) ∙ f in cc

module _ (c : Crypto) (master : List ℕ) (floats : GpuFloats) where
  -- Why a request is refused before any reading is charged.
  pub data Refused (s : GpuGuest) (req : GpuDbExportReq) (env : GpuSurroundings) : ℤ → Type 0 where
    bad_label : is_valid_tenant_label req.node_id ≡ false → Refused s req env (negsuc 101)
    duplicate : has_duplicate [] req.gpus ≡ true → Refused s req env (negsuc 102)
    unbound : (check_bindings c master floats s req env).1 ≡ false → Refused s req env (negsuc 12)

  abbrev pub tag_enforced : GpuGuest → GpuDbExportReq → GpuSurroundings → Bool
  tag_enforced s req env = (check_bindings c master floats s req env).2

  -- The state in which a cycle is counted: what the chain has and the latch stand as they stood.
  abbrev pub Counts : GpuGuest → GpuGuest → Type 0
  Counts s t = t ≡ record s {
    gpu_energy_state = t.gpu_energy_state;
    bindings = t.bindings;
    guest = record s.guest {
      iteration_count = (s.guest.iteration_count + 1) % 2 ^ 64;
      accumulated_records = t.guest.accumulated_records;
      chains = t.guest.chains;
    };
  }

  -- The end of a cycle: a batch that is full is flushed.
  pub data Ends (t : GpuGuest) (tenant : List ℕ) (env : GpuSurroundings) (h : GpuHandled)
      : Type 0 where
    gathers : t.guest.iteration_count ≢ gpu_batch_size → h.0 ≡ t → h.2 ≡ none → Ends t tenant env h
    flushes :
        t.guest.iteration_count ≡ gpu_batch_size
        → Flushed c master t tenant env (h.0, h.2)
        → Ends t tenant env h

  -- What a call does. It refuses and only the cache of bindings may change; it refuses a reading's
  -- tag, and stores and answers nothing; or it charges every reading.
  pub data Answer (s : GpuGuest) (req : GpuDbExportReq) (env : GpuSurroundings) (h : GpuHandled)
      : Type 0 where
    refuses :
        (code : ℤ)
        → h.1 ≡ gpu_refusal code
        → Refused s req env code
        → h.2 ≡ none
        → h.0 ≡ record s { bindings = h.0.bindings }
        → Answer s req env h
    denies :
        (code : ℤ)
        → h.1 ≡ gpu_refusal code
        → Denied req (tag_enforced s req env) req.gpus code
        → h.2 ≡ none
        → Touches s h.0
        → Grows s.gpu_energy_state h.0.gpu_energy_state
        → total s.gpu_energy_state ≤ total h.0.gpu_energy_state
        → Answer s req env h
    charges :
        (results : List (Text × ℕ)) (t : GpuGuest)
        → h.1 ≡ record { status = pos 0; output_data = some results }
        → All (Evident req (tag_enforced s req env)) req.gpus
        → Grows s.gpu_energy_state t.gpu_energy_state
        → total t.gpu_energy_state
          ≡ total s.gpu_energy_state
            + energy_of results
            + firsts req.node_id req.gpus s.gpu_energy_state
        → Counts s t
        → Ends t req.node_id env h
        → Answer s req env h

  -- Signing does not fail.
  sign_node-succeeds :
      (req : GpuDbExportReq) (cycle : Cycle)
      → is_negative (sign_node c master floats req cycle).1 ≡ false
  unfolding sign_node sign_energy_chain sign_state is_negative
  sign_node-succeeds req cycle =
      elim (Bool-cases (entry (gpu_prefix ++ req.node_id) cycle.state.guest.chains).initialized) [
        | inl t ↦ rw t refl
        | inr f ↦ rw f refl
      ]

  counted : GpuGuest → GpuGuest
  counted s = record s {
    guest = record s.guest { iteration_count = (s.guest.iteration_count + 1) % 2 ^ 64 };
  }

  count_cycle_lem :
      (req : GpuDbExportReq) (env : GpuSurroundings) (results : List (Text × ℕ)) (s : GpuGuest)
      → is_valid_tenant_label req.node_id ≡ true
      → s.guest.block_number < 2 ^ 64
      → (h : GpuHandled) × (count_cycle c master floats req env results s ≡ done h)
        × (h.1 ≡ record { status = pos 0; output_data = some results })
        × Ends (counted s) req.node_id env h
  unfolding count_cycle counted
  count_cycle_lem req env results s label small =
      let t = counted s in
      let (r, flushed, ways) =
        flush_gpu_block_to_redis_lem c master t req.node_id env label small in
      elim (Bool-cases (t.guest.iteration_count == gpu_batch_size)) [
        | inl full ↦ (
          (r.0, record { status = pos 0; output_data = some results }, r.1),
          rw (full, flushed, ◌>>=◌) refl,
          refl,
          flushes ((==_iff _ _).0 full) ways,
        )
        | inr room ↦ (
          (t, record { status = pos 0; output_data = some results }, none),
          rw (room, ◌>>=◌) refl,
          refl,
          gathers (λ e. not_full _ room e) refl refl,
        )
      ]

  after_loop_lem :
      (s : GpuGuest) (req : GpuDbExportReq) (env : GpuSurroundings) (bindings : List (Text × Bool))
      (e : LoopEnd)
      → is_valid_tenant_label req.node_id ≡ true
      → s.guest.block_number < 2 ^ 64
      → Looped req (tag_enforced s req env) req.gpus (start s bindings) e
      → (h : GpuHandled) × (after_loop c master floats req env e ≡ done h) × Answer s req env h
  unfolding after_loop on_signed counted
  after_loop_lem s req env bindings e label small (one_denied code t bad touch grow more) =
      ((t, gpu_refusal code, none), refl, denies code refl bad refl touch grow more)
  after_loop_lem s req env bindings e label small (all_charged next ev (touch, grow, sums, sizes)) =
      let chains = (sign_node c master floats req next).0 in
      let signed : GpuGuest = record next.state {
        guest = record next.state.guest { chains = chains };
      } in
      let same : next.state.guest.block_number ≡ s.guest.block_number =
        ap (λ (u : GpuGuest). u.guest.block_number) touch in
      let (h, eq, answer, ways) =
        count_cycle_lem req env next.results signed label (rw same small) in
      (
        h,
        rw (sign_node-succeeds req next) eq,
        charges next.results (counted signed) answer ev grow (omega (arith, sums))
            (ap
              (λ (u : GpuGuest). counted (record u { guest = record u.guest { chains = chains } }))
              touch)
            ways,
      )

  -- From the loop on, with the cache of bindings that the checks have left.
  process_gpus_lem :
      (s : GpuGuest) (req : GpuDbExportReq) (env : GpuSurroundings) (bindings : List (Text × Bool))
      → is_valid_tenant_label req.node_id ≡ true
      → s.guest.block_number < 2 ^ 64
      → All IsReading req.gpus
      → (h : GpuHandled) × (process_gpus c master floats
            (record s { bindings = bindings })
            req
            env
            (tag_enforced s req env)
          ≡ done h)
        × Answer s req env h
  unfolding process_gpus
  process_gpus_lem s req env bindings label small readings =
      let (e, ran, looped) =
        gpu_loop_lem c master floats req env (tag_enforced s req env) req.gpus (start s bindings)
          readings in
      rw (ran, ◌>>=◌) (after_loop_lem s req env bindings e label small looped)

  -- For readings of u64 with fewer than 2^32 - 1 processes each, a call ends without a panic. It
  -- refuses a bad label, a repeated index or an unbound card before anything is charged; or it
  -- refuses the tag of a reading; or every reading is evident, and the answered energies are, with
  -- the first samples, exactly what all baselines have grown by. No baseline falls in any of these.
  -- A full batch is then flushed as `flush_gpu_block_to_redis_lem` says, and nothing else is stored.
  pub handle_gpu_db_export_lem :
      (s : GpuGuest) (req : GpuDbExportReq) (env : GpuSurroundings)
      → s.guest.block_number < 2 ^ 64
      → All IsReading req.gpus
      → (h : GpuHandled) × (handle_gpu_db_export c master floats s req env ≡ done h)
        × Answer s req env h
  unfolding handle_gpu_db_export with_bindings
  handle_gpu_db_export_lem s req env small readings =
      elim (Bool-cases (is_valid_tenant_label req.node_id)) [
        | inl label ↦ elim (Bool-cases (has_duplicate [] req.gpus)) [
          | inl twice ↦ (
            (s, gpu_refusal (negsuc 102), none),
            rw (label, twice) refl,
            refuses (negsuc 102) refl (duplicate twice) refl refl,
          )
          | inr once ↦
              let b = check_bindings c master floats s req env in
              elim (Bool-cases b.1) [
                | inl admitted ↦
                    rw (label, once, admitted) (process_gpus_lem s req env b.0 label small readings)
                | inr out ↦ (
                  (record s { bindings = b.0 }, gpu_refusal (negsuc 12), none),
                  rw (label, once, out) refl,
                  refuses (negsuc 12) refl (unbound out) refl refl,
                )
              ]
        ]
        | inr other ↦ (
          (s, gpu_refusal (negsuc 101), none),
          rw other refl,
          refuses (negsuc 101) refl (bad_label other) refl refl,
        )
      ]
