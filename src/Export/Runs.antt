-- ===== src/Export/Runs.antt =====
-- The blocks that a run of calls of `handle_db_export` stores.
use vpma.Prelude.{
  inl, inr, ℕ, ◌+◌, ◌^◌, ◌≤◌, ◌<◌, ◌≡◌, refl, sym, ap, ap₂, ◌∙◌, true, Option, none, some, List, [],
  ◌∷◌, arith, length, All,
}
use vpma.Crypto.{Crypto}
use vpma.Merkle.{Outcome, done, ◌>>=◌}
use vpma.Blockchain.{Block, chain_valid, verify_loop}
use vpma.Blockchain.Made.{verify_loop_link}
use vpma.Export.{Guest, DbExportReq, Surroundings, Handled, Floats, handle_db_export}
use vpma.Export.Stored.{Stores, stays, moves}
use vpma.Export.Calls.{AreU64, Answer, refuses, attributes, handle_db_export_lem}

abbrev pub Call : Type 0
Call = DbExportReq × Surroundings

abbrev pub with_stored : Option Block → List Block → List Block
with_stored none bs = bs
with_stored (some b) bs = b ∷ bs

-- The calls of one run in turn: the last state and the blocks stored.
unfoldable pub run_exports :
    Crypto → List ℕ → Floats → Guest → List Call → Outcome (Guest × List Block)
run_exports c master floats s [] = done (s, [])
run_exports c master floats s (call ∷ calls) = do
  h ← handle_db_export c master floats s call.0 call.1
  rest ← run_exports c master floats h.0 calls
  done (rest.0, with_stored h.2 rest.1)

module _ (c : Crypto) where
  -- A list of blocks is a good chain from a number and a root on, which ends at the state.
  abbrev pub IsChain : ℕ → List ℕ → List Block → Guest → Type 0
  IsChain n root bs s =
      (verify_loop c n root bs ≡ done (chain_valid s.block_number))
      × (s.block_number ≡ n + length bs)

  pub stored-IsChain :
      (s t : Guest) (o : Option Block) (bs : List Block) (s' : Guest)
      → s.block_number + 1 < 2 ^ 64
      → Stores c s t o
      → IsChain t.block_number t.latest_chained_root bs s'
      → IsChain s.block_number s.latest_chained_root (with_stored o bs) s'
  stored-IsChain s t o bs s' small (stays e number root) (chained, count) =
      rw (e, with_stored) (rw (← number, ← root) chained, count ∙ ap (λ n. n + length bs) number)
  stored-IsChain s t o bs s' small (moves b e good at number root next) (chained, count) =
      let next' : t.block_number ≡ s.block_number + 1 = omega (arith, next, small) in
      rw (e, with_stored)
        (
          verify_loop_link c _ _ b bs good at number
              ∙ (ap₂ (λ n r. verify_loop c n r bs) (sym next') (sym root) ∙ chained),
          omega (arith, count, next'),
        )

  pub stored_at_most :
      (s t : Guest) (o : Option Block)
      → s.block_number + 1 < 2 ^ 64
      → Stores c s t o
      → t.block_number ≤ s.block_number + 1
  stored_at_most s t o small (stays e number root) = omega (arith, number)
  stored_at_most s t o small (moves b e good at number root next) = omega (arith, next, small)

module _ (c : Crypto) (master : List ℕ) (floats : Floats) where
  Answer-Stores :
      (s : Guest) (req : DbExportReq) (h : Handled)
      → s.state_initialized ≡ true
      → Answer c master floats s req h
      → Stores c s h.0 h.2 × (h.0.state_initialized ≡ true)
  Answer-Stores s req h on (refuses code e why none_stored same) = (
    stays none_stored (ap (λ (u : Guest). u.block_number) same)
        (ap (λ (u : Guest). u.latest_chained_root) same),
    ap (λ (u : Guest). u.state_initialized) same ∙ on,
  )
  Answer-Stores s req h on (attributes results e total (inl off)) = absurd cc
  Answer-Stores s req h on (attributes results e total (inr stored)) = stored

  -- From a guest whose state is initialized, whatever is requested and found, and whether or not blocks can be inserted: as long as
  -- the block numbers stay below 2^64, the calls end without a panic, and the blocks that
  -- they insert with success are one good chain from the number and root at the start to those at the end.
  pub run_exports_lem :
      (s : Guest) (calls : List Call)
      → s.state_initialized ≡ true
      → s.block_number + length calls < 2 ^ 64
      → All (λ call. AreU64 call.0) calls
      → (r : Guest × List Block) × (run_exports c master floats s calls ≡ done r)
        × (verify_loop c s.block_number s.latest_chained_root r.1
            ≡ done (chain_valid r.0.block_number))
        × (r.0.block_number ≡ s.block_number + length r.1)
  unfolding run_exports
  run_exports_lem s [] on room small = ((s, []), refl, unfold verify_loop in refl, omega arith)
  run_exports_lem s (call ∷ calls) on room small =
      let (h, handled, answer) = handle_db_export_lem c master floats s call.0 call.1 small.0 in
      let (stored, still) = Answer-Stores s call.0 h on answer in
      let room_here : s.block_number + 1 < 2 ^ 64 = omega (arith, room) in
      let most = stored_at_most c s h.0 h.2 room_here stored in
      let (r, ran, chained, count) =
        run_exports_lem h.0 calls still (omega (arith, room, most)) small.1 in
      let grown = stored-IsChain c s h.0 h.2 r.1 r.0 room_here stored (chained, count) in
      ((r.0, with_stored h.2 r.1), rw (handled, ◌>>=◌, ran, ◌>>=◌) refl, grown.0, grown.1)
