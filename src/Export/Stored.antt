-- ===== src/Export/Stored.antt =====
-- The blocks that are stored form one chain, whatever the store answers.
use vpma.Prelude.{
  ℕ, ◌+◌, ◌%◌, ◌^◌, ◌≡◌, refl, ap, subst, ◌∙◌, inl, inr, true, not, Option, none, some, List, [],
  ◌++◌, ◌==◌, if◌then◌else◌, pos, length, Bool-cases,
}
use vpma.Crypto.{Crypto}
use vpma.Merkle.{done, ◌>>=◌}
use vpma.Attribution.Total.{sum}
use vpma.Blockchain.{Block, valid, verify_block}
use vpma.Blockchain.Calls.{new_block_lem}
use vpma.Export.{
  Guest, DbExportReq, Surroundings, Handled, Floats, Bucket, record_of, seal_batch, gather,
  batch_size, resume_state,
}
use vpma.Export.Shares.{energy_of, record_loop_lem}

-- The state as it stands when a batch is sealed.
abbrev resumed : Guest → Surroundings → Guest
resumed s env = if not s.state_initialized then resume_state s env.latest_block else s

module _ (c : Crypto) where
  -- What a call does to the chain: nothing is stored and the chain stays, or a good block that
  -- links to it is stored and the chain moves on to that block.
  pub data Stores (s s' : Guest) (o : Option Block) : Type 0 where
    stays :
        o ≡ none
        → s'.block_number ≡ s.block_number
        → s'.latest_chained_root ≡ s.latest_chained_root
        → Stores s s' o
    moves :
        (b : Block)
        → o ≡ some b
        → verify_block c b ≡ done valid
        → b.prev_chained_root ≡ s.latest_chained_root
        → b.block_number ≡ s.block_number
        → s'.latest_chained_root ≡ b.chained_root
        → s'.block_number ≡ (s.block_number + 1) % 2 ^ 64
        → Stores s s' o

  pub Stores-same :
      (s t s' : Guest) (o : Option Block)
      → t.block_number ≡ s.block_number
      → t.latest_chained_root ≡ s.latest_chained_root
      → Stores t s' o
      → Stores s s' o
  Stores-same s t s' o n r (stays e number root) = stays e (number ∙ n) (root ∙ r)
  Stores-same s t s' o n r (moves b e good link at root number) =
      moves b e good (link ∙ r) (at ∙ n) root (number ∙ ap (λ k. (k + 1) % 2 ^ 64) n)

module _ (c : Crypto) (master : List ℕ) (floats : Floats) where
  seal_batch_lem :
      (s : Guest) (req : DbExportReq) (env : Surroundings)
      → (r : Guest × Option Block) × (seal_batch c master floats s req env ≡ done r)
        × Stores c (resumed s env) r.0 r.1
        × (r.0.state_initialized ≡ (resumed s env).state_initialized)
  unfolding seal_batch
  seal_batch_lem s req env =
      let t = resumed s env in
      let (b, made, good, links, number, holds) =
        new_block_lem c t.block_number req.vm_name t.latest_chained_root t.accumulated_records
          env.timestamp in
      elim (Bool-cases env.insert_succeeds) [
        | inl put ↦ (
          (
            record t {
              block_number = (t.block_number + 1) % 2 ^ 64;
              latest_chained_root = b.chained_root;
              iteration_count = 0;
              accumulated_records = [];
            },
            some b,
          ),
          rw (made, ◌>>=◌, put) refl,
          moves b refl good links number refl refl,
          refl,
        )
        | inr lost ↦ (
          (record t { iteration_count = 0; accumulated_records = [] }, none),
          rw (made, ◌>>=◌, lost) refl,
          stays refl refl refl,
          refl,
        )
      ]

  -- With a share for each bucket the cycle ends without a panic, and its output has the energy of
  -- the shares.
  pub gather_lem :
      (s : Guest) (req : DbExportReq) (env : Surroundings) (buckets : List Bucket) (shares : List ℕ)
      → length shares ≡ length buckets
      → (h : Handled) × (gather c master floats s req env buckets shares ≡ done h)
        × (results : List (ℕ × ℕ)) × (h.1 ≡ record { status = pos 0; output_data = some results })
        × (energy_of results ≡ sum shares)
        × (s.state_initialized ≡ true → Stores c s h.0 h.2 × (h.0.state_initialized ≡ true))
  unfolding gather
  gather_lem s req env buckets shares size =
      let (made, looped, total, _) =
        record_loop_lem c master floats (record_of c master floats s req env) buckets shares size in
      let t : Guest = record s {
        prev_cycle_at = some env.now;
        accumulated_records = s.accumulated_records ++ made.1;
        iteration_count = (s.iteration_count + 1) % 2 ^ 64;
      } in
      elim (Bool-cases (t.iteration_count == batch_size)) [
        | inl full ↦
            let (r, sealed, stored, init) = seal_batch_lem t req env in
            (
              (r.0, record { status = pos 0; output_data = some made.0 }, r.1),
              rw (looped, ◌>>=◌, full, sealed, ◌>>=◌) refl,
              made.0,
              refl,
              total,
              λ on.
                  let same : resumed t env ≡ t = (rw on refl) in
                  (
                    Stores-same c s t r.0 r.1 refl refl
                        (subst (λ u. Stores c u r.0 r.1) same stored),
                    init ∙ (ap (λ (u : Guest). u.state_initialized) same ∙ on),
                  ),
            )
        | inr room ↦ (
          (t, record { status = pos 0; output_data = some made.0 }, none),
          rw (looped, ◌>>=◌, room, ◌>>=◌) refl,
          made.0,
          refl,
          total,
          λ on. (stays refl refl refl, on),
        )
      ]
