-- ===== src/Sealed/Storage.antt =====
-- What is saved is loaded again, and what is loaded was sealed with the key.
use vpma.Prelude.{
  ℕ, zero, suc, ◌+◌, ◌^◌, ◌<◌, ◌≡◌, refl, sym, ap, ◌∙◌, inl, inr, Bool, true, false, Option, none,
  some, List, [], ◌∷◌, ◌++◌, arith, ltb, ◌===◌, ===-refl, ===_iff, ==_iff, ◌↔◌, length, take, drop,
  length-append, take-length-append, take-append-drop, Bool-cases, Option-cases,
}
use vpma.Crypto.{Crypto}
use vpma.Encoding.{spec_u64_le}
use vpma.Encoding.Words.{from_le, from_le-spec_u64_le, length-spec_u64_le}
use vpma.Sealed.{
  Checkpoint, checkpoint_bytes, invalid_data, tampering_detected, Loaded, loaded, load_failed,
  valid, no_checkpoint, load_error, written, from_bytes, save, parsed, open_sealed, load,
  compare_with_db, verify_against_db,
}

-- The ranges of the machine types.
pub record Fits (cp : Checkpoint) : Type 0 where
  pub root_fits : length cp.latest_chained_root ≡ 32
  pub count_fits : cp.block_count < 2 ^ 64
  pub time_fits : cp.last_updated < 2 ^ 64

drop_past : (xs ys : List ℕ) (k j : ℕ) → k ≡ length xs + j → drop k (xs ++ ys) ≡ drop j ys
drop_past [] ys k j e = ap (λ n. drop n ys) {x = k} {y = j} (omega (arith, e))
drop_past (x ∷ xs) ys zero j e = absurd (omega (arith, e))
drop_past (x ∷ xs) ys (suc k) j e = drop_past xs ys k j (omega (arith, e))

take_all : (xs ys : List ℕ) (k : ℕ) → k ≡ length xs → take k (xs ++ ys) ≡ xs
take_all xs ys k e = ap (λ n. take n (xs ++ ys)) e ∙ take-length-append xs ys

from_bytes-checkpoint_bytes :
    (utf8_lossy : List ℕ → List ℕ) (cp : Checkpoint)
    → Fits cp
    → utf8_lossy cp.vm_name ≡ cp.vm_name
    → from_bytes utf8_lossy (checkpoint_bytes cp) ≡ some cp
unfolding from_bytes checkpoint_bytes
from_bytes-checkpoint_bytes utf8_lossy cp f text =
    let r = cp.latest_chained_root in
    let a = spec_u64_le cp.block_count in
    let t = spec_u64_le cp.last_updated in
    let n = cp.vm_name in
    let la : length a ≡ 8 = length-spec_u64_le cp.block_count in
    let lt : length t ≡ 8 = length-spec_u64_le cp.last_updated in
    let root : take 32 (r ++ (a ++ (t ++ n))) ≡ r = take_all r _ 32 (sym f.root_fits) in
    let count : take 8 (drop 32 (r ++ (a ++ (t ++ n)))) ≡ a =
      ap (take 8) (drop_past r (a ++ (t ++ n)) 32 0 (omega (arith, f.root_fits)))
      ∙ take_all a (t ++ n) 8 (sym la) in
    let time : take 8 (drop 40 (r ++ (a ++ (t ++ n)))) ≡ t =
      ap (take 8) (
        drop_past r (a ++ (t ++ n)) 40 8 (omega (arith, f.root_fits))
        ∙ drop_past a (t ++ n) 8 0 (omega (arith, la)))
      ∙ take_all t n 8 (sym lt) in
    let name : drop 48 (r ++ (a ++ (t ++ n))) ≡ n =
      drop_past r (a ++ (t ++ n)) 48 16 (omega (arith, f.root_fits))
      ∙ (drop_past a (t ++ n) 16 8 (omega (arith, la)) ∙ drop_past t n 8 0 (omega (arith, lt))) in
    let long : ltb (length (r ++ (a ++ (t ++ n)))) 48 ≡ false = ground (
      arith,
      f.root_fits,
      la,
      lt,
      length-append r (a ++ (t ++ n)),
      length-append a (t ++ n),
      length-append t n,
    ) in
    rw long (
      ap some (λ i. record {
        latest_chained_root = root i;
        block_count = (ap from_le count ∙ from_le-spec_u64_le cp.block_count f.count_fits) i;
        vm_name = (ap utf8_lossy name ∙ text) i;
        last_updated = (ap from_le time ∙ from_le-spec_u64_le cp.last_updated f.time_fits) i;
      }))

module _ (c : Crypto) (utf8_lossy : List ℕ → List ℕ) (seal_key : List ℕ) where
  -- A checkpoint in range, whose name is valid UTF-8 and so unchanged by the lossy conversion, is
  -- loaded as it was saved, if the file was written and can be read.
  pub load-save :
      (cp : Checkpoint)
      → Fits cp
      → utf8_lossy cp.vm_name ≡ cp.vm_name
      → load c utf8_lossy seal_key (save c utf8_lossy seal_key cp written).0 true ≡ loaded (some cp)
  unfolding load save open_sealed parsed
  load-save cp f text =
      let plain = checkpoint_bytes cp in
      let mac = c.hmac seal_key plain in
      let size : length mac ≡ 32 = c.length-hmac seal_key plain in
      let long : ltb (length (mac ++ plain)) 32 ≡ false =
        ground (arith, size, length-append mac plain) in
      rw
        (
          long,
          take_all mac plain 32 (sym size),
          drop_past mac plain 32 0 (omega (arith, size)),
          ===-refl mac,
          from_bytes-checkpoint_bytes utf8_lossy cp f text,
        )
        refl

  -- A checkpoint that is loaded from a file was sealed: the file is a MAC, made with the seal key
  -- over the rest of the file, and that rest, which parses to the checkpoint.
  pub load_sealed :
      (file : Option (List ℕ)) (readable : Bool) (cp : Checkpoint)
      → load c utf8_lossy seal_key file readable ≡ loaded (some cp)
      → (plain : List ℕ) × (file ≡ some (c.hmac seal_key plain ++ plain))
        × (from_bytes utf8_lossy plain ≡ some cp)
  unfolding load
  load_sealed none readable cp h = absurd cc
  load_sealed (some sealed) false cp h = absurd cc
  load_sealed (some sealed) true cp h =
      let o : open_sealed c utf8_lossy seal_key sealed ≡ loaded (some cp) = h in
      elim (Bool-cases (ltb (length sealed) 32)) [
        | inl short ↦
            let bad : load_failed invalid_data ≡ loaded (some cp) =
              (unfold open_sealed in rw short at o) in
            absurd cc
        | inr long ↦ elim (Bool-cases (take 32 sealed === c.hmac seal_key (drop 32 sealed))) [
          | inl same ↦ (
            drop 32 sealed,
            ap some (
                sym (take-append-drop 32 sealed)
                ∙ ap (λ m. m ++ drop 32 sealed) ((===_iff _ _).0 same)),
            elim (Option-cases (from_bytes utf8_lossy (drop 32 sealed))) [
              | inl e ↦
                  let bad : load_failed invalid_data ≡ loaded (some cp) =
                    (unfold open_sealed parsed in rw (long, same, e) at o) in
                  absurd cc
              | inr (cp', e) ↦
                  let same_cp : loaded (some cp') ≡ loaded (some cp) =
                    (unfold open_sealed parsed in rw (long, same, e) at o) in
                  e ∙ cc
            ],
          )
          | inr other ↦
              let bad : load_failed tampering_detected ≡ loaded (some cp) =
                (unfold open_sealed in rw (long, other) at o) in
              absurd cc
        ]
      ]

  matching :
      (cp : Checkpoint) (n : ℕ) (root : List ℕ)
      → compare_with_db c utf8_lossy seal_key (loaded (some cp)) n root ≡ valid
      → (n ≡ cp.block_count) × (root ≡ c.hex_encode cp.latest_chained_root)
  unfolding compare_with_db
  matching cp n root h =
      (ground arith, ground (arith, (===_iff root (c.hex_encode cp.latest_chained_root)).0))

  -- The comparison with the database succeeds exactly where a checkpoint is loaded, its block count
  -- is the database's and the hex text of its root is the database's.
  pub verify_against_db_iff :
      (file : Option (List ℕ)) (readable : Bool) (db_block_count : ℕ) (db_latest_root : List ℕ)
      → (verify_against_db c utf8_lossy seal_key file readable db_block_count db_latest_root
          ≡ valid)
        ↔ ((cp : Checkpoint) × (load c utf8_lossy seal_key file readable ≡ loaded (some cp))
            × (db_block_count ≡ cp.block_count)
            × (db_latest_root ≡ c.hex_encode cp.latest_chained_root))
  unfolding verify_against_db
  verify_against_db_iff file readable n root = (
    λ h. compared _ refl h,
    λ h. rw h.1 (
        unfold compare_with_db in
        rw
          (
            (==_iff n h.0.block_count).1 h.2,
            (===_iff root (c.hex_encode h.0.latest_chained_root)).1 h.3,
          )
          refl),
  )
    where
      compared :
          (l : Loaded)
          → load c utf8_lossy seal_key file readable ≡ l
          → compare_with_db c utf8_lossy seal_key l n root ≡ valid
          → (cp : Checkpoint) × (load c utf8_lossy seal_key file readable ≡ loaded (some cp))
            × (n ≡ cp.block_count)
            × (root ≡ c.hex_encode cp.latest_chained_root)
      compared (load_failed e) l h =
          let bad : load_error e ≡ valid = (unfold compare_with_db in h) in absurd cc
      compared (loaded none) l h =
          let bad : no_checkpoint ≡ valid = (unfold compare_with_db in h) in absurd cc
      compared (loaded (some cp)) l h =
          let (count, same) = matching cp n root h in (cp, l, count, same)
