-- ===== src/Ima/Replay.antt =====
-- The replay of a measurement log against a register.
use vpma.Prelude.{
  ℕ, zero, suc, ◌+◌, ◌-◌, ◌≤◌, ◌<◌, ◌≡◌, ◌≢◌, refl, sym, ap, ◌∙◌, inl, inr, Option, none, some,
  List, [], ◌∷◌, ◌++◌, map, arith, length, take, Bool-cases, Option-cases, length-take, get_or,
  subst, negsuc, ◌==◌,
}
use vpma.Anchor.{trim}
use vpma.Crypto.{Crypto, zero32}
use vpma.Text.{ct_eq_32, hex_decode}
use vpma.Text.Tests.{ct_eq_32_iff}
use vpma.Ima.{
  ImaRecord, AttestedImaPrefix, reconciled, refused, extend_pcr, replay_loop, replay_find_prefix,
  attested_prefix, reconcile_decoded, reconcile_ima_against_pcr10,
}

length-map {ℓ₁ ℓ₂} :
    {A : Type ℓ₁} {B : Type ℓ₂} (f : A → B) (xs : List A) → length (map f xs) ≡ length xs
length-map f [] = refl
length-map f (x ∷ xs) = ap suc (length-map f xs)

map-take {ℓ₁ ℓ₂} :
    {A : Type ℓ₁} {B : Type ℓ₂} (f : A → B) (n : ℕ) (xs : List A)
    → map f (take n xs) ≡ take n (map f xs)
map-take f zero xs = refl
map-take f (suc n) [] = refl
map-take f (suc n) (x ∷ xs) = ap (λ r. f x ∷ r) (map-take f n xs)

module _ (c : Crypto) where
  -- `spec_replay`, from any value of the register and on all the digests.
  abbrev pub replay : List ℕ → List (List ℕ) → List ℕ
  replay pcr [] = pcr
  replay pcr (d ∷ ds) = replay (extend_pcr c pcr d) ds

  -- What the search for a prefix says of the digests: the first prefix whose replay is the target,
  -- or none is.
  abbrev pub FirstPrefix : List ℕ → List (List ℕ) → List ℕ → Option ℕ → Type 0
  FirstPrefix pcr ds target none = (k : ℕ) → k ≤ length ds → replay pcr (take k ds) ≢ target
  FirstPrefix pcr ds target (some n) =
      (n ≤ length ds)
      × (replay pcr (take n ds) ≡ target)
      × ((k : ℕ) → k < n → replay pcr (take k ds) ≢ target)

  -- The same past the empty prefix, with the count of the digests gone before.
  abbrev LaterPrefix : List ℕ → ℕ → List (List ℕ) → List ℕ → Option ℕ → Type 0
  LaterPrefix pcr i ds target none = (k : ℕ) → k < length ds → replay pcr (take (suc k) ds) ≢ target
  LaterPrefix pcr i ds target (some n) =
      (m : ℕ) × (n ≡ i + suc m)
      × (m < length ds)
      × (replay pcr (take (suc m) ds) ≡ target)
      × ((k : ℕ) → k < m → replay pcr (take (suc k) ds) ≢ target)

  later_step :
      (target pcr : List ℕ) (i : ℕ) (d : List ℕ) (ds : List (List ℕ)) (o : Option ℕ)
      → extend_pcr c pcr d ≢ target
      → LaterPrefix (extend_pcr c pcr d) (i + 1) ds target o
      → LaterPrefix pcr i (d ∷ ds) target o
  later_step target pcr i d ds none ne h = before
    where
      before : (k : ℕ) → k < length (d ∷ ds) → replay pcr (take (suc k) (d ∷ ds)) ≢ target
      before zero l = ne
      before (suc k) l = h k (omega (arith, l))
  later_step target pcr i d ds (some n) ne (m, e, l, same, first) =
      (suc m, omega (arith, e), omega (arith, l), same, before)
    where
      before : (k : ℕ) → k < suc m → replay pcr (take (suc k) (d ∷ ds)) ≢ target
      before zero l = ne
      before (suc k) l = first k (omega (arith, l))

  replay_loop_lem :
      (target pcr : List ℕ) (i : ℕ) (ds : List (List ℕ))
      → length target ≡ 32
      → LaterPrefix pcr i ds target (replay_loop c target pcr i ds)
  unfolding replay_loop
  replay_loop_lem target pcr i [] fits = λ k l. absurd (omega (arith, l))
  replay_loop_lem target pcr i (d ∷ ds) fits =
      let same =
        ct_eq_32_iff (extend_pcr c pcr d) target
          (unfold extend_pcr in c.length-sha256 (pcr ++ d) ∙ sym fits) in
      elim (Bool-cases (ct_eq_32 (extend_pcr c pcr d) target)) [
        | inl t ↦ rw t (0, omega arith, omega arith, same.0 t, λ k l. absurd (omega (arith, l)))
        | inr f ↦ rw f (
            later_step target pcr i d ds _ (λ e. cc (f, same.1 e))
              (replay_loop_lem target (extend_pcr c pcr d) (i + 1) ds fits))
      ]

  first_prefix :
      (target : List ℕ) (ds : List (List ℕ)) (o : Option ℕ)
      → zero32 ≢ target
      → LaterPrefix zero32 0 ds target o
      → FirstPrefix zero32 ds target o
  first_prefix target ds none ne h = before
    where
      before : (k : ℕ) → k ≤ length ds → replay zero32 (take k ds) ≢ target
      before zero l = ne
      before (suc k) l = h k (omega (arith, l))
  first_prefix target ds (some n) ne (m, e, l, same, first) = (
    omega (arith, e, l),
    ap (λ k. replay zero32 (take k ds)) {x = n} {y = suc m} (omega (arith, e)) ∙ same,
    before,
  )
    where
      before : (k : ℕ) → k < n → replay zero32 (take k ds) ≢ target
      before zero l = ne
      before (suc k) l = first k (omega (arith, l, e))

  -- For a target of 32 bytes the search returns the length of the shortest prefix of the digests
  -- whose replay from the zero register is the target, and nothing exactly where no prefix's
  -- replay is it.
  pub replay_find_prefix_lem :
      (digests : List (List ℕ)) (target : List ℕ)
      → length target ≡ 32
      → FirstPrefix zero32 digests target (replay_find_prefix c digests target)
  unfolding replay_find_prefix
  replay_find_prefix_lem digests target fits =
      let same = ct_eq_32_iff zero32 target (sym fits) in
      elim (Bool-cases (ct_eq_32 zero32 target)) [
        | inl t ↦ rw t (omega arith, same.0 t, λ k l. absurd (omega (arith, l)))
        | inr f ↦ rw f (
            first_prefix target digests _ (λ e. cc (f, same.1 e))
              (replay_loop_lem target zero32 0 digests fits))
      ]

  -- A prefix of the records, not empty, whose replay is the target, and the end of its last record.
  abbrev pub IsAttested : List ImaRecord → List ℕ → AttestedImaPrefix → Type 0
  IsAttested records target p =
      (p.attested ≡ take (length p.attested) records)
      × (0 < length p.attested)
      × (p.entries_total ≡ length records)
      × (replay zero32 (map (λ r. r.extend_digest) p.attested) ≡ target)
      × (p.attested_bytes ≡ get_or (map (λ r. r.end_offset) records) (length p.attested - 1) 0)

  reconciled_of :
      (records : List ImaRecord) (target : List ℕ) (p : AttestedImaPrefix) (o : Option ℕ)
      → FirstPrefix zero32 (map (λ r. r.extend_digest) records) target o
      → attested_prefix c records o ≡ reconciled p
      → IsAttested records target p
  unfolding attested_prefix
  reconciled_of records target p none f h = absurd cc
  reconciled_of records target p (some zero) f h = absurd cc
  reconciled_of records target p (some (suc n)) (l, same, first) h =
      let size : length (take (suc n) records) ≡ suc n =
        length-take (suc n) records ∙ omega (arith, l, length-map (λ r. r.extend_digest) records) in
      let whole : AttestedImaPrefix = record {
        attested = take (suc n) records;
        entries_total = length records;
        attested_bytes = get_or (map (λ r. r.end_offset) records) n 0;
      } in
      let same_prefix : whole ≡ p = cc in
      subst (IsAttested records target) same_prefix (
        ap (λ k. take k records) (sym size),
        omega (arith, size),
        refl,
        ap (replay zero32) (map-take (λ r. r.extend_digest) (suc n) records) ∙ same,
        ap (λ k. get_or (map (λ r. r.end_offset) records) k 0) (omega (arith, size)),
      )

  decoded_sound :
      (records : List ImaRecord) (target : List ℕ) (p : AttestedImaPrefix)
      → reconcile_decoded c records (some target) ≡ reconciled p
      → (length target ≡ 32) × IsAttested records target p
  unfolding reconcile_decoded
  decoded_sound records target p h = elim (Bool-cases (length target == 32)) [
    | inl t ↦ elim (Bool-cases (length records == 0)) [
      | inl none_there ↦
          let bad : refused (negsuc 0) ≡ reconciled p = (rw (t, none_there) at h) in absurd cc
      | inr some_there ↦
          let size : length target ≡ 32 = ground arith in
          (
            size,
            reconciled_of records target p _ (replay_find_prefix_lem _ target size)
                (rw (t, some_there) at h),
          )
    ]
    | inr f ↦ let bad : refused (negsuc 4) ≡ reconciled p = (rw f at h) in absurd cc
  ]

  -- An accepted log attests a prefix of its records, not empty, and the register whose hex digits
  -- were given has exactly the value of that prefix's replay from zero; the attested bytes end
  -- where the prefix's last record does.
  pub reconcile_ima_against_pcr10_sound :
      (records : List ImaRecord) (pcr10_hex : List ℕ) (p : AttestedImaPrefix)
      → reconcile_ima_against_pcr10 c records pcr10_hex ≡ reconciled p
      → (target : List ℕ) × (hex_decode (trim pcr10_hex) ≡ some target)
        × (length target ≡ 32)
        × IsAttested records target p
  unfolding reconcile_ima_against_pcr10
  reconcile_ima_against_pcr10_sound records pcr10_hex p h =
      elim (Option-cases (hex_decode (trim pcr10_hex))) [
        | inl e ↦
            let bad : refused (negsuc 4) ≡ reconciled p = (unfold reconcile_decoded in rw e at h) in
            absurd cc
        | inr (target, e) ↦
            let (fits, attests) = decoded_sound records target p (rw e at h) in
            (target, e, fits, attests)
      ]
