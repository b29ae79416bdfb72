-- ===== src/Merkle/Records.antt =====
-- The root of a tree commits to the records it is built from.
use vpma.Prelude.{
  ℕ, ◌^◌, ◌<◌, ◌≡◌, refl, ◌⊎◌, inl, inr, some, List, [], ◌∷◌, ◌++◌, map, Mem, All-split,
  All-members, arith, length, length-map, All,
}
use vpma.Crypto.{Crypto, Collision}
use vpma.Encoding.{encode_leaf}
use vpma.Encoding.Domains.{encode_leaf-injective}
use vpma.Encoding.Fields.{Fields, encode-injective}
use vpma.Merkle.{EnergyRecord, MerkleTree, to_bytes, hash_leaf, done, build}
use vpma.Merkle.Binding.{AreDigests, sha256-cancel, leaves_bound_by_root}
use vpma.Merkle.Levels.{root_inputs}
use vpma.Merkle.Root.{leaves_of, build-compute_root_from_leaves}

-- The machine types of the fields, and texts shorter than 2^32 bytes.
pub record InRange (r : EnergyRecord) : Type 0 where
  pub pid_fits : r.pid < 2 ^ 32
  pub cpu_fits : r.cpu_time < 2 ^ 64
  pub energy_fits : r.energy_joules < 2 ^ 64
  pub power_fits : r.power_watts < 2 ^ 64
  pub vm_name_fits : length r.vm_name < 2 ^ 32
  pub timestamp_fits : length r.timestamp < 2 ^ 32

fields : (r : EnergyRecord) → InRange r → Fields
fields r h = record {
  pid = r.pid;
  cpu_bits = r.cpu_time;
  energy_bits = r.energy_joules;
  power_bits = r.power_watts;
  vm_name = r.vm_name;
  timestamp = r.timestamp;
  pid_fits = h.pid_fits;
  cpu_fits = h.cpu_fits;
  energy_fits = h.energy_fits;
  power_fits = h.power_fits;
  vm_name_fits = h.vm_name_fits;
  timestamp_fits = h.timestamp_fits;
}

pub to_bytes-injective :
    (a b : EnergyRecord) → InRange a → InRange b → to_bytes a ≡ to_bytes b → a ≡ b
unfolding to_bytes fields
to_bytes-injective a b p q e =
    let s = encode-injective (fields a p) (fields b q) e in ground (arith, s)

module _ (c : Crypto) where
  AreDigests-leaves_of : (rs : List EnergyRecord) → AreDigests (leaves_of c rs)
  unfolding hash_leaf
  AreDigests-leaves_of [] = tt
  AreDigests-leaves_of (r ∷ rs) =
      (c.length-sha256 (encode_leaf (to_bytes r)), AreDigests-leaves_of rs)

  -- Everything that is hashed for the tree of some records.
  abbrev pub tree_inputs : List EnergyRecord → List (List ℕ)
  tree_inputs rs =
      map (λ (r : EnergyRecord). encode_leaf (to_bytes r)) rs ++ root_inputs c (leaves_of c rs)

module _ (c : Crypto) (In : List ℕ → Type 0) where
  leaves-cancel :
      (xs ys : List EnergyRecord)
      → All InRange xs
      → All InRange ys
      → All In (map (λ (r : EnergyRecord). encode_leaf (to_bytes r)) xs)
      → All In (map (λ (r : EnergyRecord). encode_leaf (to_bytes r)) ys)
      → leaves_of c xs ≡ leaves_of c ys
      → (xs ≡ ys) ⊎ Collision c In
  unfolding hash_leaf
  leaves-cancel [] [] p q i j e = inl refl
  leaves-cancel [] (y ∷ ys) p q i j e = cc
  leaves-cancel (x ∷ xs) [] p q i j e = cc
  leaves-cancel (x ∷ xs) (y ∷ ys) p q i j e =
      elim (sha256-cancel c In (encode_leaf (to_bytes x)) (encode_leaf (to_bytes y)) i.0 j.0 (cc)) [
        | inr k ↦ inr k
        | inl s ↦ elim (leaves-cancel xs ys p.1 q.1 i.1 j.1 (cc)) [
          | inr k ↦ inr k
          | inl t ↦
              let same = encode_leaf-injective (to_bytes x) (to_bytes y) s in
              inl (cc (to_bytes-injective x y p.0 q.0 same, t))
        ]
      ]

  pub records-cancel :
      (xs ys : List EnergyRecord) (s t : MerkleTree) (root : List ℕ)
      → length xs < 2 ^ 64
      → length ys < 2 ^ 64
      → All InRange xs
      → All InRange ys
      → All In (tree_inputs c xs)
      → All In (tree_inputs c ys)
      → build c xs ≡ done s
      → build c ys ≡ done t
      → s.root ≡ some root
      → t.root ≡ some root
      → (xs ≡ ys) ⊎ Collision c In
  records-cancel xs ys s t root u v p q i j ex ey hs ht =
      let (s', bs, ls, ns, rs) = build-compute_root_from_leaves c xs in
      let (t', bt, lt, nt, rt) = build-compute_root_from_leaves c ys in
      let f = λ (x : EnergyRecord). hash_leaf c (to_bytes x) in
      let (ix, ix') = All-split In (map (λ (r : EnergyRecord). encode_leaf (to_bytes r)) xs) _ i in
      let (iy, iy') = All-split In (map (λ (r : EnergyRecord). encode_leaf (to_bytes r)) ys) _ j in
      elim (leaves_bound_by_root c In (leaves_of c xs) (leaves_of c ys) root
        (omega (arith, length-map f xs)) (omega (arith, length-map f ys))
        (AreDigests-leaves_of c xs) (AreDigests-leaves_of c ys) ix' iy' (cc) (cc)) [
          | inr k ↦ inr k
          | inl e ↦ leaves-cancel xs ys p q ix iy e
        ]

-- Two lists of records in range (fields of their machine types, texts shorter than 2^32 bytes,
-- fewer than 2^64 records), whose trees both have a root and have the same one, are the same list,
-- or two different ones of the inputs that are hashed for these two trees have one hash.
pub records_bound_by_root :
    (c : Crypto) (xs ys : List EnergyRecord) (s t : MerkleTree) (root : List ℕ)
    → length xs < 2 ^ 64
    → length ys < 2 ^ 64
    → All InRange xs
    → All InRange ys
    → build c xs ≡ done s
    → build c ys ≡ done t
    → s.root ≡ some root
    → t.root ≡ some root
    → (xs ≡ ys) ⊎ Collision c (λ x. Mem x (tree_inputs c xs ++ tree_inputs c ys))
records_bound_by_root c xs ys s t root u v p q ex ey hs ht =
    let (i, j) =
      All-split _ (tree_inputs c xs) (tree_inputs c ys)
        (All-members _ (tree_inputs c xs ++ tree_inputs c ys) (λ x m. m)) in
    records-cancel c _ xs ys s t root u v p q i j ex ey hs ht
