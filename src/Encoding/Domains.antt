-- ===== src/Encoding/Domains.antt =====
-- The domain bytes keep the inputs of the hash apart, and each encoding determines its parts.
use vpma.Prelude.{ℕ, ◌^◌, ◌<◌, ◌≡◌, ◌≢◌, refl, List, [], ◌∷◌, ◌++◌, length, append-split, All}
use vpma.Encoding.{
  spec_encode_leaf, encode_leaf, spec_encode_internal, encode_internal, spec_encode_root,
  encode_root, spec_encode_chained_root, encode_chained_root, spec_encode_checkpoint_msg,
  encode_checkpoint_msg, anchor_tag_bytes,
}
use vpma.Encoding.Loops.{
  encode_leaf_lem, encode_internal_lem, encode_root_lem, encode_chained_root_lem,
  encode_checkpoint_msg_lem,
}
use vpma.Encoding.Fields.{u64_split}

-- Whatever the contents, no two of a leaf, an internal node, a root and a chained root have the
-- same bytes.
pub domains_disjoint :
    (rec l r sub p m : List ℕ) (n : ℕ)
    → (encode_leaf rec ≢ encode_internal l r)
      × (encode_leaf rec ≢ encode_root n sub)
      × (encode_leaf rec ≢ encode_chained_root p m)
      × (encode_internal l r ≢ encode_root n sub)
      × (encode_internal l r ≢ encode_chained_root p m)
      × (encode_root n sub ≢ encode_chained_root p m)
unfolding spec_encode_leaf spec_encode_internal spec_encode_root spec_encode_chained_root
domains_disjoint rec l r sub p m n =
    rw
      (
        encode_leaf_lem rec,
        encode_internal_lem l r,
        encode_root_lem n sub,
        encode_chained_root_lem p m,
      )
      (λ e. cc, λ e. cc, λ e. cc, λ e. cc, λ e. cc, λ e. cc)

pub encode_leaf-injective : (a b : List ℕ) → encode_leaf a ≡ encode_leaf b → a ≡ b
unfolding spec_encode_leaf
encode_leaf-injective a b e = cc (encode_leaf_lem a, encode_leaf_lem b)

pub encode_internal-injective :
    (a b c d : List ℕ)
    → length a ≡ length c
    → encode_internal a b ≡ encode_internal c d
    → (a ≡ c) × (b ≡ d)
unfolding spec_encode_internal
encode_internal-injective a b c d n e =
    append-split a b c d n (cc (encode_internal_lem a b, encode_internal_lem c d))

pub encode_root-injective :
    (m n : ℕ) (s t : List ℕ)
    → m < 2 ^ 64
    → n < 2 ^ 64
    → encode_root m s ≡ encode_root n t
    → (m ≡ n) × (s ≡ t)
unfolding spec_encode_root
encode_root-injective m n s t p q e =
    u64_split m n s t p q (cc (encode_root_lem m s, encode_root_lem n t))

pub encode_chained_root-injective :
    (a b c d : List ℕ)
    → length a ≡ length c
    → encode_chained_root a b ≡ encode_chained_root c d
    → (a ≡ c) × (b ≡ d)
unfolding spec_encode_chained_root
encode_chained_root-injective a b c d n e =
    append-split a b c d n (cc (encode_chained_root_lem a b, encode_chained_root_lem c d))

-- A text that holds no separator `|`.
abbrev pub NoSep : List ℕ → Type 0
NoSep = All (λ b. b ≢ 0x7C)

-- The first separator is where both texts end.
pub sep_split :
    (a b c d : List ℕ) → NoSep a → NoSep c → a ++ (0x7C ∷ b) ≡ c ++ (0x7C ∷ d) → (a ≡ c) × (b ≡ d)
sep_split [] b [] d p q e = (refl, cc)
sep_split [] b (y ∷ c) d p q e = absurd (q.0 (cc))
sep_split (x ∷ a) b [] d p q e = absurd (p.0 (cc))
sep_split (x ∷ a) b (y ∷ c) d p q e = let ih = sep_split a b c d p.1 q.1 (cc) in (cc (ih.0), ih.1)

-- Checkpoint messages over tenants without `|` and u64 block numbers determine the tenant, the
-- block number and the chained root.
pub encode_checkpoint_msg-injective :
    (t u : List ℕ) (m n : ℕ) (a b : List ℕ)
    → NoSep t
    → NoSep u
    → m < 2 ^ 64
    → n < 2 ^ 64
    → encode_checkpoint_msg t m a ≡ encode_checkpoint_msg u n b
    → (t ≡ u) × (m ≡ n) × (a ≡ b)
unfolding spec_encode_checkpoint_msg
encode_checkpoint_msg-injective t u m n a b p q v w e =
    let e0 =
      append-split (anchor_tag_bytes ++ (0x7C ∷ [])) _ (anchor_tag_bytes ++ (0x7C ∷ [])) _ refl
        (cc (encode_checkpoint_msg_lem t m a, encode_checkpoint_msg_lem u n b)) in
    let s = sep_split t _ u _ p q e0.1 in let r = u64_split m n a b v w s.1 in (s.0, r.0, r.1)
