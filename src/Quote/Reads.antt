-- ===== src/Quote/Reads.antt =====
-- What the reads make sure of: none panics where its guard holds.
use vpma.Prelude.{
  ℕ, zero, suc, ◌+◌, ◌-◌, ◌*◌, ◌≤◌, ◌<◌, ◌≡◌, refl, sym, ap, subst, ◌∙◌, inl, inr, Bool, true,
  false, ◌||◌, Option, none, some, List, [], ◌∷◌, arith, length, length-take, length-drop, take,
  drop, ltb, leb, Bool-cases,
}
use vpma.Quote.{
  Checked, ok, refuse, panics, ◌>>=◌, QuoteError, require, or_refuse, at, slice, read_u16_be,
  u16_at, u32_at, read_u32_be, advance_within,
}

-- The function does not panic, and what it returns has the property.
abbrev pub Ensures {ℓ} : {A : Type ℓ} → (A → Type 0) → Checked A → Type 0
Ensures P (ok a) = P a
Ensures P (refuse e) = Unit
Ensures P panics = ⊥

pub Ensures-then {ℓ κ} :
    {A : Type ℓ} {B : Type κ} {P : A → Type 0} (Q : B → Type 0) (m : Checked A) (f : A → Checked B)
    → Ensures P m
    → ((a : A) → P a → Ensures Q (f a))
    → Ensures Q (m >>= f)
Ensures-then Q (ok a) f h k = k a h
Ensures-then Q (refuse e) f h k = tt
Ensures-then Q panics f h k = absurd h

pub Ensures-map {ℓ} :
    {A : Type ℓ} {P Q : A → Type 0} (m : Checked A)
    → Ensures P m
    → ((a : A) → P a → Q a)
    → Ensures Q m
Ensures-map (ok a) h k = k a h
Ensures-map (refuse e) h k = tt
Ensures-map panics h k = absurd h

pub require_lem : (b : Bool) (e : QuoteError) → Ensures (λ u. b ≡ true) (require b e)
unfolding require
require_lem true e = refl
require_lem false e = tt

pub or_refuse_lem : (o : Option ℕ) (e : QuoteError) → Ensures (λ v. o ≡ some v) (or_refuse o e)
unfolding or_refuse
or_refuse_lem (some v) e = refl
or_refuse_lem none e = tt

-- The byte at a place.
abbrev pub ByteAt : List ℕ → ℕ → ℕ → Type 0
ByteAt [] i b = ⊥
ByteAt (x ∷ xs) zero b = b ≡ x
ByteAt (x ∷ xs) (suc i) b = ByteAt xs i b

pub at_lem : (buf : List ℕ) (i : ℕ) → i < length buf → Ensures (ByteAt buf i) (at buf i)
unfolding at
at_lem [] i l = absurd (omega (arith, l))
at_lem (b ∷ bs) zero l = refl
at_lem (b ∷ bs) (suc i) l = at_lem bs i (omega (arith, l))

-- A number stands at a place, high byte first.
abbrev pub U16At : List ℕ → ℕ → ℕ → Type 0
U16At buf off v =
    (hi : ℕ) × (lo : ℕ) × ByteAt buf off hi × ByteAt buf (off + 1) lo × (v ≡ hi * 256 + lo)

abbrev pub U32At : List ℕ → ℕ → ℕ → Type 0
U32At buf off v =
    (b0 : ℕ) × (b1 : ℕ) × (b2 : ℕ) × (b3 : ℕ) × ByteAt buf off b0
    × ByteAt buf (off + 1) b1
    × ByteAt buf (off + 2) b2
    × ByteAt buf (off + 3) b3
    × (v ≡ b0 * 16777216 + b1 * 65536 + b2 * 256 + b3)

pub u16_at_lem :
    (buf : List ℕ) (off : ℕ) → off + 2 ≤ length buf → Ensures (U16At buf off) (u16_at buf off)
unfolding u16_at
u16_at_lem buf off l =
    Ensures-then _ (at buf off) _ (at_lem buf off (omega (arith, l))) (λ hi is_hi.
      Ensures-then _ (at buf (off + 1)) _ (at_lem buf (off + 1) (omega (arith, l)))
        (λ lo is_lo. (hi, lo, is_hi, is_lo, refl)))

pub u32_at_lem :
    (buf : List ℕ) (off : ℕ) → off + 4 ≤ length buf → Ensures (U32At buf off) (u32_at buf off)
unfolding u32_at
u32_at_lem buf off l =
    Ensures-then _ (at buf off) _ (at_lem buf off (omega (arith, l))) (λ b0 is_b0.
      Ensures-then _ (at buf (off + 1)) _ (at_lem buf (off + 1) (omega (arith, l))) (λ b1 is_b1.
        Ensures-then _ (at buf (off + 2)) _ (at_lem buf (off + 2) (omega (arith, l))) (λ b2 is_b2.
          Ensures-then _ (at buf (off + 3)) _ (at_lem buf (off + 3) (omega (arith, l)))
            (λ b3 is_b3. (b0, b1, b2, b3, is_b0, is_b1, is_b2, is_b3, refl)))))

abbrev pub bytes_at : List ℕ → ℕ → ℕ → List ℕ
bytes_at buf off n = take n (drop off buf)

pub slice_lem :
    (buf : List ℕ) (off n : ℕ)
    → off + n ≤ length buf
    → Ensures (λ s. (s ≡ bytes_at buf off n) × (length s ≡ n)) (slice buf off (off + n))
unfolding slice
slice_lem buf off n l =
    let t : leb off (off + n) ≡ true = ground arith in
    let u : leb (off + n) (length buf) ≡ true = ground (arith, l) in
    let e : off + n - off ≡ n = omega arith in
    rw (t, u)
      (
        ap (λ k. take k (drop off buf)) e,
        ap (λ k. length (take k (drop off buf))) e
            ∙ omega (arith, length-take n (drop off buf), length-drop off buf, l),
      )

pub advance_within_lem :
    (off by_bytes len v : ℕ)
    → advance_within off by_bytes len ≡ some v
    → (v ≡ off + by_bytes) × (v ≤ len)
unfolding advance_within
advance_within_lem off by_bytes len v h = ground (arith, h)

pub read_u16_be_lem :
    (buf : List ℕ) (off : ℕ)
    → Ensures
        (λ r. (v : ℕ) → r ≡ some v → (off + 2 ≤ length buf) × U16At buf off v)
        (read_u16_be buf off)
unfolding read_u16_be
read_u16_be_lem buf off = elim (Bool-cases (ltb (length buf) off || ltb (length buf - off) 2)) [
  | inl out ↦ rw out (λ v e. absurd cc)
  | inr within ↦
      let l : off + 2 ≤ length buf = ground (arith, within) in
      rw within (
        Ensures-then _ (at buf off) _ (at_lem buf off (omega (arith, l))) (λ hi is_hi.
          Ensures-then _ (at buf (off + 1)) _ (at_lem buf (off + 1) (omega (arith, l))) (λ lo is_lo.
            λ v e. let same : hi * 256 + lo ≡ v = cc in (l, (hi, lo, is_hi, is_lo, sym same)))))
]

pub read_u32_be_lem :
    (buf : List ℕ) (off : ℕ)
    → Ensures
        (λ r. (v : ℕ) → r ≡ some v → (off + 4 ≤ length buf) × U32At buf off v)
        (read_u32_be buf off)
unfolding read_u32_be
read_u32_be_lem buf off = elim (Bool-cases (ltb (length buf) off || ltb (length buf - off) 4)) [
  | inl out ↦ rw out (λ v e. absurd cc)
  | inr within ↦
      let l : off + 4 ≤ length buf = ground (arith, within) in
      rw within (
        Ensures-then _ (u32_at buf off) _ (u32_at_lem buf off l)
          (λ n is_n. λ v e. let same : n ≡ v = cc in (l, subst (U32At buf off) same is_n)))
]
