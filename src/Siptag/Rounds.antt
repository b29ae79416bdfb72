-- ===== src/Siptag/Rounds.antt =====
-- The rounds lose nothing of the state.
use vpma.Prelude.{
  ℕ, ◌+◌, ◌*◌, ◌/◌, ◌%◌, ◌^◌, ◌<◌, ◌≡◌, sym, ap, ◌∙◌, bit_or, bit_xor, arith, bit_or_packed,
  bit_or_comm, bit_xor_comm, bit_xor_cancel, bit_xor-bounded,
}
use vpma.Siptag.{State, wrapping_add, sipround, absorb}

abbrev pub IsWord : ℕ → Type 0
IsWord x = x < 2 ^ 64

-- Four words.
pub record Words (s : State) : Type 0 where
  pub w0 : IsWord s.v0
  pub w1 : IsWord s.v1
  pub w2 : IsWord s.v2
  pub w3 : IsWord s.v3

xor_right_cancel : (a x y : ℕ) → bit_xor x a ≡ bit_xor y a → x ≡ y
xor_right_cancel a x y h = bit_xor_cancel a x y (bit_xor_comm a x ∙ (h ∙ bit_xor_comm y a))

-- `(x << k) | (x >> (64 - k))`, for each of the five distances.
abbrev rotl13 : ℕ → ℕ
rotl13 x = bit_or (x * 2 ^ 13 % 2 ^ 64) (x / 2 ^ 51)

abbrev rotl16 : ℕ → ℕ
rotl16 x = bit_or (x * 2 ^ 16 % 2 ^ 64) (x / 2 ^ 48)

abbrev rotl17 : ℕ → ℕ
rotl17 x = bit_or (x * 2 ^ 17 % 2 ^ 64) (x / 2 ^ 47)

abbrev rotl21 : ℕ → ℕ
rotl21 x = bit_or (x * 2 ^ 21 % 2 ^ 64) (x / 2 ^ 43)

abbrev rotl32 : ℕ → ℕ
rotl32 x = bit_or (x * 2 ^ 32 % 2 ^ 64) (x / 2 ^ 32)

-- A rotation as arithmetic: the high part goes below the low part.
rotl_lem :
    (k j x : ℕ)
    → x * 2 ^ k % 2 ^ 64 ≡ (x % 2 ^ j) * 2 ^ k
    → x / 2 ^ j < 2 ^ k
    → bit_or (x * 2 ^ k % 2 ^ 64) (x / 2 ^ j) ≡ x / 2 ^ j + (x % 2 ^ j) * 2 ^ k
rotl_lem k j x shifted small =
    ap (λ s. bit_or s (x / 2 ^ j)) shifted
    ∙ (bit_or_comm _ _ ∙ bit_or_packed k (x % 2 ^ j) (x / 2 ^ j) small)

rotl13_lem : (x : ℕ) → IsWord x → rotl13 x ≡ x / 2 ^ 51 + (x % 2 ^ 51) * 2 ^ 13
rotl13_lem x w = rotl_lem 13 51 x (omega arith) (omega (arith, w))

rotl13_cancel : (x y : ℕ) → IsWord x → IsWord y → rotl13 x ≡ rotl13 y → x ≡ y
rotl13_cancel x y p q h = omega (arith, h, p, q, rotl13_lem x p, rotl13_lem y q)

rotl16_lem : (x : ℕ) → IsWord x → rotl16 x ≡ x / 2 ^ 48 + (x % 2 ^ 48) * 2 ^ 16
rotl16_lem x w = rotl_lem 16 48 x (omega arith) (omega (arith, w))

rotl16_cancel : (x y : ℕ) → IsWord x → IsWord y → rotl16 x ≡ rotl16 y → x ≡ y
rotl16_cancel x y p q h = omega (arith, h, p, q, rotl16_lem x p, rotl16_lem y q)

rotl17_lem : (x : ℕ) → IsWord x → rotl17 x ≡ x / 2 ^ 47 + (x % 2 ^ 47) * 2 ^ 17
rotl17_lem x w = rotl_lem 17 47 x (omega arith) (omega (arith, w))

rotl17_cancel : (x y : ℕ) → IsWord x → IsWord y → rotl17 x ≡ rotl17 y → x ≡ y
rotl17_cancel x y p q h = omega (arith, h, p, q, rotl17_lem x p, rotl17_lem y q)

rotl21_lem : (x : ℕ) → IsWord x → rotl21 x ≡ x / 2 ^ 43 + (x % 2 ^ 43) * 2 ^ 21
rotl21_lem x w = rotl_lem 21 43 x (omega arith) (omega (arith, w))

rotl21_cancel : (x y : ℕ) → IsWord x → IsWord y → rotl21 x ≡ rotl21 y → x ≡ y
rotl21_cancel x y p q h = omega (arith, h, p, q, rotl21_lem x p, rotl21_lem y q)

rotl32_lem : (x : ℕ) → IsWord x → rotl32 x ≡ x / 2 ^ 32 + (x % 2 ^ 32) * 2 ^ 32
rotl32_lem x w = rotl_lem 32 32 x (omega arith) (omega (arith, w))

rotl32_cancel : (x y : ℕ) → IsWord x → IsWord y → rotl32 x ≡ rotl32 y → x ≡ y
rotl32_cancel x y p q h = omega (arith, h, p, q, rotl32_lem x p, rotl32_lem y q)

add_right_cancel : (a x y : ℕ) → IsWord x → IsWord y → wrapping_add x a ≡ wrapping_add y a → x ≡ y
add_right_cancel a x y p q h = omega (arith, h, p, q)

wrapping_add-IsWord : (a b : ℕ) → IsWord (wrapping_add a b)
wrapping_add-IsWord a b = omega arith

-- A quarter of a round: a sum, and the rotated second word with the sum mixed in.
mix_cancel :
    (rot : ℕ → ℕ)
    → ((x y : ℕ) → IsWord x → IsWord y → rot x ≡ rot y → x ≡ y)
    → (a b a' b' : ℕ) → IsWord a
    → IsWord b
    → IsWord a'
    → IsWord b'
    → wrapping_add a b ≡ wrapping_add a' b'
    → bit_xor (rot b) (wrapping_add a b) ≡ bit_xor (rot b') (wrapping_add a' b')
    → (a ≡ a') × (b ≡ b')
mix_cancel rot cancel a b a' b' wa wb wa' wb' sum mixed =
    let rotated : rot b ≡ rot b' =
      xor_right_cancel (wrapping_add a b) _ _ (mixed ∙ ap (bit_xor (rot b')) (sym sum)) in
    let second : b ≡ b' = cancel b b' wb wb' rotated in
    (add_right_cancel b a a' wa wa' (sum ∙ ap (wrapping_add a') (sym second)), second)

-- The words between the two halves of a round.
abbrev b1_of : State → ℕ
b1_of s = bit_xor (rotl13 s.v1) (wrapping_add s.v0 s.v1)

abbrev b3_of : State → ℕ
b3_of s = bit_xor (rotl16 s.v3) (wrapping_add s.v2 s.v3)

abbrev a0r_of : State → ℕ
a0r_of s = rotl32 (wrapping_add s.v0 s.v1)

halfway-Words : (s : State) → Words s → IsWord (b1_of s) × IsWord (b3_of s) × IsWord (a0r_of s)
halfway-Words s w =
    let r1 : IsWord (rotl13 s.v1) = omega (arith, rotl13_lem s.v1 w.w1, w.w1) in
    let r3 : IsWord (rotl16 s.v3) = omega (arith, rotl16_lem s.v3 w.w3, w.w3) in
    let sum = wrapping_add-IsWord s.v0 s.v1 in
    (
      bit_xor-bounded 64 _ _ r1 sum,
      bit_xor-bounded 64 _ _ r3 (wrapping_add-IsWord s.v2 s.v3),
      omega (arith, rotl32_lem (wrapping_add s.v0 s.v1) sum, sum),
    )

-- A round loses nothing: two states of 64-bit words that it takes to one state are equal.
pub sipround-injective : (s t : State) → Words s → Words t → sipround s ≡ sipround t → s ≡ t
unfolding sipround
sipround-injective s t ws wt h =
    let (b1s, b3s, a0s) = halfway-Words s ws in
    let (b1t, b3t, a0t) = halfway-Words t wt in
    let a2s = wrapping_add-IsWord s.v2 s.v3 in
    let a2t = wrapping_add-IsWord t.v2 t.v3 in
    let c2 =
      rotl32_cancel _ _ (wrapping_add-IsWord _ (b1_of s)) (wrapping_add-IsWord _ (b1_of t))
        (ap (λ x. x.v2) h) in
    let (a0r, b3) =
      mix_cancel rotl21 rotl21_cancel (a0r_of s) (b3_of s) (a0r_of t) (b3_of t) a0s b3s a0t b3t
        (ap (λ x. x.v0) h) (ap (λ x. x.v3) h) in
    let (a2, b1) =
      mix_cancel rotl17 rotl17_cancel (wrapping_add s.v2 s.v3) (b1_of s) (wrapping_add t.v2 t.v3)
        (b1_of t) a2s b1s a2t b1t c2 (ap (λ x. x.v1) h) in
    let a0 =
      rotl32_cancel _ _ (wrapping_add-IsWord s.v0 s.v1) (wrapping_add-IsWord t.v0 t.v1) a0r in
    let (e0, e1) =
      mix_cancel rotl13 rotl13_cancel s.v0 s.v1 t.v0 t.v1 ws.w0 ws.w1 wt.w0 wt.w1 a0 b1 in
    let (e2, e3) =
      mix_cancel rotl16 rotl16_cancel s.v2 s.v3 t.v2 t.v3 ws.w2 ws.w3 wt.w2 wt.w3 a2 b3 in
    λ i. record { v0 = e0 i; v1 = e1 i; v2 = e2 i; v3 = e3 i }

sipround-Words : (s : State) → Words s → Words (sipround s)
unfolding sipround
sipround-Words s w =
    let (b1, b3, a0) = halfway-Words s w in
    let c0 = wrapping_add-IsWord (a0r_of s) (b3_of s) in
    let c2 = wrapping_add-IsWord (wrapping_add s.v2 s.v3) (b1_of s) in
    let r17 : IsWord (rotl17 (b1_of s)) = omega (arith, rotl17_lem (b1_of s) b1, b1) in
    let r21 : IsWord (rotl21 (b3_of s)) = omega (arith, rotl21_lem (b3_of s) b3, b3) in
    record {
      w0 = c0;
      w1 = bit_xor-bounded 64 _ _ r17 c2;
      w2 = omega (arith, rotl32_lem (wrapping_add (wrapping_add s.v2 s.v3) (b1_of s)) c2, c2);
      w3 = bit_xor-bounded 64 _ _ r21 c0;
    }

-- For every message word, absorbing it loses nothing of the state: two states of 64-bit words
-- that it takes to one state are equal.
pub absorb-injective :
    (s t : State) (m : ℕ) → Words s → Words t → IsWord m → absorb s m ≡ absorb t m → s ≡ t
unfolding absorb
absorb-injective s t m ws wt wm h =
    let mix : State → State = λ x. record x { v3 = bit_xor x.v3 m } in
    let mixed : (x : State) → Words x → Words (mix x) =
      λ x w. record { w0 = w.w0; w1 = w.w1; w2 = w.w2; w3 = bit_xor-bounded 64 _ _ w.w3 wm } in
    let s1 = mixed s ws in
    let t1 = mixed t wt in
    let two : sipround (sipround (mix s)) ≡ sipround (sipround (mix t)) = λ i. record {
      v0 = xor_right_cancel m _ _ (ap (λ x. x.v0) h) i;
      v1 = (h i).v1;
      v2 = (h i).v2;
      v3 = (h i).v3;
    } in
    let one = sipround-injective _ _ (sipround-Words _ s1) (sipround-Words _ t1) two in
    let none_left : mix s ≡ mix t = sipround-injective _ _ s1 t1 one in
    λ i. record {
      v0 = (none_left i).v0;
      v1 = (none_left i).v1;
      v2 = (none_left i).v2;
      v3 = xor_right_cancel m _ _ (ap (λ x. x.v3) none_left) i;
    }
