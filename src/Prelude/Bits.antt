-- ===== src/Prelude/Bits.antt =====
-- The bit operations of the code, as arithmetic: masks, packed fields, and tests for equality.
use Prim.Native.Nat.{
  ℕ, zero, suc, ◌+◌, ◌*◌, ◌/◌, ◌%◌, ◌^◌, ◌≤◌, ◌<◌, min, max, differ, bit_and, bit_or, bit_xor,
  digits, bitwise, bit_and-bitwise, bit_or-bitwise, bit_xor-bitwise,
}
use mathlib.Core.Path.{◌≡◌, refl, sym, ap}
use native.Mathlib.Nat.{pow-suc}
use native.Mathlib.Omega.{arith}

-- More fuel than the first number changes nothing.
more_fuel :
    (z : ℕ → ℕ) (f : ℕ → ℕ → ℕ) (n m a b : ℕ) → a ≤ n → a ≤ m → digits z f n a b ≡ digits z f m a b
more_fuel z f zero zero a b p q = refl
more_fuel z f zero (suc m) zero b p q = refl
more_fuel z f zero (suc m) (suc a) b p q = absurd (omega arith)
more_fuel z f (suc n) zero zero b p q = refl
more_fuel z f (suc n) zero (suc a) b p q = absurd (omega arith)
more_fuel z f (suc n) (suc m) zero b p q = refl
more_fuel z f (suc n) (suc m) (suc a) b p q =
    rw (more_fuel z f n m (suc a / 2) (b / 2) (omega arith) (omega arith))

-- The lowest digit of a number that is not 0.
low_digit :
    (z : ℕ → ℕ) (f : ℕ → ℕ → ℕ) (a b : ℕ)
    → bitwise z f (suc a) b ≡ bitwise z f (suc a / 2) (b / 2) * 2 + f (suc a % 2) (b % 2)
low_digit z f a b =
    omega (arith, more_fuel z f a (suc a / 2) (suc a / 2) (b / 2) (omega arith) (omega arith))

bit_and_low : (a b : ℕ) → bit_and a b ≡ bit_and (a / 2) (b / 2) * 2 + min (a % 2) (b % 2)
bit_and_low zero b = simp bit_and-bitwise (omega arith)
bit_and_low (suc a) b = simp bit_and-bitwise (low_digit (λ y. 0) min a b)

bit_or_low : (a b : ℕ) → bit_or a b ≡ bit_or (a / 2) (b / 2) * 2 + max (a % 2) (b % 2)
bit_or_low zero b = simp bit_or-bitwise (omega arith)
bit_or_low (suc a) b = simp bit_or-bitwise (low_digit (λ y. y) max a b)

bit_xor_low : (a b : ℕ) → bit_xor a b ≡ bit_xor (a / 2) (b / 2) * 2 + differ (a % 2) (b % 2)
bit_xor_low zero b = simp bit_xor-bitwise (omega arith)
bit_xor_low (suc a) b = simp bit_xor-bitwise (low_digit (λ y. y) differ a b)

zero-bit_and : (b : ℕ) → bit_and 0 b ≡ 0
zero-bit_and b = bit_and-bitwise 0 b

bit_and-zero_below : (n a : ℕ) → a ≤ n → bit_and a 0 ≡ 0
bit_and-zero_below n zero h = refl
bit_and-zero_below zero (suc a) h = absurd (omega arith)
bit_and-zero_below (suc n) (suc a) h =
    omega (arith, bit_and_low (suc a) 0, bit_and-zero_below n (suc a / 2) (omega arith))

bit_and_15 : (a : ℕ) → bit_and a 15 ≡ a % 16
bit_and_15 a = omega (
  arith,
  bit_and_low a 15,
  bit_and_low (a / 2) 7,
  bit_and_low (a / 2 / 2) 3,
  bit_and_low (a / 2 / 2 / 2) 1,
  bit_and-zero_below (a / 2 / 2 / 2 / 2) (a / 2 / 2 / 2 / 2) (omega arith),
)

-- `& 0xff` keeps the low byte.
pub bit_and_255 : (a : ℕ) → bit_and a 255 ≡ a % 256
bit_and_255 a = omega (
  arith,
  bit_and_low a 255,
  bit_and_low (a / 2) 127,
  bit_and_low (a / 2 / 2) 63,
  bit_and_low (a / 2 / 2 / 2) 31,
  bit_and_15 (a / 2 / 2 / 2 / 2),
)

zero-bit_or : (b : ℕ) → bit_or 0 b ≡ b
zero-bit_or b = bit_or-bitwise 0 b

zero-bit_xor : (b : ℕ) → bit_xor 0 b ≡ b
zero-bit_xor b = bit_xor-bitwise 0 b

-- `r | (q << k)` is a sum when `r` fits `k` bits.
pub bit_or_packed : (k q r : ℕ) → r < 2 ^ k → bit_or r (q * 2 ^ k) ≡ r + q * 2 ^ k
bit_or_packed zero q r h =
    let e : r ≡ 0 = omega arith in rw e (omega (arith, zero-bit_or (q * 2 ^ 0)))
bit_or_packed (suc k) q r h = ground (
  arith,
  pow-suc 2 k,
  ap (λ (t : ℕ). q * t) (pow-suc 2 k),
  bit_or_low r (q * 2 ^ suc k),
  bit_or_packed k q (r / 2) (omega (arith, pow-suc 2 k)),
)

bit_or-eq-zero_below : (n a b : ℕ) → a ≤ n → b ≤ n → bit_or a b ≡ 0 → (a ≡ 0) × (b ≡ 0)
bit_or-eq-zero_below zero a b p q h = omega arith
bit_or-eq-zero_below (suc n) a b p q h =
    let ih =
      bit_or-eq-zero_below n (a / 2) (b / 2) (omega arith) (omega arith)
        (omega (arith, bit_or_low a b)) in
    omega (arith, ih, bit_or_low a b)

-- A disjunction is 0 only of zeros.
pub bit_or-eq-zero : (a b : ℕ) → bit_or a b ≡ 0 → (a ≡ 0) × (b ≡ 0)
bit_or-eq-zero a b = bit_or-eq-zero_below (a + b) a b (omega arith) (omega arith)

differ-eq-zero : (x y : ℕ) → differ x y ≡ 0 → x ≡ y
differ-eq-zero zero y h = sym h
differ-eq-zero (suc x) zero h = absurd (omega arith)
differ-eq-zero (suc x) (suc y) h = ap suc (differ-eq-zero x y h)

bit_xor-eq-zero_below : (n a b : ℕ) → a ≤ n → bit_xor a b ≡ 0 → a ≡ b
bit_xor-eq-zero_below zero zero b p h = omega (arith, zero-bit_xor b)
bit_xor-eq-zero_below zero (suc a) b p h = absurd (omega arith)
bit_xor-eq-zero_below (suc n) a b p h =
    let e = bit_xor_low a b in
    let ih = bit_xor-eq-zero_below n (a / 2) (b / 2) (omega arith) (omega (arith, e)) in
    let d = differ-eq-zero (a % 2) (b % 2) (omega (arith, e)) in omega (arith, ih, d)

-- An exclusive disjunction is 0 only of equals.
pub bit_xor-eq-zero : (a b : ℕ) → bit_xor a b ≡ 0 → a ≡ b
bit_xor-eq-zero a b = bit_xor-eq-zero_below a a b (omega arith)

differ_self : (x : ℕ) → differ x x ≡ 0
differ_self zero = refl
differ_self (suc x) = differ_self x

bit_xor_self_below : (n a : ℕ) → a ≤ n → bit_xor a a ≡ 0
bit_xor_self_below n zero p = refl
bit_xor_self_below zero (suc a) p = absurd (omega arith)
bit_xor_self_below (suc n) (suc a) p = omega (
  arith,
  bit_xor_low (suc a) (suc a),
  differ_self (suc a % 2),
  bit_xor_self_below n (suc a / 2) (omega arith),
)

pub bit_xor_self : (a : ℕ) → bit_xor a a ≡ 0
bit_xor_self a = bit_xor_self_below a a (omega arith)

bit_or_comm_below : (n a b : ℕ) → a ≤ n → b ≤ n → bit_or a b ≡ bit_or b a
bit_or_comm_below zero zero zero p q = refl
bit_or_comm_below zero zero (suc b) p q = absurd (omega arith)
bit_or_comm_below zero (suc a) b p q = absurd (omega arith)
bit_or_comm_below (suc n) a b p q = omega (
  arith,
  bit_or_low a b,
  bit_or_low b a,
  bit_or_comm_below n (a / 2) (b / 2) (omega arith) (omega arith),
)

pub bit_or_comm : (a b : ℕ) → bit_or a b ≡ bit_or b a
bit_or_comm a b = bit_or_comm_below (a + b) a b (omega arith) (omega arith)

differ-bounded : (x y : ℕ) → x < 2 → y < 2 → differ x y < 2
differ-bounded zero zero p q = omega arith
differ-bounded zero (suc y) p q = q
differ-bounded (suc x) zero p q = p
differ-bounded (suc x) (suc y) p q = differ-bounded x y (omega arith) (omega arith)

differ_cancel : (x y z : ℕ) → x < 2 → y < 2 → z < 2 → differ x y ≡ differ x z → y ≡ z
differ_cancel zero y z p q r h = h
differ_cancel (suc zero) zero zero p q r h = refl
differ_cancel (suc zero) zero (suc zero) p q r h = absurd (omega (arith, h))
differ_cancel (suc zero) zero (suc (suc z)) p q r h = absurd (omega (arith, r))
differ_cancel (suc zero) (suc zero) zero p q r h = absurd (omega (arith, h))
differ_cancel (suc zero) (suc zero) (suc z) p q r h = omega (arith, r)
differ_cancel (suc zero) (suc (suc y)) z p q r h = absurd (omega (arith, q))
differ_cancel (suc (suc x)) y z p q r h = absurd (omega (arith, p))

bit_xor_cancel_below : (n a x y : ℕ) → x ≤ n → y ≤ n → bit_xor a x ≡ bit_xor a y → x ≡ y
bit_xor_cancel_below zero a x y p q h = omega arith
bit_xor_cancel_below (suc n) a x y p q h =
    let lx = bit_xor_low a x in
    let ly = bit_xor_low a y in
    let dx = differ-bounded (a % 2) (x % 2) (omega arith) (omega arith) in
    let dy = differ-bounded (a % 2) (y % 2) (omega arith) (omega arith) in
    let high =
      bit_xor_cancel_below n (a / 2) (x / 2) (y / 2) (omega arith) (omega arith)
        (omega (arith, h, lx, ly, dx, dy)) in
    let low =
      differ_cancel (a % 2) (x % 2) (y % 2) (omega arith) (omega arith) (omega arith)
        (omega (arith, h, lx, ly, dx, dy)) in
    omega (arith, high, low)

-- Exclusive disjunction with one word loses nothing.
pub bit_xor_cancel : (a x y : ℕ) → bit_xor a x ≡ bit_xor a y → x ≡ y
bit_xor_cancel a x y = bit_xor_cancel_below (x + y) a x y (omega arith) (omega arith)

pub bit_xor-bounded : (k a b : ℕ) → a < 2 ^ k → b < 2 ^ k → bit_xor a b < 2 ^ k
bit_xor-bounded zero a b p q =
    let e : a ≡ 0 = omega arith in rw e (omega (arith, q, zero-bit_xor b))
bit_xor-bounded (suc k) a b p q = omega (
  arith,
  pow-suc 2 k,
  bit_xor_low a b,
  differ-bounded (a % 2) (b % 2) (omega arith) (omega arith),
  bit_xor-bounded k (a / 2) (b / 2) (omega (arith, pow-suc 2 k)) (omega (arith, pow-suc 2 k)),
)

differ_comm : (x y : ℕ) → differ x y ≡ differ y x
differ_comm zero zero = refl
differ_comm zero (suc y) = refl
differ_comm (suc x) zero = refl
differ_comm (suc x) (suc y) = differ_comm x y

bit_xor_comm_below : (n a b : ℕ) → a ≤ n → b ≤ n → bit_xor a b ≡ bit_xor b a
bit_xor_comm_below zero zero zero p q = refl
bit_xor_comm_below zero zero (suc b) p q = absurd (omega arith)
bit_xor_comm_below zero (suc a) b p q = absurd (omega arith)
bit_xor_comm_below (suc n) a b p q = omega (
  arith,
  bit_xor_low a b,
  bit_xor_low b a,
  differ_comm (a % 2) (b % 2),
  bit_xor_comm_below n (a / 2) (b / 2) (omega arith) (omega arith),
)

pub bit_xor_comm : (a b : ℕ) → bit_xor a b ≡ bit_xor b a
bit_xor_comm a b = bit_xor_comm_below (a + b) a b (omega arith) (omega arith)
