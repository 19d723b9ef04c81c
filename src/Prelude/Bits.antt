-- ===== src/Prelude/Bits.antt =====
-- Facts about `bit_and`, `bit_or` and `bit_xor` at variables.
use Prim.Native.Nat.{
  ℕ, zero, suc, ◌+◌, ◌-◌, ◌*◌, ◌/◌, ◌%◌, ◌^◌, ◌≤◌, ◌<◌, min, max, bit_and, bit_or, bit_xor, digits,
  differ, bit_and-bitwise, bit_or-bitwise, bit_xor-bitwise,
}
use mathlib.Core.Path.{◌≡◌, refl, sym, ap, ◌∙◌}
use mathlib.Core.Logic.{◌≢◌}
use native.Mathlib.Nat.{pow-le-pow_right, pow-suc, mul_assoc}
use native.Mathlib.Decide.{ℕ_discrete}
use native.Mathlib.Omega.{arith}
use can_systems.Prelude.Tests.{◌==◌, if◌then◌else◌}

-- One digit of a bitwise operation, whatever the operation.
module _ (z : ℕ → ℕ) (f : ℕ → ℕ → ℕ) (base : (b : ℕ) → z b ≡ z (b / 2) * 2 + f 0 (b % 2)) where
  digits-fuel : (n m a b : ℕ) → a ≤ n → a ≤ m → digits z f n a b ≡ digits z f m a b
  digits-fuel zero zero a b p q = refl
  digits-fuel zero (suc m) zero b p q = refl
  digits-fuel zero (suc m) (suc a) b p q = absurd (omega arith)
  digits-fuel (suc n) zero zero b p q = refl
  digits-fuel (suc n) zero (suc a) b p q = absurd (omega arith)
  digits-fuel (suc n) (suc m) zero b p q = refl
  digits-fuel (suc n) (suc m) (suc a) b p q =
      omega (arith, digits-fuel n m (suc a / 2) (b / 2) (omega arith) (omega arith))

  digits-step :
      (a b : ℕ) → digits z f a a b ≡ digits z f (a / 2) (a / 2) (b / 2) * 2 + f (a % 2) (b % 2)
  digits-step zero b = base b
  digits-step (suc a) b =
      omega (arith, digits-fuel a (suc a / 2) (suc a / 2) (b / 2) (omega arith) (omega arith))

pub bit_and-step : (a b : ℕ) → bit_and a b ≡ bit_and (a / 2) (b / 2) * 2 + min (a % 2) (b % 2)
bit_and-step a b = omega (
  arith,
  bit_and-bitwise a b,
  bit_and-bitwise (a / 2) (b / 2),
  digits-step (λ (c : ℕ). zero) min (λ c. omega arith) a b,
)

pub bit_or-step : (a b : ℕ) → bit_or a b ≡ bit_or (a / 2) (b / 2) * 2 + max (a % 2) (b % 2)
bit_or-step a b = omega (
  arith,
  bit_or-bitwise a b,
  bit_or-bitwise (a / 2) (b / 2),
  digits-step (λ (c : ℕ). c) max (λ c. omega arith) a b,
)

pub bit_xor-step : (a b : ℕ) → bit_xor a b ≡ bit_xor (a / 2) (b / 2) * 2 + differ (a % 2) (b % 2)
bit_xor-step a b = omega (
  arith,
  bit_xor-bitwise a b,
  bit_xor-bitwise (a / 2) (b / 2),
  digits-step (λ (c : ℕ). c) differ (λ c. omega arith) a b,
)

-- The digits of two bits: `differ` is addition modulo 2.
differ-eq-mod : (a b : ℕ) → a < 2 → b < 2 → differ a b ≡ (a + b) % 2
differ-eq-mod zero zero p q = refl
differ-eq-mod zero (suc zero) p q = refl
differ-eq-mod (suc zero) zero p q = refl
differ-eq-mod (suc zero) (suc zero) p q = refl
differ-eq-mod (suc (suc a)) b p q = absurd (omega arith)
differ-eq-mod zero (suc (suc b)) p q = absurd (omega arith)
differ-eq-mod (suc zero) (suc (suc b)) p q = absurd (omega arith)

pub bit_xor_digit : (a b : ℕ) → bit_xor a b ≡ bit_xor (a / 2) (b / 2) * 2 + (a % 2 + b % 2) % 2
bit_xor_digit a b =
    omega (arith, bit_xor-step a b, differ-eq-mod (a % 2) (b % 2) (omega arith) (omega arith))

-- The parity of an exclusive or.
pub bit_xor-parity : (a b : ℕ) → bit_xor a b % 2 ≡ (a + b) % 2
bit_xor-parity a b = omega (arith, bit_xor_digit a b)

bit_xor-half : (a b : ℕ) → bit_xor a b / 2 ≡ bit_xor (a / 2) (b / 2)
bit_xor-half a b = omega (arith, bit_xor_digit a b)

-- The exclusive or of two words of `k` bits has `k` bits.
pub bit_xor-lt : (k a b : ℕ) → a < 2 ^ k → b < 2 ^ k → bit_xor a b < 2 ^ k
bit_xor-lt zero zero zero p q = omega (arith, bit_xor-bitwise 0 0)
bit_xor-lt zero (suc a) b p q = absurd (omega arith)
bit_xor-lt zero zero (suc b) p q = absurd (omega arith)
bit_xor-lt (suc k) a b p q = omega (
  arith,
  pow-suc 2 k,
  bit_xor_digit a b,
  bit_xor-lt k (a / 2) (b / 2) (omega (arith, pow-suc 2 k)) (omega (arith, pow-suc 2 k)),
)

bit_xor_comm_fuel : (n a b : ℕ) → a + b ≤ n → bit_xor a b ≡ bit_xor b a
bit_xor_comm_fuel zero zero zero p = refl
bit_xor_comm_fuel zero (suc a) b p = absurd (omega arith)
bit_xor_comm_fuel zero zero (suc b) p = absurd (omega arith)
bit_xor_comm_fuel (suc n) zero zero p = refl
bit_xor_comm_fuel (suc n) zero (suc b) p = omega (
  arith,
  bit_xor_digit 0 (suc b),
  bit_xor_digit (suc b) 0,
  bit_xor_comm_fuel n 0 (suc b / 2) (omega arith),
)
bit_xor_comm_fuel (suc n) (suc a) b p = omega (
  arith,
  bit_xor_digit (suc a) b,
  bit_xor_digit b (suc a),
  bit_xor_comm_fuel n (suc a / 2) (b / 2) (omega arith),
)

pub bit_xor_comm : (a b : ℕ) → bit_xor a b ≡ bit_xor b a
bit_xor_comm a b = bit_xor_comm_fuel (a + b) a b (omega arith)

pub zero-bit_xor : (b : ℕ) → bit_xor 0 b ≡ b
zero-bit_xor b = bit_xor-bitwise 0 b

bit_xor-cancel_fuel : (n a b : ℕ) → a ≤ n → bit_xor a (bit_xor a b) ≡ b
bit_xor-cancel_fuel n zero b p = zero-bit_xor (bit_xor 0 b) ∙ zero-bit_xor b
bit_xor-cancel_fuel zero (suc a) b p = absurd (omega arith)
bit_xor-cancel_fuel (suc n) (suc a) b p = omega (
  arith,
  bit_xor_digit (suc a) (bit_xor (suc a) b),
  bit_xor-parity (suc a) b,
  ap (bit_xor (suc a / 2)) (bit_xor-half (suc a) b),
  bit_xor-cancel_fuel n (suc a / 2) (b / 2) (omega arith),
)

-- Exclusive or undoes itself.
pub bit_xor-cancel : (a b : ℕ) → bit_xor a (bit_xor a b) ≡ b
bit_xor-cancel a b = bit_xor-cancel_fuel a a b (omega arith)

pub bit_xor-injective_right : (a b c : ℕ) → bit_xor a b ≡ bit_xor a c → b ≡ c
bit_xor-injective_right a b c e = sym (bit_xor-cancel a b) ∙ ap (bit_xor a) e ∙ bit_xor-cancel a c

pub bit_xor-injective_left : (a b c : ℕ) → bit_xor b a ≡ bit_xor c a → b ≡ c
bit_xor-injective_left a b c e =
    bit_xor-injective_right a b c (bit_xor_comm a b ∙ e ∙ bit_xor_comm c a)

-- Masks: `x & (2^k - 1)` and `x & (m << k)`.
half-mod : (m x : ℕ) → 0 < m → (x / 2 % m) * 2 + x % 2 ≡ x % (m * 2)
half-mod m x h = grind arith

pub two-pow-pos : (k : ℕ) → 0 < 2 ^ k
two-pow-pos zero = omega arith
two-pow-pos (suc k) = omega (arith, pow-suc 2 k, two-pow-pos k)

bit_and-zero_fuel : (n x : ℕ) → x ≤ n → bit_and x 0 ≡ 0
bit_and-zero_fuel n zero p = bit_and-bitwise 0 0
bit_and-zero_fuel zero (suc x) p = absurd (omega arith)
bit_and-zero_fuel (suc n) (suc x) p =
    omega (arith, bit_and-step (suc x) 0, bit_and-zero_fuel n (suc x / 2) (omega arith))

pub bit_and-zero : (x : ℕ) → bit_and x 0 ≡ 0
bit_and-zero x = bit_and-zero_fuel x x (omega arith)

mask-half : (p : ℕ) → 0 < p → ((p * 2 - 1) / 2 ≡ p - 1) × ((p * 2 - 1) % 2 ≡ 1)
mask-half p h = omega arith

-- A mask of `k` ones keeps the low `k` bits.
pub bit_and-mask : (k x : ℕ) → bit_and x (2 ^ k - 1) ≡ x % 2 ^ k
bit_and-mask zero x = omega (arith, bit_and-zero x)
bit_and-mask (suc k) x =
    rw (pow-suc 2 k, bit_and-step x (2 ^ k * 2 - 1), (mask-half (2 ^ k) (two-pow-pos k)).0)
      (omega (
        arith,
        mask-half (2 ^ k) (two-pow-pos k),
        bit_and-mask k (x / 2),
        half-mod (2 ^ k) x (two-pow-pos k),
      ))

half-div : (m x : ℕ) → 0 < m → x / 2 / m ≡ x / (m * 2)
half-div m x h = grind arith

mul-one : (m : ℕ) → m * 1 ≡ m
mul-one m = omega arith

div-one : (m : ℕ) → m / 1 ≡ m
div-one m = omega arith

double-half : (m : ℕ) → m * 2 / 2 ≡ m
double-half m = omega arith

bit_and-double : (x m : ℕ) → bit_and x (m * 2) ≡ bit_and (x / 2) m * 2
bit_and-double x m = omega (arith, bit_and-step x (m * 2), ap (bit_and (x / 2)) (double-half m))

-- A mask shifted up by `k` bits masks the number shifted down.
pub bit_and-shift : (k x m : ℕ) → bit_and x (m * 2 ^ k) ≡ bit_and (x / 2 ^ k) m * 2 ^ k
bit_and-shift zero x m = rw (mul-one m, div-one x, mul-one (bit_and x m))
bit_and-shift (suc k) x m =
    rw (pow-suc 2 k, ← half-div (2 ^ k) x (two-pow-pos k), ← mul_assoc m (2 ^ k) 2)
      (omega (arith, bit_and-double x (m * 2 ^ k), bit_and-shift k (x / 2) m))

bit_or-double : (a m : ℕ) → bit_or a (m * 2) ≡ bit_or (a / 2) m * 2 + a % 2
bit_or-double a m = omega (arith, bit_or-step a (m * 2), ap (bit_or (a / 2)) (double-half m))

-- Words with no common bit: `or` is addition.
pub bit_or-disjoint : (k a b : ℕ) → a < 2 ^ k → bit_or a (b * 2 ^ k) ≡ a + b * 2 ^ k
bit_or-disjoint zero zero b p = omega (arith, bit_or-bitwise 0 (b * 2 ^ 0))
bit_or-disjoint zero (suc a) b p = absurd (omega arith)
bit_or-disjoint (suc k) a b p =
    rw (pow-suc 2 k, ← mul_assoc b (2 ^ k) 2)
      (omega (
        arith,
        bit_or-double a (b * 2 ^ k),
        bit_or-disjoint k (a / 2) b (omega (arith, pow-suc 2 k)),
      ))

bit_or_comm_fuel : (n a b : ℕ) → a + b ≤ n → bit_or a b ≡ bit_or b a
bit_or_comm_fuel zero zero zero p = refl
bit_or_comm_fuel zero (suc a) b p = absurd (omega arith)
bit_or_comm_fuel zero zero (suc b) p = absurd (omega arith)
bit_or_comm_fuel (suc n) zero zero p = refl
bit_or_comm_fuel (suc n) zero (suc b) p = omega (
  arith,
  bit_or-step 0 (suc b),
  bit_or-step (suc b) 0,
  bit_or_comm_fuel n 0 (suc b / 2) (omega arith),
)
bit_or_comm_fuel (suc n) (suc a) b p = omega (
  arith,
  bit_or-step (suc a) b,
  bit_or-step b (suc a),
  bit_or_comm_fuel n (suc a / 2) (b / 2) (omega arith),
)

pub bit_or_comm : (a b : ℕ) → bit_or a b ≡ bit_or b a
bit_or_comm a b = bit_or_comm_fuel (a + b) a b (omega arith)

-- A setting of bits only grows a number.
bit_or-le_fuel : (n a b : ℕ) → a + b ≤ n → (a ≤ bit_or a b) × (b ≤ bit_or a b)
bit_or-le_fuel zero a b p = omega arith
bit_or-le_fuel (suc n) zero zero p = omega arith
bit_or-le_fuel (suc n) zero (suc b) p =
    omega (arith, bit_or-step 0 (suc b), bit_or-le_fuel n 0 (suc b / 2) (omega arith))
bit_or-le_fuel (suc n) (suc a) b p =
    omega (arith, bit_or-step (suc a) b, bit_or-le_fuel n (suc a / 2) (b / 2) (omega arith))

pub bit_or-le : (a b : ℕ) → (a ≤ bit_or a b) × (b ≤ bit_or a b)
bit_or-le a b = bit_or-le_fuel (a + b) a b (omega arith)

-- The `or` of two words of `k` bits has `k` bits.
pub bit_or-lt : (k a b : ℕ) → a < 2 ^ k → b < 2 ^ k → bit_or a b < 2 ^ k
bit_or-lt zero zero zero p q = omega (arith, bit_or-bitwise 0 0)
bit_or-lt zero (suc a) b p q = absurd (omega arith)
bit_or-lt zero zero (suc b) p q = absurd (omega arith)
bit_or-lt (suc k) a b p q = omega (
  arith,
  pow-suc 2 k,
  bit_or-step a b,
  bit_or-lt k (a / 2) (b / 2) (omega (arith, pow-suc 2 k)) (omega (arith, pow-suc 2 k)),
)

-- Bit `j` of a number.
abbrev pub bit : ℕ → ℕ → ℕ
bit a j = a / 2 ^ j % 2

bit-suc : (a j : ℕ) → bit a (suc j) ≡ bit (a / 2) j
bit-suc a j = rw (pow-suc 2 j, ← half-div (2 ^ j) a (two-pow-pos j))

bit_or-half : (a b : ℕ) → bit_or a b / 2 ≡ bit_or (a / 2) (b / 2)
bit_or-half a b = omega (arith, bit_or-step a b)

pub bit-bit_or : (j a b : ℕ) → bit (bit_or a b) j ≡ max (bit a j) (bit b j)
bit-bit_or zero a b = omega (arith, bit_or-step a b)
bit-bit_or (suc j) a b =
    rw (bit-suc (bit_or a b) j, bit-suc a j, bit-suc b j, bit_or-half a b)
      (bit-bit_or j (a / 2) (b / 2))

bit_and-half : (a b : ℕ) → bit_and a b / 2 ≡ bit_and (a / 2) (b / 2)
bit_and-half a b = omega (arith, bit_and-step a b)

pub bit-bit_and : (j a b : ℕ) → bit (bit_and a b) j ≡ min (bit a j) (bit b j)
bit-bit_and zero a b = omega (arith, bit_and-step a b)
bit-bit_and (suc j) a b =
    rw (bit-suc (bit_and a b) j, bit-suc a j, bit-suc b j, bit_and-half a b)
      (bit-bit_and j (a / 2) (b / 2))

zero-bit : (j : ℕ) → bit 0 j ≡ 0
zero-bit zero = refl
zero-bit (suc j) = bit-suc 0 j ∙ zero-bit j

-- A power of two has one bit.
pub bit-pow_self : (k : ℕ) → bit (2 ^ k) k ≡ 1
bit-pow_self zero = refl
bit-pow_self (suc k) =
    bit-suc (2 ^ suc k) k ∙ ap (λ t. bit t k) (omega (arith, pow-suc 2 k)) ∙ bit-pow_self k

pub bit-pow_ne : (k j : ℕ) → k ≢ j → bit (2 ^ k) j ≡ 0
bit-pow_ne zero zero h = absurd (h refl)
bit-pow_ne zero (suc j) h = bit-suc (2 ^ 0) j ∙ zero-bit j
bit-pow_ne (suc k) zero h = omega (arith, pow-suc 2 k)
bit-pow_ne (suc k) (suc j) h =
    bit-suc (2 ^ suc k) j
    ∙ ap (λ t. bit t j) (omega (arith, pow-suc 2 k))
    ∙ bit-pow_ne k j (λ e. h (ap suc e))

complement-half : (p e : ℕ) → e < p * 2 → (p * 2 - 1 - e) / 2 ≡ p - 1 - e / 2
complement-half p e h = omega arith

-- The complement within `w` bits flips every bit below `w`.
pub bit-complement : (w j e : ℕ) → e < 2 ^ w → j < w → bit (2 ^ w - 1 - e) j ≡ 1 - bit e j
bit-complement zero j e h l = absurd (omega arith)
bit-complement (suc w) zero e h l = omega (arith, pow-suc 2 w)
bit-complement (suc w) (suc j) e h l =
    rw
      (
        bit-suc (2 ^ suc w - 1 - e) j,
        bit-suc e j,
        pow-suc 2 w,
        complement-half (2 ^ w) e (omega (arith, pow-suc 2 w)),
      )
      (bit-complement w j (e / 2) (omega (arith, pow-suc 2 w)) (omega arith))

one-mul : (m : ℕ) → 1 * m ≡ m
one-mul m = omega arith

-- A mask with one bit.
pub bit_and-pow : (x j : ℕ) → bit_and x (2 ^ j) ≡ bit x j * 2 ^ j
bit_and-pow x j =
    ap (bit_and x) (sym (one-mul (2 ^ j)))
    ∙ bit_and-shift j x 1
    ∙ ap (λ t. t * 2 ^ j) (bit_and-mask 1 (x / 2 ^ j))

pub two-pow-lt : (k w : ℕ) → k < w → 2 ^ k < 2 ^ w
two-pow-lt k w h = omega (
  arith,
  pow-suc 2 k,
  two-pow-pos k,
  pow-le-pow_right {n = 2} (omega arith) {i = suc k} {j = w} h,
)

pub bit-pow : (k j : ℕ) → bit (2 ^ k) j ≡ (if j == k then 1 else 0)
bit-pow k j = elim (ℕ_discrete j k) [
  | yes e ↦ ground (arith, bit-pow_self j, ap (λ t. bit (2 ^ t) j) e)
  | no ne ↦ ground (arith, bit-pow_ne k j (λ e. ne (sym e)))
]
