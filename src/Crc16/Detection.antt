-- ===== src/Crc16/Detection.antt =====
-- What the checksum detects: with an odd polynomial every change of one byte.
use can_systems.Prelude.{
  ℕ, zero, suc, dec_lt, ◌≤◌, ◌*◌, ◌%◌, ◌^◌, ◌<◌, ◌≡◌, ◌≢◌, refl, ap, sym, ◌∙◌, false, List, [], ◌∷◌,
  ◌++◌, ◌==◌, arith, bit_xor,
}
use can_systems.Prelude.Bits.{
  bit_and-pow, bit_xor-lt, bit_xor-parity, bit_xor-injective_left, bit_xor-injective_right,
}
use can_systems.Crc16.{Crc16, new, shift, rounds, next, next_all, get, calculate, verify}
use can_systems.Crc16.Streaming.{next_all-append, calculate_lem, shift-lt, rounds-lt, next_all-lt}

module _ (p : ℕ) (odd : p % 2 ≡ 1) (small : p < 2 ^ 16) where
  shift_high : (c : ℕ) → c < 2 ^ 16 → 2 ^ 15 ≤ c → shift p c ≡ bit_xor (c * 2 % 2 ^ 16) p
  unfolding shift
  shift_high c h k = ground (arith, bit_and-pow c 15)

  shift_low : (c : ℕ) → c < 2 ^ 15 → shift p c ≡ c * 2
  unfolding shift
  shift_low c h = ground (arith, bit_and-pow c 15)

  -- The bit that is shifted out shows in the lowest bit.
  shift-parity_high : (c : ℕ) → c < 2 ^ 16 → 2 ^ 15 ≤ c → shift p c % 2 ≡ 1
  shift-parity_high c h k = omega (arith, shift_high c h k, bit_xor-parity (c * 2 % 2 ^ 16) p)

  shift-injective : (a b : ℕ) → a < 2 ^ 16 → b < 2 ^ 16 → shift p a ≡ shift p b → a ≡ b
  shift-injective a b ha hb e = elim (dec_lt a (2 ^ 15)) [
    | yes la ↦ elim (dec_lt b (2 ^ 15)) [
      | yes lb ↦ omega (arith, shift_low a la, shift_low b lb)
      | no lb ↦ omega (arith, shift_low a la, shift-parity_high b hb (omega arith))
    ]
    | no la ↦ elim (dec_lt b (2 ^ 15)) [
      | yes lb ↦ omega (arith, shift_low b lb, shift-parity_high a ha (omega arith))
      | no lb ↦ omega (
        arith,
        bit_xor-injective_left p (a * 2 % 2 ^ 16) (b * 2 % 2 ^ 16)
            (sym (shift_high a ha (omega arith)) ∙ e ∙ shift_high b hb (omega arith)),
      )
    ]
  ]

  rounds-injective : (n a b : ℕ) → a < 2 ^ 16 → b < 2 ^ 16 → rounds p n a ≡ rounds p n b → a ≡ b
  unfolding rounds
  rounds-injective zero a b ha hb e = e
  rounds-injective (suc n) a b ha hb e =
      shift-injective a b ha hb
        (rounds-injective n (shift p a) (shift p b) (shift-lt p a small) (shift-lt p b small) e)

  -- A byte folded into one checksum: different checksums stay different, and so do different bytes.
  next-injective :
      (a b x y : ℕ)
      → a < 2 ^ 16
      → b < 2 ^ 16
      → rounds p 8 (bit_xor a (x * 256 % 2 ^ 16)) ≡ rounds p 8 (bit_xor b (y * 256 % 2 ^ 16))
      → bit_xor a (x * 256 % 2 ^ 16) ≡ bit_xor b (y * 256 % 2 ^ 16)
  next-injective a b x y ha hb e =
      rounds-injective 8 (bit_xor a (x * 256 % 2 ^ 16)) (bit_xor b (y * 256 % 2 ^ 16))
        (bit_xor-lt 16 a (x * 256 % 2 ^ 16) ha (omega arith))
        (bit_xor-lt 16 b (y * 256 % 2 ^ 16) hb (omega arith)) e

  next_all-injective :
      (xs : List ℕ) (i a b : ℕ)
      → a < 2 ^ 16
      → b < 2 ^ 16
      → (next_all (record { crc = a; init_value = i; polynomial = p }) xs).crc
        ≡ (next_all (record { crc = b; init_value = i; polynomial = p }) xs).crc
      → a ≡ b
  unfolding next_all next
  next_all-injective [] i a b ha hb e = e
  next_all-injective (x ∷ xs) i a b ha hb e = bit_xor-injective_left (x * 256 % 2 ^ 16) a b (
      next-injective a b x x ha hb (
        next_all-injective xs i (rounds p 8 (bit_xor a (x * 256 % 2 ^ 16)))
          (rounds p 8 (bit_xor b (x * 256 % 2 ^ 16)))
          (rounds-lt p 8 (bit_xor a (x * 256 % 2 ^ 16)) small
            (bit_xor-lt 16 a (x * 256 % 2 ^ 16) ha (omega arith)))
          (rounds-lt p 8 (bit_xor b (x * 256 % 2 ^ 16)) small
            (bit_xor-lt 16 b (x * 256 % 2 ^ 16) hb (omega arith)))
          e))

-- Two bytes give two checksums, whatever follows.
byte-injective :
    (c : Crc16) (post : List ℕ) (x y : ℕ)
    → c.polynomial % 2 ≡ 1
    → c.polynomial < 2 ^ 16
    → c.crc < 2 ^ 16
    → x < 256
    → y < 256
    → (next_all c (x ∷ post)).crc ≡ (next_all c (y ∷ post)).crc
    → x ≡ y
unfolding next_all next
byte-injective c post x y odd small hc hx hy e = omega (
  arith,
  bit_xor-injective_right c.crc (x * 256 % 2 ^ 16) (y * 256 % 2 ^ 16) (
      next-injective c.polynomial odd small c.crc c.crc x y hc hc (
        next_all-injective c.polynomial odd small post c.init_value
          (rounds c.polynomial 8 (bit_xor c.crc (x * 256 % 2 ^ 16)))
          (rounds c.polynomial 8 (bit_xor c.crc (y * 256 % 2 ^ 16))) (after x) (after y) e)),
)
  where
    after : (b : ℕ) → rounds c.polynomial 8 (bit_xor c.crc (b * 256 % 2 ^ 16)) < 2 ^ 16
    after b =
        rounds-lt c.polynomial 8 (bit_xor c.crc (b * 256 % 2 ^ 16)) small
          (bit_xor-lt 16 c.crc (b * 256 % 2 ^ 16) hc (omega arith))

pub verify_lem :
    (xs : List ℕ) (expected init p : ℕ)
    → verify xs expected init p ≡ (calculate xs init p == expected)
unfolding verify calculate
verify_lem [] expected init p = ground arith
verify_lem (x ∷ xs) expected init p = refl

-- With an odd polynomial of 16 bits and a 16-bit start value, two messages of bytes that differ in
-- exactly one byte have different checksums: the one is not accepted with the checksum of the other.
pub verify-detects_changed_byte :
    (p init : ℕ) (pre post : List ℕ) (x y : ℕ)
    → p % 2 ≡ 1
    → p < 2 ^ 16
    → init < 2 ^ 16
    → x < 256
    → y < 256
    → x ≢ y
    → verify (pre ++ y ∷ post) (calculate (pre ++ x ∷ post) init p) init p ≡ false
unfolding next_all get new
verify-detects_changed_byte p init pre post x y odd small hi hx hy ne =
    ground
      (arith, verify_lem (pre ++ y ∷ post) (calculate (pre ++ x ∷ post) init p) init p, differs)
  where
    before : Crc16
    before = next_all (new init p) pre

    split : (b : ℕ) → calculate (pre ++ b ∷ post) init p ≡ (next_all before (b ∷ post)).crc
    split b =
        calculate_lem (pre ++ b ∷ post) init p
        ∙ ap get (next_all-append (new init p) pre (b ∷ post))

    facts : (before.crc < 2 ^ 16) × (before.polynomial ≡ p) × (before.init_value ≡ init)
    facts = next_all-lt (new init p) pre small hi

    differs : calculate (pre ++ y ∷ post) init p ≢ calculate (pre ++ x ∷ post) init p
    differs e = ne (
        sym (
          byte-injective before post y x (omega (arith, facts)) (omega (arith, facts)) facts.0 hy hx
            (sym (split y) ∙ e ∙ split x)))
