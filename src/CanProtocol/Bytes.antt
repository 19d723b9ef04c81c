-- ===== src/CanProtocol/Bytes.antt =====
-- Little-endian words, as the frames carry them: `x & 0xFF`, `(x >> 8k) & 0xFF`, and the words put
-- together again by `|` and `<<`.
use can_systems.Prelude.{ℕ, ◌+◌, ◌*◌, ◌/◌, ◌%◌, ◌^◌, ◌<◌, ◌≡◌, arith, bit_and, bit_or}
use can_systems.Prelude.Bits.{bit_and-mask, bit_or-disjoint}

-- `static_cast<uint8_t>((x >> (8 * k)) & 0xFFU)`.
unfoldable pub byte_of : ℕ → ℕ → ℕ
byte_of k x = bit_and (x / 2 ^ (8 * k)) 0xff % 2 ^ 8

pub byte_of_lem : (k x : ℕ) → byte_of k x ≡ x / 2 ^ (8 * k) % 256
unfolding byte_of
byte_of_lem k x = omega (arith, bit_and-mask 8 (x / 2 ^ (8 * k)))

pub byte_of-lt : (k x : ℕ) → byte_of k x < 256
byte_of-lt k x = omega (arith, byte_of_lem k x)

-- `static_cast<uint16_t>(b0) | (static_cast<uint16_t>(b1) << 8U)`, narrowed to 16 bits.
unfoldable pub word16 : ℕ → ℕ → ℕ
word16 b0 b1 = bit_or b0 (b1 * 2 ^ 8) % 2 ^ 16

unfoldable pub word32 : ℕ → ℕ → ℕ → ℕ → ℕ
word32 b0 b1 b2 b3 = bit_or (bit_or (bit_or b0 (b1 * 2 ^ 8)) (b2 * 2 ^ 16)) (b3 * 2 ^ 24) % 2 ^ 32

pub word16_lem : (b0 b1 : ℕ) → b0 < 256 → b1 < 256 → word16 b0 b1 ≡ b0 + b1 * 256
unfolding word16
word16_lem b0 b1 p q = omega (arith, bit_or-disjoint 8 b0 b1 p)

pub word32_lem :
    (b0 b1 b2 b3 : ℕ)
    → b0 < 256
    → b1 < 256
    → b2 < 256
    → b3 < 256
    → word32 b0 b1 b2 b3 ≡ b0 + b1 * 256 + b2 * 65536 + b3 * 16777216
unfolding word32
word32_lem b0 b1 b2 b3 p0 p1 p2 p3 =
    rw
      (
        bit_or-disjoint 8 b0 b1 p0,
        bit_or-disjoint 16 (b0 + b1 * 256) b2 (omega arith),
        bit_or-disjoint 24 (b0 + b1 * 256 + b2 * 65536) b3 (omega arith),
      )
      (omega arith)

-- The bytes of a word give the word back.
pub word16-byte_of : (x : ℕ) → x < 2 ^ 16 → word16 (byte_of 0 x) (byte_of 1 x) ≡ x
word16-byte_of x h = omega (
  arith,
  word16_lem (byte_of 0 x) (byte_of 1 x) (byte_of-lt 0 x) (byte_of-lt 1 x),
  byte_of_lem 0 x,
  byte_of_lem 1 x,
)

pub word32-byte_of :
    (x : ℕ) → x < 2 ^ 32 → word32 (byte_of 0 x) (byte_of 1 x) (byte_of 2 x) (byte_of 3 x) ≡ x
word32-byte_of x h = omega (
  arith,
  word32_lem (byte_of 0 x) (byte_of 1 x) (byte_of 2 x) (byte_of 3 x) (byte_of-lt 0 x)
      (byte_of-lt 1 x) (byte_of-lt 2 x) (byte_of-lt 3 x),
  byte_of_lem 0 x,
  byte_of_lem 1 x,
  byte_of_lem 2 x,
  byte_of_lem 3 x,
)

-- And the word gives its bytes back.
pub byte_of-word16 :
    (b0 b1 : ℕ)
    → b0 < 256
    → b1 < 256
    → (byte_of 0 (word16 b0 b1) ≡ b0) × (byte_of 1 (word16 b0 b1) ≡ b1)
byte_of-word16 b0 b1 p q =
    omega (arith, word16_lem b0 b1 p q, byte_of_lem 0 (word16 b0 b1), byte_of_lem 1 (word16 b0 b1))

pub byte_of-word32 :
    (b0 b1 b2 b3 : ℕ)
    → b0 < 256
    → b1 < 256
    → b2 < 256
    → b3 < 256
    → (byte_of 0 (word32 b0 b1 b2 b3) ≡ b0)
      × (byte_of 1 (word32 b0 b1 b2 b3) ≡ b1)
      × (byte_of 2 (word32 b0 b1 b2 b3) ≡ b2)
      × (byte_of 3 (word32 b0 b1 b2 b3) ≡ b3)
byte_of-word32 b0 b1 b2 b3 p0 p1 p2 p3 = omega (
  arith,
  word32_lem b0 b1 b2 b3 p0 p1 p2 p3,
  byte_of_lem 0 (word32 b0 b1 b2 b3),
  byte_of_lem 1 (word32 b0 b1 b2 b3),
  byte_of_lem 2 (word32 b0 b1 b2 b3),
  byte_of_lem 3 (word32 b0 b1 b2 b3),
)
