-- ===== src/Base64/Groups.antt =====
-- One group of three bytes and four characters.
use can_systems.Prelude.{ℕ, ◌+◌, ◌*◌, ◌/◌, ◌%◌, ◌<◌, ◌≡◌, ◌≢◌, arith, true, [], ◌∷◌}
use can_systems.Prelude.Bits.{bit_and-mask, bit_and-shift}
use can_systems.Base64.{
  A4, alphabet, lookup_table, from_a3_to_a4, from_a4_to_a3, process_full_block,
  process_partial_block,
}

pub lookup_table-alphabet : (v : ℕ) → v < 64 → lookup_table (alphabet v) ≡ v
unfolding lookup_table alphabet
lookup_table-alphabet v h = ground arith

-- A character of the alphabet is neither padding nor zero.
pub alphabet-ne : (v : ℕ) → v < 64 → (alphabet v ≢ b'=') × (alphabet v ≢ 0)
unfolding alphabet
alphabet-ne v h = ground arith

pub from_a3_to_a4_lem :
    (a b c : ℕ)
    → a < 256
    → b < 256
    → c < 256
    → from_a3_to_a4 a b c
      ≡ record { c0 = a / 4; c1 = a % 4 * 16 + b / 16; c2 = b % 16 * 4 + c / 64; c3 = c % 64 }
unfolding from_a3_to_a4
from_a3_to_a4_lem a b c ha hb hc = ground (
  arith,
  bit_and-shift 2 a 63,
  bit_and-mask 6 (a / 4),
  bit_and-mask 2 a,
  bit_and-shift 4 b 15,
  bit_and-mask 4 (b / 16),
  bit_and-mask 4 b,
  bit_and-shift 6 c 3,
  bit_and-mask 2 (c / 64),
  bit_and-mask 6 c,
)

pub from_a4_to_a3_lem :
    (w x y z : ℕ)
    → w < 64
    → x < 64
    → y < 64
    → z < 64
    → from_a4_to_a3 w x y z
      ≡ record { b0 = w * 4 + x / 16; b1 = x % 16 * 16 + y / 4; b2 = y % 4 * 64 + z }
unfolding from_a4_to_a3
from_a4_to_a3_lem w x y z hw hx hy hz = ground (
  arith,
  bit_and-shift 4 x 3,
  bit_and-mask 2 (x / 16),
  bit_and-mask 4 x,
  bit_and-shift 2 y 15,
  bit_and-mask 4 (y / 4),
  bit_and-mask 2 y,
)

-- A block of four characters of the alphabet is decoded.
full_block :
    (w x y z : ℕ)
    → w < 64
    → x < 64
    → y < 64
    → z < 64
    → process_full_block (alphabet w) (alphabet x) (alphabet y) (alphabet z)
      ≡ (true, (w * 4 + x / 16) ∷ (x % 16 * 16 + y / 4) ∷ (y % 4 * 64 + z) ∷ [])
unfolding process_full_block
full_block w x y z hw hx hy hz =
    rw
      (
        lookup_table-alphabet w hw,
        lookup_table-alphabet x hx,
        lookup_table-alphabet y hy,
        lookup_table-alphabet z hz,
        from_a4_to_a3_lem w x y z hw hx hy hz,
      )
      (ground arith)

-- A short block of two or three characters.
block_of_two :
    (w x : ℕ)
    → w < 64
    → x < 64
    → process_partial_block (alphabet w ∷ alphabet x ∷ []) 2 ≡ (true, (w * 4 + x / 16) ∷ [])
unfolding process_partial_block
block_of_two w x hw hx = ground (
  arith,
  alphabet-ne w hw,
  alphabet-ne x hx,
  lookup_table-alphabet w hw,
  lookup_table-alphabet x hx,
  from_a4_to_a3_lem w x 0 0 hw hx,
)

block_of_three :
    (w x y : ℕ)
    → w < 64
    → x < 64
    → y < 64
    → process_partial_block (alphabet w ∷ alphabet x ∷ alphabet y ∷ []) 3
      ≡ (true, (w * 4 + x / 16) ∷ (x % 16 * 16 + y / 4) ∷ [])
unfolding process_partial_block
block_of_three w x y hw hx hy = ground (
  arith,
  alphabet-ne w hw,
  alphabet-ne x hx,
  alphabet-ne y hy,
  lookup_table-alphabet w hw,
  lookup_table-alphabet x hx,
  lookup_table-alphabet y hy,
  from_a4_to_a3_lem w x y 0 hw hx hy,
)

-- Any three bytes come back from their four characters, any two from three, and any one from two.
pub full_group :
    (a b c : ℕ)
    → a < 256
    → b < 256
    → c < 256
    → let v = from_a3_to_a4 a b c in
      process_full_block (alphabet v.c0) (alphabet v.c1) (alphabet v.c2) (alphabet v.c3)
      ≡ (true, a ∷ b ∷ c ∷ [])
full_group a b c ha hb hc = rw (from_a3_to_a4_lem a b c ha hb hc) (
    ground (
      arith,
      full_block (a / 4) (a % 4 * 16 + b / 16) (b % 16 * 4 + c / 64) (c % 64) (omega arith)
          (omega arith) (omega arith) (omega arith),
    ))

pub one_group :
    (a : ℕ)
    → a < 256
    → let v = from_a3_to_a4 a 0 0 in
      process_partial_block (alphabet v.c0 ∷ alphabet v.c1 ∷ []) 2 ≡ (true, a ∷ [])
one_group a ha =
    rw (from_a3_to_a4_lem a 0 0 ha (omega arith) (omega arith))
      (ground (arith, block_of_two (a / 4) (a % 4 * 16 + 0 / 16) (omega arith) (omega arith)))

pub two_group :
    (a b : ℕ)
    → a < 256
    → b < 256
    → let v = from_a3_to_a4 a b 0 in
      process_partial_block (alphabet v.c0 ∷ alphabet v.c1 ∷ alphabet v.c2 ∷ []) 3
      ≡ (true, a ∷ b ∷ [])
two_group a b ha hb = rw (from_a3_to_a4_lem a b 0 ha hb (omega arith)) (
    ground (
      arith,
      block_of_three (a / 4) (a % 4 * 16 + b / 16) (b % 16 * 4 + 0 / 64) (omega arith) (omega arith)
          (omega arith),
    ))

-- The four numbers have six bits.
pub record IsA4 (v : A4) : Type 0 where
  pub in0 : v.c0 < 64
  pub in1 : v.c1 < 64
  pub in2 : v.c2 < 64
  pub in3 : v.c3 < 64

pub from_a3_to_a4-IsA4 : (a b c : ℕ) → a < 256 → b < 256 → c < 256 → IsA4 (from_a3_to_a4 a b c)
from_a3_to_a4-IsA4 a b c ha hb hc = rw (from_a3_to_a4_lem a b c ha hb hc) (omega arith)
