-- ===== src/Crc16.antt =====
-- lib/crc16/src: the 16-bit cyclic redundancy check.
pub mod Streaming
pub mod Detection
mod Tests
use can_systems.Prelude.{
  ℕ, zero, suc, ◌*◌, ◌%◌, ◌^◌, Bool, List, [], ◌∷◌, ◌==◌, not, if◌then◌else◌, bit_and, bit_xor,
}

-- The object's state: `crc_`, and the constants `initValue_` and `polynomial_`.
pub record Crc16 : Type 0 where
  pub crc : ℕ
  pub init_value : ℕ
  pub polynomial : ℕ

abbrev pub default_init_value : ℕ
default_init_value = 0

abbrev pub default_polynomial : ℕ
default_polynomial = 0x1021

unfoldable pub new : ℕ → ℕ → Crc16
new init_value polynomial = record {
  crc = init_value;
  init_value = init_value;
  polynomial = polynomial;
}

-- One round of the loop: shift out the top bit, and fold the polynomial in if it was set.
unfoldable pub shift : ℕ → ℕ → ℕ
shift polynomial crc =
    if not (bit_and crc 0x8000 == 0)
    then bit_xor (crc * 2 % 2 ^ 16) polynomial
    else crc * 2 % 2 ^ 16

unfoldable pub rounds : ℕ → ℕ → ℕ → ℕ
rounds polynomial zero crc = crc
rounds polynomial (suc n) crc = rounds polynomial n (shift polynomial crc)

-- `next(uint8_t)`.
unfoldable pub next : Crc16 → ℕ → Crc16
next c value = record c { crc = rounds c.polynomial 8 (bit_xor c.crc (value * 256 % 2 ^ 16)) }

-- `next(const uint8_t*, uint32_t)`: the list is the array; a null pointer is the empty list.
unfoldable pub next_all : Crc16 → List ℕ → Crc16
next_all c [] = c
next_all c (v ∷ vs) = next_all (next c v) vs

unfoldable pub get : Crc16 → ℕ
get c = c.crc

unfoldable pub reset : Crc16 → Crc16
reset c = record c { crc = c.init_value }

unfoldable pub calculate : List ℕ → ℕ → ℕ → ℕ
unfolding new next_all get
calculate [] init_value polynomial = init_value
calculate (v ∷ vs) init_value polynomial = get (next_all (new init_value polynomial) (v ∷ vs))

unfoldable pub verify : List ℕ → ℕ → ℕ → ℕ → Bool
verify [] expected init_value polynomial = expected == init_value
verify (v ∷ vs) expected init_value polynomial =
    calculate (v ∷ vs) init_value polynomial == expected
