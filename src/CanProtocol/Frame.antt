-- ===== src/CanProtocol/Frame.antt =====
-- struct CanFrame of lib/canHandler/src/canHandlerBase.hpp: the 29-bit extended id that carries the
-- receiver, the command and the sender, and the 8 data bytes.
use can_systems.Prelude.{ℕ, ◌+◌, ◌*◌, ◌/◌, ◌%◌, ◌^◌, ◌<◌, ◌≡◌, refl, arith, bit_and, bit_or}
use can_systems.Prelude.Bits.{bit_and-mask, bit_or-disjoint}

-- `uint8_t data[8]`.
pub record Data : Type 0 where
  pub d0 : ℕ
  pub d1 : ℕ
  pub d2 : ℕ
  pub d3 : ℕ
  pub d4 : ℕ
  pub d5 : ℕ
  pub d6 : ℕ
  pub d7 : ℕ

abbrev pub no_data : Data
no_data = record { d0 = 0; d1 = 0; d2 = 0; d3 = 0; d4 = 0; d5 = 0; d6 = 0; d7 = 0 }

pub record CanFrame : Type 0 where
  pub ext_id : ℕ
  pub bytes : Data

-- The constructor from the parts of the id.
unfoldable pub ext_id_of : ℕ → ℕ → ℕ → ℕ
ext_id_of to cmd from =
    bit_or (bit_or (bit_and to 0x3ff) (bit_and cmd 0x1ff * 2 ^ 10)) (bit_and from 0x3ff * 2 ^ 19)

unfoldable pub make_frame : ℕ → ℕ → ℕ → Data → CanFrame
make_frame to cmd from d = record { ext_id = ext_id_of to cmd from; bytes = d }

-- The bit fields `to : 10`, `cmd : 9` and `from : 10` of the union, lowest bits first.
unfoldable pub to_of : CanFrame → ℕ
to_of f = f.ext_id % 2 ^ 10

unfoldable pub cmd_of : CanFrame → ℕ
cmd_of f = f.ext_id / 2 ^ 10 % 2 ^ 9

unfoldable pub from_of : CanFrame → ℕ
from_of f = f.ext_id / 2 ^ 19 % 2 ^ 10

pub ext_id_of_lem :
    (to cmd from : ℕ) → ext_id_of to cmd from ≡ to % 1024 + cmd % 512 * 1024 + from % 1024 * 524288
unfolding ext_id_of
ext_id_of_lem to cmd from =
    rw
      (
        bit_and-mask 10 to,
        bit_and-mask 9 cmd,
        bit_and-mask 10 from,
        bit_or-disjoint 10 (to % 2 ^ 10) (cmd % 2 ^ 9) (omega arith),
        bit_or-disjoint 19 (to % 2 ^ 10 + cmd % 2 ^ 9 * 2 ^ 10) (from % 2 ^ 10) (omega arith),
      )
      (omega arith)

-- A frame made of a receiver, a command and a sender is read back as these, each cut down to its 10,
-- 9 or 10 bits, with its data as they were, and its id has 29 bits.
pub make_frame-fields :
    (to cmd from : ℕ) (d : Data)
    → (to_of (make_frame to cmd from d) ≡ to % 1024)
      × (cmd_of (make_frame to cmd from d) ≡ cmd % 512)
      × (from_of (make_frame to cmd from d) ≡ from % 1024)
      × ((make_frame to cmd from d).bytes ≡ d)
      × ((make_frame to cmd from d).ext_id < 2 ^ 29)
unfolding make_frame to_of cmd_of from_of
make_frame-fields to cmd from d = (
  omega (arith, ext_id_of_lem to cmd from),
  omega (arith, ext_id_of_lem to cmd from),
  omega (arith, ext_id_of_lem to cmd from),
  refl,
  omega (arith, ext_id_of_lem to cmd from),
)

-- Eight bytes.
pub record IsBytes (d : Data) : Type 0 where
  pub b0 : d.d0 < 256
  pub b1 : d.d1 < 256
  pub b2 : d.d2 < 256
  pub b3 : d.d3 < 256
  pub b4 : d.d4 < 256
  pub b5 : d.d5 < 256
  pub b6 : d.d6 < 256
  pub b7 : d.d7 < 256
