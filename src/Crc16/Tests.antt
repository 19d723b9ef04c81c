-- ===== src/Crc16/Tests.antt =====
-- The checksum at known values.
use can_systems.Prelude.{◌≡◌, refl, false, [], ◌∷◌, arith}
use can_systems.Crc16.{calculate, verify, next, rounds, shift, default_polynomial}
use can_systems.Crc16.Detection.{verify-detects_changed_byte}

-- "123456789", the check value of CRC-16/XMODEM.
check_value :
    calculate
      (0x31 ∷ 0x32 ∷ 0x33 ∷ 0x34 ∷ 0x35 ∷ 0x36 ∷ 0x37 ∷ 0x38 ∷ 0x39 ∷ [])
      0
      default_polynomial
    ≡ 0x31c3
unfolding calculate next rounds shift
check_value = refl

verify-detects_changed_byte_example :
    verify (1 ∷ 7 ∷ 3 ∷ []) (calculate (1 ∷ 2 ∷ 3 ∷ []) 0 0x1021) 0 0x1021 ≡ false
verify-detects_changed_byte_example =
    verify-detects_changed_byte 0x1021 0 (1 ∷ []) (3 ∷ []) 2 7 refl (omega arith) (omega arith)
      (omega arith) (omega arith) (omega arith)
