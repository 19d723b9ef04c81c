-- ===== src/CanProtocol/Tests.antt =====
-- Frames at concrete values.
use can_systems.Prelude.{ℕ, ◌≡◌, ◌↔◌, refl, true, [], ◌∷◌, List, arith}
use can_systems.CanProtocol.Frame.{Data, IsBytes}
use can_systems.CanProtocol.OtaFrame.{StartFrame, SendFrame, FitsStart}
use can_systems.CanProtocol.IdAssign.{Request, Obeys, is_acceptable, is_acceptable_iff}

abbrev some_data : Data
some_data = record { d0 = 1; d1 = 2; d2 = 3; d3 = 4; d4 = 5; d5 = 6; d6 = 7; d7 = 255 }

some_data-IsBytes : IsBytes some_data
some_data-IsBytes = ground arith

abbrev some_start : StartFrame
some_start = record { storage_number = 3; fw_size = 70000; fw_crc = 0xbeef }

some_start-FitsStart : FitsStart some_start
some_start-FitsStart = ground arith

abbrev some_send : SendFrame
some_send = record { piece = 1 ∷ 2 ∷ 3 ∷ 4 ∷ 5 ∷ 6 ∷ 7 ∷ []; sequence = 14 }

-- From the provisional 0x345 to 0x010.
abbrev request : Request
request = record { expected_local = 0x345; new_local = 0x10; reserved_clear = true }

abbrev some_uid : List ℕ
some_uid = 1 ∷ 2 ∷ 3 ∷ 4 ∷ 5 ∷ 6 ∷ 7 ∷ 8 ∷ []

is_acceptable_iff_example : (is_acceptable request 0x345 1 1 ≡ true) ↔ Obeys request 0x345 1 1
is_acceptable_iff_example = is_acceptable_iff request 0x345 1 1

request_obeyed : is_acceptable request 0x345 1 1 ≡ true
unfolding is_acceptable
request_obeyed = refl
