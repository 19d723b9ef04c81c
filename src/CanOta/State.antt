-- ===== src/CanOta/State.antt =====
-- `CanOta::TransferState` and `CanOta::OtaStartError` of lib/canMqttGateway/src/canMqttGateway.hpp.
use can_systems.Prelude.{ℕ}

pub data TransferState : Type 0 where
  idle wait_for_ack start store valid invalid : TransferState

pub data OtaStartError : Type 0 where
  file_name_nullptr file_location_invalid file_open_failed file_empty already_in_progress :
      OtaStartError

unfoldable pub start_error_bit : OtaStartError → ℕ
start_error_bit OtaStartError.file_name_nullptr = 1
start_error_bit OtaStartError.file_location_invalid = 2
start_error_bit OtaStartError.file_open_failed = 4
start_error_bit OtaStartError.file_empty = 8
start_error_bit OtaStartError.already_in_progress = 16
