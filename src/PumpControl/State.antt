-- ===== src/PumpControl/State.antt =====
-- The states and the error bits of lib/pumpControl/src/pumpControl.hpp.
use can_systems.Prelude.{ℕ}

pub data IrrigationState : Type 0 where
  idle run stop error calibration : IrrigationState

pub data PumpControlError : Type 0 where
  ch_select flow_stuck flow_overrun pump_overrun pump_oc pump_uc queue_full : PumpControlError

abbrev pub error_bit : PumpControlError → ℕ
error_bit ch_select = 1
error_bit flow_stuck = 2
error_bit flow_overrun = 4
error_bit pump_overrun = 8
error_bit pump_oc = 16
error_bit pump_uc = 32
error_bit queue_full = 64
