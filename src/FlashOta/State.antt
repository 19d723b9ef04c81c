-- ===== src/FlashOta/State.antt =====
-- `OTA::OtaState` of lib/ota/src/ota.hpp.
pub data OtaState : Type 0 where
  idle start store check valid invalid : OtaState
