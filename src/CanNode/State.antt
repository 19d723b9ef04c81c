-- ===== src/CanNode/State.antt =====
-- `ResetHandler::RestartCause`, as far as a CAN node uses it.
pub data RestartCause : Type 0 where
  commanded_over_can can_id_changed ota_complete : RestartCause
