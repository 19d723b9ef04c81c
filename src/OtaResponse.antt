-- ===== src/OtaResponse.antt =====
-- lib/canHandler/src/otaCanResponse.hpp: what a node answers to the gateway when its storage has moved
-- on, and whether it reboots into the new firmware.
use can_systems.Prelude.{Bool, true, false, if◌then◌else◌}
use can_systems.FlashOta.State.{OtaState}

-- `OtaCanResponse::Action`.
pub data Action : Type 0 where
  none ack_start ack_end nack_end : Action

pub record Decision : Type 0 where
  pub action : Action
  pub reboot : Bool

unfoldable pub is_start : OtaState → Bool
is_start OtaState.start = true
is_start _ = false

-- `decide`, by the state after the step.
unfoldable pub decide : OtaState → OtaState → Bool → Decision
unfolding is_start
decide prev OtaState.store is_own_fw = record {
  action = if is_start prev then Action.ack_start else Action.none;
  reboot = false;
}
decide prev OtaState.valid is_own_fw = record { action = Action.ack_end; reboot = is_own_fw }
decide prev OtaState.invalid is_own_fw = record { action = Action.nack_end; reboot = false }
decide prev _ is_own_fw = record { action = Action.none; reboot = false }
