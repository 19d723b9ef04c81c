-- ===== src/MqttCommon.antt =====
-- class MqttCommon of lib/mqttCommon/src: the messages that every MQTT device takes, a reboot command
-- and the upload of a file or a firmware. A message is its JSON fields, each there with the right type
-- or not; the results that are sent are recorded, newest first.
pub mod Reports
pub mod Restart
pub mod Pending
mod Tests
use can_systems.Prelude.{
  ℕ, Bool, true, false, not, ◌&&◌, List, [], ◌∷◌, Option, none, some, if◌then◌else◌, take,
}
use can_systems.Common.FileName.{codes, same_text, is_own_firmware_file_name}
use can_systems.OtaRegistry.{OtaRegistry, queue_for_file, is_file_in_use}
use can_systems.DataTransfer.Driver.{Platform}
use can_systems.DataTransfer
use can_systems.DataTransfer.{DataTransfer, store_base64, run_validity_check, get_error_code}

pub record Message : Type 0 where
  pub bin_id : Option (List ℕ)
  pub name : Option (List ℕ)
  pub file_size : Option ℕ
  pub md5 : Option (List ℕ)
  pub piece : Option ℕ
  pub file_data : Option (List ℕ)
  pub cmd : Option (List ℕ)

abbrev pub max_cmd_length : ℕ
max_cmd_length = 16

unfoldable pub cmd_reboot : List ℕ
cmd_reboot = codes "reboot"

-- The fields, with the registry that the targets share, and whether the device has halted for its
-- restart. `env` is the name of the build.
module _ (p : Platform) (env : List ℕ) where
  pub record MqttCommon : Type 0 where
    pub is_file_check_done : Bool
    pub is_file_valid : Bool
    pub is_restart_required : Bool
    pub transfer : DataTransfer p
    pub registry : OtaRegistry
    pub sent : List (Bool × ℕ)
    pub halted : Bool

  -- `fileValidCb`, for each call of it that the transfer has recorded.
  unfoldable pub file_valid_cb : List Bool → MqttCommon → MqttCommon
  file_valid_cb [] s = s
  file_valid_cb (is_valid ∷ earlier) s = record s {
    is_file_check_done = true;
    is_file_valid = is_valid;
  }

  -- The transfer after a call.
  unfoldable pub after_call : MqttCommon → DataTransfer p → MqttCommon
  unfolding file_valid_cb
  after_call s t = file_valid_cb t.reported (record s { transfer = record t { reported = [] } })

  unfoldable pub send_result : MqttCommon → Bool → ℕ → MqttCommon
  send_result s result err_code = record s { sent = (result, err_code) ∷ s.sent }

  unfoldable pub reboot : MqttCommon → MqttCommon
  reboot s = record s { halted = true }

  unfoldable pub handle_reboot : MqttCommon → MqttCommon
  unfolding send_result reboot
  handle_reboot s = reboot (send_result s true 0)

  unfoldable pub dispatch_command : MqttCommon → List ℕ → MqttCommon
  unfolding handle_reboot send_result
  dispatch_command s cmd =
      if same_text (take max_cmd_length cmd) (take max_cmd_length cmd_reboot)
      then handle_reboot s
      else send_result s false 0

  -- `getErrorCode`, and the response.
  unfoldable pub answer : MqttCommon → Bool → MqttCommon
  unfolding send_result
  answer s result =
      let (code, t) = get_error_code p s.transfer in
      send_result (record s { transfer = t }) result code

  -- Whether the image is of this build, when the message says of which it is.
  unfoldable pub right_build : Option (List ℕ) → Bool
  right_build none = true
  right_build (some bin_id) = same_text bin_id env

  abbrev pub is_some : Option (List ℕ) → Bool
  is_some none = false
  is_some (some x) = true

  unfoldable pub begin_file : ℕ → MqttCommon → Option (List ℕ) → List ℕ → ℕ → List ℕ → MqttCommon
  unfolding send_result right_build after_call answer
  begin_file now s bin_id name file_size md5 =
      if is_own_firmware_file_name name && not (is_some bin_id)
      then send_result s false 0
      else (if not (right_build bin_id)
          then send_result s false 0
          else (let asked = record s.transfer {
            file_in_use = some (λ file. is_file_in_use (some file) s.registry);
          } in
              let (begun, t) = DataTransfer.begin p now asked file_size (some md5) (some name) in
              let s1 = after_call s t in
              let s2 =
                if begun
                then record s1 { is_restart_required = s1.transfer.is_fw_transfer }
                else s1 in
              answer s2 begun))

  unfoldable pub store_piece : ℕ → MqttCommon → ℕ → List ℕ → MqttCommon
  unfolding after_call answer
  store_piece now s number text =
      let (stored, t) = store_base64 p now s.transfer number (some text) in
      answer (after_call s t) stored

  -- The second part of `messageArrivedCallback`.
  unfoldable pub piece_arrived : ℕ → MqttCommon → Option ℕ → Option (List ℕ) → MqttCommon
  unfolding store_piece
  piece_arrived now s (some number) (some text) = store_piece now s number text
  piece_arrived now s none text = s
  piece_arrived now s (some number) none = s

  unfoldable pub file_arrived :
      ℕ → MqttCommon → Message → Option (List ℕ) → Option ℕ → Option (List ℕ) → MqttCommon
  unfolding begin_file piece_arrived
  file_arrived now s m (some name) (some file_size) (some md5) =
      begin_file now s m.bin_id name file_size md5
  file_arrived now s m none size md5 = piece_arrived now s m.piece m.file_data
  file_arrived now s m (some name) none md5 = piece_arrived now s m.piece m.file_data
  file_arrived now s m (some name) (some file_size) none = piece_arrived now s m.piece m.file_data

  unfoldable pub command_or_file : ℕ → MqttCommon → Message → Option (List ℕ) → MqttCommon
  unfolding dispatch_command file_arrived
  command_or_file now s m (some cmd) = dispatch_command s cmd
  command_or_file now s m none = file_arrived now s m m.name m.file_size m.md5

  unfoldable pub message_arrived_callback : ℕ → MqttCommon → Message → MqttCommon
  unfolding command_or_file
  message_arrived_callback now s m = command_or_file now s m m.cmd

  -- What `run` does with the result of a check.
  unfoldable pub take_result : MqttCommon → MqttCommon
  unfolding send_result reboot answer
  take_result s =
      if s.is_file_check_done
      then (let s1 = answer (record s { is_file_check_done = false }) s.is_file_valid in
          if not s.is_file_valid
          then s1
          else (if s.is_restart_required then reboot s1 else record s1 {
            registry = queue_for_file (some s1.transfer.file_name) s1.registry;
          }))
      else s

  -- A device that restarts does not come back from `restartMCU`.
  unfoldable pub run : ℕ → MqttCommon → MqttCommon
  unfolding take_result after_call
  run now s =
      let s' = take_result s in
      if s'.halted then s' else after_call s' (run_validity_check p now s'.transfer)
