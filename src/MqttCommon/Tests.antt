-- ===== src/MqttCommon/Tests.antt =====
-- A device whose upload has ended, in a file system in memory.
use can_systems.Prelude.{ℕ, ◌≡◌, refl, true, false, List, [], none, some}
use can_systems.Common.FileName.{
  codes, same_text, is_own_firmware_file_name, ota_fw_location, is_valid_file_name, is_one_of,
  allowed_locations,
}
use can_systems.OtaRegistry.{no_image, is_file_in_use, in_use}
use can_systems.DataTransfer.Memory.{memory}
use can_systems.DataTransfer.{new, begin, check_request, in_use_by}
use can_systems.MqttCommon.{
  MqttCommon, Message, run, begin_file, message_arrived_callback, cmd_reboot,
}
use can_systems.MqttCommon.Restart.{Settled, Reason, restart_needs_reason}
use can_systems.MqttCommon.Pending.{restart_before_image}

abbrev env : List ℕ
env = codes "esp32"

abbrev settled : MqttCommon memory env
settled = record {
  is_file_check_done = false;
  is_file_valid = false;
  is_restart_required = false;
  transfer = new memory true none [] (λ _. []) (false, []);
  registry = record { targets = []; batch_image = no_image };
  sent = [];
  halted = false;
}

settled-Settled : Settled memory env settled
unfolding new
settled-Settled = record { running = refl; answered = refl; quiet = refl }

abbrev reboot_message : Message
reboot_message = record {
  bin_id = none;
  name = none;
  file_size = none;
  md5 = none;
  piece = none;
  file_data = none;
  cmd = some (codes "reboot");
}

reboots :
    (run memory env 8 (message_arrived_callback memory env 7 settled reboot_message)).halted ≡ true
unfolding run message_arrived_callback cmd_reboot same_text
reboots = refl

restart_needs_reason_example : Reason memory env settled reboot_message
restart_needs_reason_example =
    restart_needs_reason memory env 7 8 settled reboot_message settled-Settled reboots

-- A file has been checked, and its result is not sent yet.
abbrev checked : MqttCommon memory env
checked = record settled { is_file_check_done = true; is_file_valid = true }

own : is_own_firmware_file_name (codes "espFirmware") ≡ true
unfolding is_own_firmware_file_name same_text ota_fw_location
own = refl

right_env : same_text (codes "esp32") env ≡ true
unfolding same_text
right_env = refl

accepted :
    (begin memory 7
      (record checked.transfer {
        file_in_use = some (λ file. is_file_in_use (some file) checked.registry);
      })
      1000
      (some (codes "0123"))
      (some (codes "espFirmware"))).0
    ≡ true
unfolding begin check_request in_use_by is_valid_file_name same_text is_one_of allowed_locations
    ota_fw_location is_own_firmware_file_name new is_file_in_use in_use
accepted = refl

restart_before_image_example :
    let s' =
      begin_file memory env 7 checked
        (some (codes "esp32"))
        (codes "espFirmware")
        1000
        (codes "0123") in
    ((run memory env 8 s').halted ≡ true)
    × (s'.transfer.next_file_piece_number ≡ 0)
    × (s'.transfer.remaining_file_size ≡ 1000)
unfolding new
restart_before_image_example =
    restart_before_image memory env 7 8 checked (codes "esp32") (codes "espFirmware") (codes "0123")
      1000 refl refl refl own right_env accepted
