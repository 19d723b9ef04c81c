-- ===== src/CanNode/Tests.antt =====
-- A node on a provisional address, and one that receives an image.
use can_systems.Prelude.{
  ℕ, ◌+◌, ◌*◌, ◌%◌, ◌≡◌, ◌↔◌, refl, arith, true, false, Bool, [], ◌∷◌, none, some, bit_and,
  replicate, All, List,
}
use can_systems.CanProtocol.Bytes.{word16}
use can_systems.CanProtocol.Frame.{no_data, cmd_of, from_of}
use can_systems.CanProtocol.IdAssign.{Obeys, unpack}
use can_systems.FlashOta
use can_systems.FlashOta.{Ota, OtaState}
use can_systems.FlashOta.Driver.{Flash}
use can_systems.CanNode.{
  CanNode, Env, Startup, Received, RestartCause, handle_rx_frame, construct, init, run_ota, send,
  response, cmd_set_can_id, cmd_ota_send,
}
use can_systems.CanNode.Readdress.{set_can_id_lem, set_can_id-init}
use can_systems.Common.Time.{has_elapsed}
use can_systems.Crc16.{get, next_all, next, rounds, shift, reset}
use can_systems.OtaResponse.{decide}
use can_systems.CanNode.{
  run, receive, announce, respond, show_silence, halted, announce_time, ping_time,
}
use can_systems.CanNode.AfterCheck.{NoPiece, passes, reboot_needs_check}
use can_systems.FlashOta.Checked.{Complete}

-- A chip of one megabyte that takes everything and reads zeros.
abbrev chip : Flash
chip = record {
  Chip = ℕ;
  capacity = λ c. 1048576;
  chip_erase = λ c. (true, c);
  busy = λ c. (false, c);
  write_bytes = λ c a xs. (true, c);
  read_bytes = λ c a n. (true, replicate n 0, c);
}

-- At the end of the check of an image of two zeros, whose checksum is 0.
abbrev checking : Ota chip
checking = record {
  chip = 0;
  first_fw_bytes = 0 ∷ 0 ∷ [];
  fw_size = 2;
  fw_crc = 0;
  flash_pointer = 2;
  crc16 = record { crc = 0; init_value = 0; polynomial = 0x1021 };
  flash_block_begin_address = 0;
  stall_timer = 0;
  ota_state = OtaState.check;
}

abbrev waiting : CanNode chip
waiting = record {
  master = 1;
  local = 0x345;
  eeprom = none;
  uid = no_data;
  announce_timer = 0;
  event_timer = 0;
  led = false;
  addressed = false;
  ota = checking;
  has_callback = false;
  last_ota_state = OtaState.check;
  sent = [];
  delivered = [];
  restart = none;
}

abbrev env : Env
env = record {
  program_memory_size = 30000;
  now = 10;
  can_save = true;
  left_by_failure = none;
  version_info = no_data;
  int_low = true;
}

abbrev startup : Startup
startup = record {
  master_can_address = 1;
  can_begins = true;
  flash_answers = true;
  unique_id = no_data;
  filter_set = true;
  restart_sent = true;
  version_sent = true;
  flushed = true;
}

-- From the master, 0x345 to 0x010.
abbrev readdress : Received
readdress = record {
  frame = record {
    ext_id = 0x345 + 9 * 1024 + 1 * 524288;
    bytes = record { d0 = 0x45; d1 = 3; d2 = 0x10; d3 = 0; d4 = 0; d5 = 0; d6 = 0; d7 = 0 };
  };
  rtr = false;
  complete = true;
}

abbrev piece : Received
piece = record {
  frame = record { ext_id = 0x345 + 5 * 1024 + 1 * 524288; bytes = no_data };
  rtr = false;
  complete = true;
}

readdress-Obeys : Obeys (unpack readdress.frame.bytes) 0x345 1 (from_of readdress.frame)
unfolding unpack word16 from_of
readdress-Obeys = record {
  from_master = refl;
  reserved = refl;
  addressed = refl;
  nonzero = omega arith;
  configured = omega arith;
  not_master = omega arith;
}

readdress-command : cmd_of readdress.frame ≡ cmd_set_can_id
unfolding cmd_of
readdress-command = refl

piece-command : cmd_of piece.frame ≡ cmd_ota_send
unfolding cmd_of
piece-command = refl

set_can_id_lem_example :
    let n' = handle_rx_frame chip env waiting readdress in
    let request = unpack readdress.frame.bytes in
    let obeys = Obeys request 0x345 1 (from_of readdress.frame) in
    ((n'.restart ≡ some RestartCause.can_id_changed) ↔ (obeys × (true ≡ true)))
    × (n'.restart ≡ some RestartCause.can_id_changed
        → n'.eeprom ≡ some (bit_and 1 0x3ff, bit_and request.new_local 0x3ff))
    × (¬ obeys → n'.eeprom ≡ none)
    × (obeys → true ≡ false → n'.eeprom ≡ none)
    × ((b : Bool) × (n'.sent ≡ (send chip waiting cmd_set_can_id (response b)).sent)
        × ((b ≡ true) ↔ (n'.restart ≡ some RestartCause.can_id_changed)))
    × (n'.local ≡ 0x345)
set_can_id_lem_example = set_can_id_lem chip env waiting readdress refl refl readdress-command refl

starts : (init chip env startup waiting).0 ≡ true
unfolding init
starts = refl

starts_again :
    (init chip env startup (construct chip (handle_rx_frame chip env waiting readdress))).0 ≡ true
unfolding init
starts_again = refl

set_can_id-init_example :
    let n' =
      (init chip env startup (construct chip (handle_rx_frame chip env waiting readdress))).1 in
    (n'.addressed ≡ true)
    × (n'.local ≡ (unpack readdress.frame.bytes).new_local)
    × (n'.master ≡ 1 % 1024)
    × (n'.restart ≡ none)
set_can_id-init_example =
    set_can_id-init chip env env startup waiting readdress refl refl readdress-command refl
      readdress-Obeys refl starts_again

-- The image has arrived; three passes check it.
abbrev arrived : CanNode chip
arrived = record waiting { ota = record checking { ota_state = OtaState.store } }

abbrev silent : Env
silent = record env { int_low = false }

abbrev check_passes : List (Env × List Received)
check_passes = (silent, []) ∷ (silent, []) ∷ (silent, []) ∷ []

nothing_arrives : All (λ (p : Env × List Received). All NoPiece p.1) check_passes
nothing_arrives = (tt, (tt, (tt, tt)))

rebooted : (passes chip arrived check_passes).restart ≡ some RestartCause.ota_complete
unfolding passes run receive announce run_ota respond show_silence halted decide has_elapsed
    ping_time announce_time FlashOta.run FlashOta.stall_timeout_time FlashOta.run_state
    FlashOta.run_check FlashOta.read_next_check_chunk FlashOta.finish_check FlashOta.is_own_fw
    FlashOta.same_bytes get next_all next rounds shift reset
rebooted = refl

reboot_needs_check_example :
    Complete chip (passes chip arrived check_passes).ota
    × ((passes chip arrived check_passes).ota.flash_block_begin_address ≡ 0)
reboot_needs_check_example =
    reboot_needs_check chip arrived check_passes refl (λ e. cc) nothing_arrives rebooted
