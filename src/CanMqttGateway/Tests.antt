-- ===== src/CanMqttGateway/Tests.antt =====
-- A gateway whose client is queued for an image of three bytes.
use can_systems.Prelude.{
  ℕ, ◌+◌, ◌-◌, ◌%◌, ◌^◌, ◌≤◌, ◌≡◌, ◌≢◌, ◌↔◌, ◌⊎◌, refl, arith, true, false, List, [], ◌∷◌, Option,
  none, some, length, take, drop, All,
}
use can_systems.CanProtocol.Frame.{CanFrame, no_data, make_frame, to_of, cmd_of, from_of}
use can_systems.Common.Time.{has_elapsed}
use can_systems.CanProtocol.IdAssign.{is_acceptable, is_assignable_id, unpack}
use can_systems.CanNode.{cmd_set_can_id}
use can_systems.CanCommissioner.{Handler}
use can_systems.OtaRegistry.{
  OtaRegistry, queued, online, unqueue, any_in_progress, claim_start, no_image,
}
use can_systems.CanOta
use can_systems.CanOta.Driver.{FileSystem}
use can_systems.CanOta.{Env, is_ota_in_progress, start_ota, start_file, run_ota, run_state}
use can_systems.CanMqttGateway.{
  CanMqttGateway, new, init, handle_ping, answering, run, can_frame_arrived_callback,
  request_can_id_change, client_ping_time, client_offline_time,
}
use can_systems.CanMqttGateway.Availability.{
  Event, IsQuiet, last_told, steps, steps-init, silent_client,
}
use can_systems.CanMqttGateway.Turn.{transfer_in_turn}
use can_systems.CanMqttGateway.Address.{request_can_id_change-obeyed}

-- A file is its bytes and the position in them.
abbrev files : FileSystem
files = record {
  File = List ℕ × ℕ;
  size = λ f. length f.0;
  available = λ f. length (drop f.1 f.0);
  read = λ f n. (take n (drop f.1 f.0), (f.0, f.1 + n));
  seek = λ f n. (f.0, n);
}

abbrev at : ℕ → Env
at now = record { now = now; can_send = true }

abbrev gateway : CanMqttGateway files
gateway = new files 7 0x20 1 (some (b'/' ∷ b'a' ∷ []))

abbrev hello : CanFrame
hello = make_frame 1 0 0x20 no_data

abbrev registry : OtaRegistry
registry = record {
  targets =
      record {
        id = 7;
        fw_file_name = some (b'/' ∷ b'a' ∷ []);
        is_online = false;
        is_in_progress = false;
        ota_queued = true;
      }
      ∷ [];
  batch_image = no_image;
}

abbrev day : List (Event files)
day =
    Event.arrives (at 100) hello
    ∷ Event.passes (at 6000) true none registry
    ∷ Event.arrives (at 6100) hello
    ∷ []

steps-init_example :
    let s' = steps files (init files (at 5) true gateway).1 day in
    last_told s'.published ≡ some s'.client_online
steps-init_example = steps-init files (at 5) true gateway day

abbrev quiet : List (Event files)
quiet = Event.passes (at 1200) true none registry ∷ []

quiet-IsQuiet : All (IsQuiet files) quiet
unfolding IsQuiet
quiet-IsQuiet = (tt, tt)

silent_client_example :
    let s' = steps files (can_frame_arrived_callback files (at 100) gateway hello) quiet in
    ((run files (at 104) true s' none registry).1.client_online ≡ true)
    ↔ ((4294967400 - 100) % 2 ^ 32 ≤ 5000)
silent_client_example =
    silent_client files (at 100) (at 104) gateway hello quiet 100 4294967400 true none registry
      quiet-IsQuiet (omega arith) refl refl

abbrev seen : CanMqttGateway files
seen = record gateway {
  client_ever_seen = true;
  client_offline_timer = 100;
  client_ping_timer = 100;
}

abbrev image_file : Option (List ℕ × ℕ)
image_file = some (1 ∷ 2 ∷ 3 ∷ [], 0)

seen-idle : is_ota_in_progress files seen.can_ota ≡ false
unfolding new CanOta.new is_ota_in_progress
seen-idle = refl

begins :
    is_ota_in_progress files (run files (at 200) true seen image_file registry).1.can_ota ≡ true
unfolding new CanOta.new run claim_start queued online unqueue any_in_progress start_ota start_file
    run_ota is_ota_in_progress has_elapsed CanOta.ota_timeout_time client_ping_time
    client_offline_time CanOta.checksum_or_send_start CanOta.image_known CanOta.bytes_left
    CanOta.read_file_piece
begins = refl

transfer_in_turn_example :
    (queued 7 registry.targets ≡ true)
    × ((run files (at 200) true seen image_file registry).1.client_online ≡ true)
    × (any_in_progress (answering files (handle_ping files (at 200) seen) registry.targets) ≡ false)
    × (queued 7 (run files (at 200) true seen image_file registry).2.targets ≡ false)
unfolding new
transfer_in_turn_example =
    transfer_in_turn files (at 200) true seen image_file registry seen-idle begins

abbrev handler : Handler
handler = record { local = 1; master = 0; is_registered = λ id. false; can_send = true }

asked : (request_can_id_change files (at 9) handler gateway 0x30).0 ≡ true
unfolding request_can_id_change new CanOta.new is_assignable_id
asked = refl

request_can_id_change-obeyed_example :
    (f : CanFrame) × ((request_can_id_change files (at 9) handler gateway 0x30).1.sent
      ≡ f ∷ gateway.sent)
    × (to_of f ≡ 0x20)
    × (cmd_of f ≡ cmd_set_can_id)
    × ((unpack f.bytes).new_local ≡ 0x30)
    × (is_acceptable (unpack f.bytes) 0x20 1 (from_of f) ≡ true)
    × (is_assignable_id 0x30 ≡ true)
    × ((0x30 ≡ gateway.can_ota.client_can_id)
        ⊎ ((0x30 ≢ handler.master) × (handler.is_registered 0x30 ≡ false)))
unfolding new CanOta.new
request_can_id_change-obeyed_example =
    request_can_id_change-obeyed files (at 9) handler gateway 0x30 (omega arith) (omega arith) refl
      (omega arith) asked
