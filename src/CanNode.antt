-- ===== src/CanNode.antt =====
-- class CanHandlerAtmega328P of lib/canHandler/src: a node's task on the bus. It answers the frames
-- that arrive, announces itself while it has no address, and runs the storage of an image.
pub mod State
pub mod Readdress
pub mod Session
pub mod AfterCheck
mod Tests
use can_systems.Prelude.{
  ℕ, ◌+◌, ◌%◌, ◌^◌, Bool, true, false, not, ◌&&◌, List, [], ◌∷◌, Option, none, some, ◌==◌,
  if◌then◌else◌, bit_and,
}
use can_systems.Common.Time.{has_elapsed, sec_to_ms}
use can_systems.CanProtocol.Frame.{Data, no_data, CanFrame, make_frame, cmd_of, from_of}
use can_systems.CanProtocol.OtaFrame.{unpack_start, unpack_send}
use can_systems.CanProtocol.IdAssign
use can_systems.CanFramePump
use can_systems.FlashOta.Driver.{Flash}
use can_systems.FlashOta
use can_systems.FlashOta.{Ota, OtaState}
use can_systems.OtaResponse.{Action, Decision, decide}
pub use State.{RestartCause}

abbrev pub can_id_filter_mask : ℕ
can_id_filter_mask = 0x3ff

-- `CanCmd`.
abbrev pub cmd_ping : ℕ
cmd_ping = 0

abbrev pub cmd_restart : ℕ
cmd_restart = 1

abbrev pub cmd_fw_version : ℕ
cmd_fw_version = 2

abbrev pub cmd_ota_start : ℕ
cmd_ota_start = 4

abbrev pub cmd_ota_send : ℕ
cmd_ota_send = 5

abbrev pub cmd_ota_end : ℕ
cmd_ota_end = 6

abbrev pub cmd_set_can_id : ℕ
cmd_set_can_id = 9

abbrev pub cmd_announce : ℕ
cmd_announce = 10

-- `Response` as the first byte of the data.
unfoldable pub response : Bool → Data
response ack = record no_data { d0 = if ack then 1 else 0 }

unfoldable pub announce_time : ℕ
unfolding sec_to_ms
announce_time = sec_to_ms 5

unfoldable pub ping_time : ℕ
unfolding sec_to_ms
ping_time = sec_to_ms 2

abbrev pub max_rx_frames_per_run : ℕ
max_rx_frames_per_run = 4

-- A frame in the controller: what `packetRtr` answers, and whether `readBytes` gave all the data; the
-- bytes that a short frame has not are zeros.
pub record Received : Type 0 where
  pub frame : CanFrame
  pub rtr : Bool
  pub complete : Bool

-- What a pass finds outside: the clock, whether a save into the EEPROM succeeds, the ids that the EEPROM
-- holds after a save that fails, the version information, and the level of the controller's INT line.
pub record Env : Type 0 where
  pub program_memory_size : ℕ
  pub now : ℕ
  pub can_save : Bool
  pub left_by_failure : Option (ℕ × ℕ)
  pub version_info : Data
  pub int_low : Bool

-- What `init` finds: MASTER_CAN_ADDRESS of the build, whether the controller starts, whether the flash
-- answers and its unique id, whether the filter is set, and what the two sends and the flush answer.
pub record Startup : Type 0 where
  pub master_can_address : ℕ
  pub can_begins : Bool
  pub flash_answers : Bool
  pub unique_id : Data
  pub filter_set : Bool
  pub restart_sent : Bool
  pub version_sent : Bool
  pub flushed : Bool

abbrev pub bytes_of : Data → List ℕ
bytes_of d = d.d0 ∷ d.d1 ∷ d.d2 ∷ d.d3 ∷ d.d4 ∷ d.d5 ∷ d.d6 ∷ d.d7 ∷ []

module _ (flash : Flash) where
  -- The object's state, with the ids; `eeprom` holds the ids that are stored, `sent` and `delivered`
  -- what was given to the bus and to the callback, newest first. A node with a `restart` has halted.
  pub record CanNode : Type 0 where
    pub master : ℕ
    pub local : ℕ
    pub eeprom : Option (ℕ × ℕ)
    pub uid : Data
    pub announce_timer : ℕ
    pub event_timer : ℕ
    pub led : Bool
    pub addressed : Bool
    pub ota : Ota flash
    pub has_callback : Bool
    pub last_ota_state : OtaState
    pub sent : List CanFrame
    pub delivered : List (ℕ × Data)
    pub restart : Option RestartCause

  -- The constructor, on a node that starts: what lasts is what the EEPROM and the flash chip hold, with
  -- what has gone to the bus and to the callback.
  unfoldable pub construct : CanNode → CanNode
  construct n = record n {
    master = 0;
    local = 0;
    uid = no_data;
    announce_timer = 0;
    event_timer = 0;
    led = false;
    addressed = true;
    ota = FlashOta.init flash n.ota.chip;
    has_callback = false;
    last_ota_state = OtaState.idle;
    restart = none;
  }

  -- `send(command, data)`: what the bus does with the frame is not looked at.
  unfoldable pub send : CanNode → ℕ → Data → CanNode
  send n command d = record n { sent = make_frame n.master command n.local d ∷ n.sent }

  -- `restartMCU` does not return.
  abbrev pub restart_mcu : CanNode → RestartCause → CanNode
  restart_mcu n cause = record n { restart = some cause }

  -- `setCanIds`.
  abbrev pub set_can_ids : CanNode → ℕ → ℕ → CanNode
  set_can_ids n master local = record n {
    master = bit_and master can_id_filter_mask;
    local = bit_and local can_id_filter_mask;
  }

  -- `storeCanIds`: a save writes first and then verifies, so one that fails may have changed what the
  -- EEPROM holds, or damaged it. The ids in use stay.
  abbrev pub store_can_ids : Env → CanNode → ℕ → ℕ → CanNode
  store_can_ids env n master local =
      if env.can_save
      then record n {
        eeprom = some (bit_and master can_id_filter_mask, bit_and local can_id_filter_mask);
      }
      else record n { eeprom = env.left_by_failure }

  -- The stored ids, or a provisional address; the ids are masked to ten bits by `setCanIds`.
  unfoldable pub load_ids : Startup → CanNode → CanNode
  load_ids su n = elim n.eeprom [
    | none ↦
        set_can_ids (record n { addressed = false }) su.master_can_address
          (IdAssign.provisional_id (bytes_of n.uid))
    | some ids ↦ record n { addressed = true; master = ids.0; local = ids.1 }
  ]

  -- `&&` sends the version only if the first send went well.
  unfoldable pub announce_startup : Env → Startup → CanNode → CanNode
  unfolding send
  announce_startup env su n =
      let n' = send n cmd_restart no_data in
      if su.restart_sent then send n' cmd_fw_version env.version_info else n'

  unfoldable pub init : Env → Startup → CanNode → Bool × CanNode
  init env su n =
      if not su.can_begins
      then (false, n)
      else (let n1 =
            load_ids su (if su.flash_answers then record n { uid = su.unique_id } else n) in
          if not su.filter_set
          then (false, n1)
          else (let n2 = announce_startup env su n1 in
              if not (su.restart_sent && su.version_sent && su.flushed)
              then (false, n2)
              else (if not su.flash_answers
                  then (false, n2)
                  else (true, record n2 { event_timer = env.now }))))

  unfoldable pub on_ota_start : Env → CanNode → Data → CanNode
  unfolding send
  on_ota_start env n d =
      let f = unpack_start d in
      let (started, ota) =
        FlashOta.start flash env.program_memory_size env.now n.ota f.storage_number f.fw_size
          f.fw_crc in
      let n' = record n { ota = ota } in
      if not started then send n' cmd_ota_start (response false) else n'

  unfoldable pub on_ota_send : Env → CanNode → Data → CanNode
  unfolding send
  on_ota_send env n d =
      let f = unpack_send d in
      let (stored, ota) = FlashOta.store_next_data flash env.now n.ota f.sequence f.piece in
      send (record n { ota = ota }) cmd_ota_send (response stored)

  -- `storeCanIds`, then the answer, then the restart.
  unfoldable pub on_set_can_id : Env → CanNode → CanFrame → CanNode
  unfolding send
  on_set_can_id env n f =
      let request = IdAssign.unpack f.bytes in
      if not (IdAssign.is_acceptable request n.local n.master (from_of f))
      then send n cmd_set_can_id (response false)
      else (let n' =
            send (store_can_ids env n n.master request.new_local) cmd_set_can_id
              (response env.can_save) in
          if env.can_save then restart_mcu n' RestartCause.can_id_changed else n')

  -- The `switch` on the command.
  unfoldable pub dispatch : Env → CanNode → CanFrame → CanNode
  unfolding send
  dispatch env n f =
      if cmd_of f == cmd_ping
      then send n cmd_ping no_data
      else (if cmd_of f == cmd_restart
          then restart_mcu n RestartCause.commanded_over_can
          else (if cmd_of f == cmd_fw_version
              then send n cmd_fw_version env.version_info
              else (if cmd_of f == cmd_ota_start
                  then on_ota_start env n f.bytes
                  else (if cmd_of f == cmd_ota_send
                      then on_ota_send env n f.bytes
                      else (if cmd_of f == cmd_ota_end
                          then n
                          else (if cmd_of f == cmd_set_can_id
                              then on_set_can_id env n f
                              else (if n.has_callback
                                  then record n { delivered = (cmd_of f, f.bytes) ∷ n.delivered }
                                  else n)))))))

  unfoldable pub handle_rx_frame : Env → CanNode → Received → CanNode
  handle_rx_frame env n rx =
      if rx.rtr
      then dispatch env n (record rx.frame { bytes = no_data })
      else (if not rx.complete then n else dispatch env n rx.frame)

  unfoldable pub halted : CanNode → Bool
  halted n = elim n.restart [ none ↦ false | some cause ↦ true ]

  -- The two callables of `drain`: the frames in the controller are the rest of the list.
  unfoldable pub take_frame :
      CanNode × Option Received × List Received → Bool × (CanNode × Option Received × List Received)
  take_frame (n, rx, []) = (false, (n, rx, []))
  take_frame (n, rx, (r ∷ rs)) =
      if halted n then (false, (n, rx, r ∷ rs)) else (true, (n, some r, rs))

  unfoldable pub handle_frame :
      Env
      → CanNode × Option Received × List Received
      → Bool × (CanNode × Option Received × List Received)
  handle_frame env (n, none, rs) = (true, (n, none, rs))
  handle_frame env (n, some r, rs) = (true, (handle_rx_frame env n r, none, rs))

  -- The node that is left, and the frames that are.
  unfoldable pub receive : Env → CanNode → List Received → CanNode × List Received
  receive env n rs =
      if env.int_low
      then (let (_, (n', _, rs')) =
            CanFramePump.drain take_frame (handle_frame env) max_rx_frames_per_run
              (record n { event_timer = env.now; led = false }, none, rs) in
          (n', rs'))
      else (n, rs)

  unfoldable pub announce : Env → CanNode → CanNode
  unfolding send
  announce env n =
      if not n.addressed && has_elapsed env.now n.announce_timer announce_time
      then send (record n { announce_timer = env.now }) cmd_announce n.uid
      else n

  unfoldable pub respond : CanNode → Action → CanNode
  unfolding send
  respond n Action.none = n
  respond n Action.ack_start = send n cmd_ota_start (response true)
  respond n Action.ack_end = send n cmd_ota_end (response true)
  respond n Action.nack_end = send n cmd_ota_end (response false)

  unfoldable pub run_ota : Env → CanNode → CanNode
  run_ota env n =
      let ota = FlashOta.run flash env.now n.ota in
      let decision = decide n.last_ota_state ota.ota_state (FlashOta.is_own_fw flash ota) in
      let n' = respond (record n { ota = ota }) decision.action in
      if decision.reboot
      then restart_mcu n' RestartCause.ota_complete
      else record n' { last_ota_state = ota.ota_state }

  unfoldable pub show_silence : Env → CanNode → CanNode
  show_silence env n =
      if not (halted n) && has_elapsed env.now n.event_timer ping_time
      then record n { led = true }
      else n

  unfoldable pub run : Env → CanNode → List Received → CanNode × List Received
  run env n rs =
      let (n', rs') = receive env n rs in
      (if halted n' then n' else show_silence env (run_ota env (announce env n')), rs')
