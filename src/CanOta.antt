-- ===== src/CanOta.antt =====
-- class CanOta of lib/canMqttGateway/src: the gateway's side of a transfer. It reads an image from a
-- file, first for its checksum, then piece by piece, and sends the next piece when the node has
-- acknowledged the one before.
pub mod State
pub mod Driver
pub mod Outcome
mod Tests
use can_systems.Prelude.{
  ℕ, ◌+◌, ◌-◌, ◌%◌, ◌^◌, Bool, true, false, not, ◌&&◌, ◌||◌, List, [], ◌∷◌, Option, none, some, ltb,
  leb, ◌==◌, if◌then◌else◌, length, get_or, min,
}
use can_systems.Common.Time.{has_elapsed, min_to_ms}
use can_systems.Common.ErrorState.{ErrorState, set_error, get_raw_error_state}
use can_systems.Crc16
use can_systems.Crc16.{Crc16}
use can_systems.CanProtocol.Frame.{Data, no_data, CanFrame, make_frame, cmd_of}
use can_systems.CanProtocol.OtaFrame.{pack_start, pack_send, data_piece_size}
use can_systems.CanNode.{cmd_ota_start, cmd_ota_send, cmd_ota_end}
use can_systems.OtaRegistry.{Image}
use Driver.{FileSystem}
pub use State.{TransferState, OtaStartError, start_error_bit}

unfoldable pub ota_timeout_time : ℕ
unfolding min_to_ms
ota_timeout_time = min_to_ms 5

abbrev pub read_buffer_size : ℕ
read_buffer_size = 64

abbrev pub file_piece_size : ℕ
file_piece_size = data_piece_size

-- The clock, and whether the transmit queue takes a frame.
pub record Env : Type 0 where
  pub now : ℕ
  pub can_send : Bool

abbrev pub is_idle : TransferState → Bool
is_idle TransferState.idle = true
is_idle _ = false

abbrev pub is_waiting : TransferState → Bool
is_waiting TransferState.wait_for_ack = true
is_waiting _ = false

-- `otaInProgress` in `runOta`.
abbrev pub can_time_out : TransferState → Bool
can_time_out TransferState.start = true
can_time_out TransferState.store = true
can_time_out TransferState.wait_for_ack = true
can_time_out _ = false

-- The raw value of an error state in which one error has been set.
unfoldable pub start_failed : OtaStartError → ℕ
unfolding set_error get_raw_error_state start_error_bit
start_failed e = get_raw_error_state (set_error (record { error_state = 0 }) (start_error_bit e))

module _ (fs : FileSystem) where
  open fs use {File, size, available, read, seek}

  -- The object's fields, with the two ids that its frames carry. `shared_image` is what the pointer
  -- points to; `sent` are the frames that the queue has taken and `reported` the results that went to
  -- the server, newest first.
  pub record CanOta : Type 0 where
    pub client_can_id : ℕ
    pub local_can_id : ℕ
    pub received_file : Option File
    pub frame_number : ℕ
    pub storage_number : ℕ
    pub file_size : ℕ
    pub transfer_state : TransferState
    pub crc16 : Crc16
    pub ota_timeout_timer : ℕ
    pub file_name : Option (List ℕ)
    pub image_crc : ℕ
    pub image_crc_known : Bool
    pub shared_image : Option Image
    pub sent : List CanFrame
    pub reported : List Bool

  -- The constructor.
  unfoldable pub new : ℕ → ℕ → CanOta
  new client_can_id local_can_id = record {
    client_can_id = client_can_id;
    local_can_id = local_can_id;
    received_file = none;
    frame_number = 0;
    storage_number = 0;
    file_size = 0;
    transfer_state = TransferState.idle;
    crc16 = Crc16.new Crc16.default_init_value Crc16.default_polynomial;
    ota_timeout_timer = 0;
    file_name = none;
    image_crc = 0;
    image_crc_known = false;
    shared_image = none;
    sent = [];
    reported = [];
  }

  unfoldable pub is_ota_in_progress : CanOta → Bool
  is_ota_in_progress s = not (is_idle s.transfer_state)

  -- Whether the shared facts describe a file of this size.
  unfoldable pub image_known : Option Image → ℕ → Bool
  image_known none file_size = false
  image_known (some image) file_size = image.valid && image.size == file_size

  unfoldable pub shared_crc : Option Image → ℕ
  shared_crc none = 0
  shared_crc (some image) = image.crc

  -- What follows once the file is open.
  unfoldable pub start_file : ℕ → CanOta → File → ℕ → Option Image → ℕ × CanOta
  start_file now s file storage_number image =
      if size file == 0
      then (
        start_failed OtaStartError.file_empty,
        record s { received_file = none; file_size = 0; transfer_state = TransferState.invalid },
      )
      else (
        0,
        record s {
          received_file = some file;
          file_size = size file;
          frame_number = 0;
          storage_number = storage_number;
          transfer_state = TransferState.start;
          crc16 = Crc16.reset s.crc16;
          shared_image = image;
          image_crc_known = image_known image (size file);
          image_crc = if image_known image (size file) then shared_crc image else 0;
          ota_timeout_timer = now;
        },
      )

  -- `opened` is what `LittleFS.open` gives for the name.
  unfoldable pub start_ota :
      ℕ → CanOta → Option (List ℕ) → Option File → ℕ → Option Image → ℕ × CanOta
  start_ota now s none opened storage_number image =
      if is_ota_in_progress s
      then (start_failed OtaStartError.already_in_progress, s)
      else (start_failed OtaStartError.file_name_nullptr, s)
  start_ota now s (some name) opened storage_number image =
      if is_ota_in_progress s
      then (start_failed OtaStartError.already_in_progress, s)
      else (if not (get_or name 0 0 == b'/')
          then (start_failed OtaStartError.file_location_invalid, s)
          else (let s' = record s { file_name = some name; received_file = none } in
              elim opened [
                | none ↦ (
                  start_failed OtaStartError.file_open_failed,
                  record s' { transfer_state = TransferState.invalid },
                )
                | some file ↦ start_file now s' file storage_number image
              ]))

  unfoldable pub handle_ota_can_frames : CanOta → CanFrame → CanOta
  handle_ota_can_frames s f =
      let ack = f.bytes.d0 == 1 in
      if not (is_waiting s.transfer_state)
      then s
      else (if cmd_of f == cmd_ota_start || cmd_of f == cmd_ota_send
          then record s {
            transfer_state = if ack then TransferState.store else TransferState.invalid;
          }
          else (if cmd_of f == cmd_ota_end
              then record s {
                transfer_state = if ack then TransferState.valid else TransferState.invalid;
              }
              else s))

  -- `receivedFile.available()`.
  unfoldable pub bytes_left : CanOta → ℕ
  bytes_left s = elim s.received_file [ none ↦ 0 | some file ↦ available file ]

  -- What `readFilePiece` returns, the bytes in its buffer, and the object.
  unfoldable pub read_file_piece : CanOta → ℕ → Bool × List ℕ × CanOta
  read_file_piece s n = elim s.received_file [
    | none ↦ (false, [], record s { transfer_state = TransferState.invalid })
    | some file ↦
        (let (bytes, file') = read file n in
          if length bytes == n then (true, bytes, record s { received_file = some file' }) else (
            false,
            bytes,
            record s { received_file = some file'; transfer_state = TransferState.invalid },
          ))
  ]

  -- A frame for the client, and the state after it.
  unfoldable pub send_frame : Env → CanOta → ℕ → Data → CanOta
  send_frame env s command d =
      if env.can_send
      then record s {
        sent = make_frame s.client_can_id command s.local_can_id d ∷ s.sent;
        transfer_state = TransferState.wait_for_ack;
      }
      else record s { transfer_state = TransferState.invalid }

  unfoldable pub send_start : Env → CanOta → CanOta
  unfolding send_frame
  send_start env s =
      send_frame env
        (record s {
          received_file = elim s.received_file [ none ↦ none | some f ↦ some (seek f 0) ];
        })
        cmd_ota_start
        (pack_start (record {
          storage_number = s.storage_number;
          fw_size = s.file_size;
          fw_crc = s.image_crc;
        }))

  -- The checksum is known, and left for the other targets.
  unfoldable pub settle_checksum : CanOta → CanOta
  settle_checksum s = record s {
    image_crc = Crc16.get s.crc16;
    image_crc_known = true;
    shared_image = elim s.shared_image [
      | none ↦ none
      | some image ↦ some (record { size = s.file_size; crc = Crc16.get s.crc16; valid = true })
    ];
  }

  unfoldable pub checksum_or_send_start : Env → CanOta → CanOta
  checksum_or_send_start env s =
      if s.image_crc_known
      then send_start env s
      else (if ltb 0 (bytes_left s)
          then (let (good, bytes, s') = read_file_piece s (min (bytes_left s) read_buffer_size) in
              if not good then s' else record s' { crc16 = Crc16.next_all s'.crc16 bytes })
          else send_start env (settle_checksum s))

  unfoldable pub send_next_piece : Env → CanOta → CanOta
  send_next_piece env s =
      if bytes_left s == 0
      then record s { transfer_state = TransferState.wait_for_ack }
      else (let n = min (bytes_left s) file_piece_size in
          let (good, bytes, s') = read_file_piece s n in
          if not good
          then s'
          else send_frame env (record s' { frame_number = (s.frame_number + n) % 2 ^ 32 })
              cmd_ota_send
              (pack_send (record { piece = bytes; sequence = s.frame_number % 2 ^ 8 })))

  -- VALID and INVALID: the result is reported, and everything is put back.
  unfoldable pub finish : Bool → CanOta → CanOta
  finish status s = record s {
    reported = status ∷ s.reported;
    received_file = none;
    frame_number = 0;
    storage_number = 0;
    file_size = 0;
    transfer_state = TransferState.idle;
    crc16 = Crc16.reset s.crc16;
    file_name = none;
  }

  -- The `switch` of `runOta`.
  unfoldable pub run_state : TransferState → Env → CanOta → CanOta
  run_state TransferState.idle env s = record s { ota_timeout_timer = env.now }
  run_state TransferState.wait_for_ack env s = s
  run_state TransferState.start env s = checksum_or_send_start env s
  run_state TransferState.store env s =
      send_next_piece env (record s { ota_timeout_timer = env.now })
  run_state TransferState.valid env s = finish true s
  run_state TransferState.invalid env s = finish false s

  unfoldable pub run_ota : Env → CanOta → CanOta
  unfolding run_state
  run_ota env s =
      if has_elapsed env.now s.ota_timeout_timer ota_timeout_time && can_time_out s.transfer_state
      then finish false s
      else run_state s.transfer_state env s
