-- ===== src/OtaTransfer/Gateway.antt =====
-- The gateway of a transfer, pass by pass, when the clock never runs out on it.
pub mod Checksum
pub mod Sending
use can_systems.Prelude.{
  ℕ, ◌+◌, ◌-◌, ◌%◌, ◌^◌, ◌≤◌, ◌<◌, ◌≡◌, ◌⊎◌, refl, ap, ◌∙◌, arith, Bool, true, false, List, [], ◌∷◌,
  Option, some, ◌==◌, if◌then◌else◌, length, take, drop, get_or, min,
}
use can_systems.Common.Time.{has_elapsed}
use can_systems.Crc16
use can_systems.Crc16.{Crc16}
use can_systems.Crc16.Streaming.{next_all-lt}
use can_systems.CanProtocol.Frame.{Data, CanFrame, make_frame, cmd_of}
use can_systems.CanProtocol.OtaFrame.{pack_start, pack_send}
use can_systems.CanNode.{cmd_ota_start, cmd_ota_send, cmd_ota_end}
use can_systems.OtaRegistry.{Image}
use can_systems.CanOta.Driver.{FileSystem}
use can_systems.CanOta.{
  CanOta, Env, image_known, start_ota, start_file, is_ota_in_progress, TransferState, run_ota,
  run_state, checksum_or_send_start, send_next_piece, send_start, settle_checksum, send_frame,
  read_file_piece, bytes_left, finish, handle_ota_can_frames, ota_timeout_time,
}
use can_systems.OtaTransfer.Laws.{FileLaws}
use can_systems.OtaTransfer.Bytes.{take-all, length-part, count_more, start_crc}

-- The start of the transfer, as the gateway sends it.
abbrev pub image_crc : List ℕ → ℕ
image_crc xs = Crc16.get (Crc16.next_all start_crc xs)

abbrev pub start_data : List ℕ → ℕ → Data
start_data xs block =
    pack_start (record { storage_number = block; fw_size = length xs; fw_crc = image_crc xs })

pub image_crc-lt : (xs : List ℕ) → image_crc xs < 2 ^ 16
unfolding Crc16.get Crc16.new
image_crc-lt xs = (next_all-lt start_crc xs (omega arith) (omega arith)).0

-- A piece of the image, as the gateway sends it.
abbrev pub piece_data : List ℕ → ℕ → Data
piece_data xs p =
    pack_send (record { piece = take (min (length xs - p) 7) (drop p xs); sequence = p % 256 })

module _ (fs : FileSystem) (xs : List ℕ) (laws : FileLaws fs xs) (block : ℕ) where
  open fs use {File, size, available, read, seek}
  open laws use {At, size_lem, available_lem, read_lem, seek_lem}

  -- The gateway in a state `st`, its file at position `p`, the number of the next piece `n`, and the
  -- results that it has reported.
  pub record Gate (st : TransferState) (p n : ℕ) (rs : List Bool) (g : CanOta fs) : Type 0 where
    pub in_state : g.transfer_state ≡ st
    pub file : File
    pub opened : g.received_file ≡ some file
    pub at : At p file
    pub numbered : g.frame_number ≡ n
    pub history : g.reported ≡ rs

  -- What it knows while it computes the checksum.
  pub record Sums (p : ℕ) (g : CanOta fs) : Type 0 where
    pub unknown : g.image_crc_known ≡ false
    pub sized : g.file_size ≡ length xs
    pub stored : g.storage_number ≡ block
    pub counted : g.crc16 ≡ Crc16.next_all start_crc (take p xs)

  pub bytes_left-eq :
      (st : TransferState) (p n : ℕ) (rs : List Bool) (g : CanOta fs)
      → Gate st p n rs g
      → bytes_left fs g ≡ length xs - p
  unfolding bytes_left
  bytes_left-eq st p n rs g k =
      let opened = k.opened in let e = available_lem p k.file k.at in ground arith

  -- A pass in time, by the state.
  pub run_ota-start :
      (env : Env) (g : CanOta fs)
      → has_elapsed env.now g.ota_timeout_timer ota_timeout_time ≡ false
      → g.transfer_state ≡ TransferState.start
      → run_ota fs env g ≡ checksum_or_send_start fs env g
  unfolding run_ota run_state
  run_ota-start env g h k = ground arith

  pub run_ota-store :
      (env : Env) (g : CanOta fs)
      → has_elapsed env.now g.ota_timeout_timer ota_timeout_time ≡ false
      → g.transfer_state ≡ TransferState.store
      → run_ota fs env g ≡ send_next_piece fs env (record g { ota_timeout_timer = env.now })
  unfolding run_ota run_state
  run_ota-store env g h k = ground arith

  pub run_ota-valid :
      (env : Env) (g : CanOta fs)
      → has_elapsed env.now g.ota_timeout_timer ota_timeout_time ≡ false
      → g.transfer_state ≡ TransferState.valid
      → run_ota fs env g ≡ finish fs true g
  unfolding run_ota run_state
  run_ota-valid env g h k = ground arith

  -- A read of the next bytes, which are there.
  pub read_file_piece-eq :
      (st : TransferState) (p n m : ℕ) (rs : List Bool) (g : CanOta fs) (k : Gate st p n rs g)
      → p + m ≤ length xs
      → read_file_piece fs g m
        ≡ (true, take m (drop p xs), record g { received_file = some (read k.file m).1 })
  unfolding read_file_piece
  read_file_piece-eq st p n m rs g k h =
      let (bytes, moved) = read_lem p m k.file k.at h in
      let opened = k.opened in
      let len = length-part xs p m h in
      let whole : length (read k.file m).0 ≡ m = ap length bytes ∙ len in
      let kept : (if length (read k.file m).0 == m then true else false) ≡ true = ground arith in
      ground (arith, kept)

  -- The log of frames is not part of what is known.
  pub cleared-Gate :
      (st : TransferState) (p n : ℕ) (rs : List Bool) (g : CanOta fs)
      → Gate st p n rs g
      → Gate st p n rs (record g { sent = [] })
  cleared-Gate st p n rs g k = record {
    in_state = k.in_state;
    file = k.file;
    opened = k.opened;
    at = k.at;
    numbered = k.numbered;
    history = k.history;
  }

  pub cleared-Sums : (p : ℕ) (g : CanOta fs) → Sums p g → Sums p (record g { sent = [] })
  cleared-Sums p g k = record {
    unknown = k.unknown;
    sized = k.sized;
    stored = k.stored;
    counted = k.counted;
  }
