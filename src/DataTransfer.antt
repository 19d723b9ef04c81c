-- ===== src/DataTransfer.antt =====
-- class DataTransfer of lib/dataTransfer/src: a file that arrives in pieces over MQTT is stored in a
-- temporary file, checked against its MD5, and renamed; a firmware image goes to the updater. A text
-- is the list of its bytes, a null pointer `none`. What `checkOkCallback` is called with is recorded,
-- newest first.
pub mod Driver
pub mod State
pub mod Cases
pub mod Laws
pub mod Memory
pub mod Pieces
pub mod Upload
mod Tests
pub mod Outcome
pub mod Invariant
pub mod Guard
use can_systems.Prelude.{
  ℕ, ◌+◌, ◌-◌, ◌*◌, ◌/◌, ◌%◌, ◌^◌, Bool, true, false, not, ◌&&◌, ◌||◌, List, [], ◌∷◌, Option, none,
  some, ltb, leb, ◌==◌, if◌then◌else◌, length, take,
}
use can_systems.Common.Time.{has_elapsed, min_to_ms}
use can_systems.Common.ErrorState.{ErrorState, set_error, get_raw_error_state, clear_all_errors}
use can_systems.Common.FileName.{
  temp_file_location, is_valid_file_name, is_own_firmware_file_name, same_ignoring_case,
}
use can_systems.Base64.{decode_base64, decoded_length}
use Driver.{Platform}
pub use State.{TransferState, DataTransferError, error_bit}

abbrev pub file_name_size : ℕ
file_name_size = 32

abbrev pub file_md5_size : ℕ
file_md5_size = 33

unfoldable pub transfer_timeout_time : ℕ
unfolding min_to_ms
transfer_timeout_time = min_to_ms 15

abbrev pub read_buffer_size : ℕ
read_buffer_size = 64

abbrev pub invalid_file_piece_number : ℕ
invalid_file_piece_number = 0xFFFFFFFF

abbrev pub max_file_piece_length : ℕ
max_file_piece_length = 126 + 1

abbrev pub is_storing : TransferState → Bool
is_storing TransferState.storing = true
is_storing _ = false

-- `transferInProgress` in `runValidityCheck`.
abbrev pub in_progress : TransferState → Bool
in_progress TransferState.storing = true
in_progress TransferState.check = true
in_progress _ = false

-- A piece that cannot be decoded, or its bytes.
pub data Piece : Type 0 where
  refused : DataTransferError → Piece
  decoded : List ℕ → Piece

-- `filePieceSize`, a `uint16_t`.
unfoldable pub file_piece_size : List ℕ → ℕ
file_piece_size text = (length text * 3 % 2 ^ 32 / 4 + 1) % 2 ^ 16

-- What `storeBase64` does with the text of a piece.
unfoldable pub decode_piece : Option (List ℕ) → Piece
unfolding file_piece_size
decode_piece none = refused DataTransferError.file_data_nullptr
decode_piece (some text) =
    if length text == 0 || not (length text % 4 == 0)
    then refused DataTransferError.b64_file_data_size_error
    else (if ltb max_file_piece_length (file_piece_size text)
        then refused DataTransferError.file_piece_size_overflow
        else (if ltb (file_piece_size text) (decoded_length text) || decoded_length text == 0
            then refused DataTransferError.file_piece_size_error
            else (let (count, written) = decode_base64 text (file_piece_size text) in
                if not (decoded_length text == count)
                then refused DataTransferError.b64_decoded_size_error
                else decoded (take count written))))

-- The first checks of `begin`: the error, or the two texts.
pub data Request : Type 0 where
  unfit : DataTransferError → Request
  fit : List ℕ → List ℕ → Request

unfoldable pub check_request : ℕ → Option (List ℕ) → Option (List ℕ) → Request
check_request file_size none file_name = unfit (
    if file_size == 0 then DataTransferError.file_size_zero else DataTransferError.file_md5_nullptr)
check_request file_size (some md5) none = unfit (
    if file_size == 0
    then DataTransferError.file_size_zero
    else (if length md5 == 0
        then DataTransferError.file_md5_invalid
        else DataTransferError.file_name_nullptr))
check_request file_size (some md5) (some name) =
    if file_size == 0
    then unfit DataTransferError.file_size_zero
    else (if length md5 == 0
        then unfit DataTransferError.file_md5_invalid
        else (if length name == 0
            then unfit DataTransferError.file_name_invalid
            else (if not (is_valid_file_name name)
                then unfit DataTransferError.file_name_not_allowed
                else fit md5 name)))

-- `fileInUseCallback`, which may be null.
unfoldable pub in_use_by : Option (List ℕ → Bool) → List ℕ → Bool
in_use_by none name = false
in_use_by (some callback) name = callback name

module _ (p : Platform) where
  open p use {
    Disk, File, no_file, is_open, open_write, open_read, write, read, size, available, close,
    rename, total_bytes, used_bytes, Updater, update_begin, update_set_md5, update_write,
    update_end, update_abort, Md5, md5_begin, md5_add, md5_calculate, md5_to_string,
  }

  -- The object's fields, with the file system and the updater that it works on. `has_callback` is
  -- whether `checkOkCallback` is given.
  pub record DataTransfer : Type 0 where
    pub has_callback : Bool
    pub file_in_use : Option (List ℕ → Bool)
    pub file_size : ℕ
    pub file_md5 : List ℕ
    pub next_file_piece_number : ℕ
    pub remaining_file_size : ℕ
    pub file_name : List ℕ
    pub is_fw_transfer : Bool
    pub transfer_state : TransferState
    pub err_state : ErrorState
    pub transfer_timeout_timer : ℕ
    pub received_file : File
    pub md5 : Md5
    pub disk : Disk
    pub updater : Updater
    pub reported : List Bool

  -- The constructor.
  unfoldable pub new : Bool → Option (List ℕ → Bool) → Md5 → Disk → Updater → DataTransfer
  new has_callback file_in_use md5 disk updater = record {
    has_callback = has_callback;
    file_in_use = file_in_use;
    file_size = 0;
    file_md5 = [];
    next_file_piece_number = invalid_file_piece_number;
    remaining_file_size = 0;
    file_name = [];
    is_fw_transfer = false;
    transfer_state = TransferState.idle;
    err_state = record { error_state = 0 };
    transfer_timeout_timer = 0;
    received_file = no_file;
    md5 = md5;
    disk = disk;
    updater = updater;
    reported = [];
  }

  unfoldable pub raise : DataTransfer → DataTransferError → DataTransfer
  raise s e = record s { err_state = set_error s.err_state (error_bit e) }

  -- An error after which the transfer is cleaned up.
  unfoldable pub give_up : DataTransfer → DataTransferError → DataTransfer
  unfolding raise
  give_up s e = record (raise s e) { transfer_state = TransferState.cleanup }

  unfoldable pub call_back : DataTransfer → Bool → DataTransfer
  call_back s result = if s.has_callback then record s { reported = result ∷ s.reported } else s

  unfoldable pub close_file : DataTransfer → DataTransfer
  close_file s =
      let (f, d) = close s.disk s.received_file in record s { received_file = f; disk = d }

  -- `if(receivedFile) receivedFile.close();`
  unfoldable pub close_if_open : DataTransfer → DataTransfer
  unfolding close_file
  close_if_open s = if is_open s.received_file then close_file s else s

  unfoldable pub abort_firmware_update : DataTransfer → DataTransfer
  abort_firmware_update s = record s { updater = update_abort s.updater }

  -- `freeSpace`, a `uint32_t`.
  unfoldable pub free_space : Disk → ℕ
  free_space d = (total_bytes d + 2 ^ 32 - used_bytes d % 2 ^ 32) % 2 ^ 32

  -- `begin`, once the request is accepted: the fields, and what the transfer before has left open.
  unfoldable pub take_over : DataTransfer → ℕ → List ℕ → List ℕ → DataTransfer
  unfolding close_if_open abort_firmware_update
  take_over s file_size md5 name =
      let s1 = record s {
        file_size = file_size;
        file_md5 = take (file_md5_size - 1) md5;
        next_file_piece_number = 0;
        remaining_file_size = file_size;
        file_name = take (file_name_size - 1) name;
      } in
      let s2 = close_if_open s1 in
      let s3 = if s2.is_fw_transfer then abort_firmware_update s2 else s2 in
      record s3 { is_fw_transfer = is_own_firmware_file_name s3.file_name }

  unfoldable pub begin_firmware : DataTransfer → Bool × DataTransfer
  unfolding raise abort_firmware_update
  begin_firmware s =
      let (begun, u) = update_begin s.updater s.file_size in
      if not begun
      then (
        false,
        record (raise (record s { updater = u }) DataTransferError.fw_upgrade_begin_failed) {
          is_fw_transfer = false;
        },
      )
      else (let (taken, v) = update_set_md5 u s.file_md5 in
          if not taken
          then (
            false,
            record (abort_firmware_update
                (raise (record s { updater = v }) DataTransferError.fw_upgrade_set_md5_failed)) {
                  is_fw_transfer = false;
                },
          )
          else (true, record s { updater = v }))

  unfoldable pub begin_file : DataTransfer → Bool × DataTransfer
  unfolding raise close_file free_space
  begin_file s =
      let (f, d) = open_write s.disk temp_file_location in
      let s1 = record s { received_file = f; disk = d } in
      if not (is_open f)
      then (false, raise s1 DataTransferError.temp_file_opening_error)
      else (if not (ltb s1.file_size (free_space d))
          then (false, close_file (raise s1 DataTransferError.not_enough_storage))
          else (true, s1))

  unfoldable pub open_transfer : DataTransfer → Bool × DataTransfer
  unfolding begin_firmware begin_file
  open_transfer s = if s.is_fw_transfer then begin_firmware s else begin_file s

  -- The end of `begin`.
  unfoldable pub end_begin : ℕ → Bool → DataTransfer → Bool × DataTransfer
  end_begin now opened s =
      if not opened
      then (false, s)
      else (true, record s { transfer_timeout_timer = now; transfer_state = TransferState.storing })

  unfoldable pub begin_request : ℕ → DataTransfer → ℕ → Request → Bool × DataTransfer
  unfolding raise take_over open_transfer end_begin
  begin_request now s file_size (unfit e) = (false, raise s e)
  begin_request now s file_size (fit md5 name) =
      if in_use_by s.file_in_use name
      then (false, raise s DataTransferError.file_in_use)
      else (let (opened, s') = open_transfer (take_over s file_size md5 name) in
          if not opened then (false, s') else (
            true,
            record s' { transfer_timeout_timer = now; transfer_state = TransferState.storing },
          ))

  unfoldable pub begin :
      ℕ → DataTransfer → ℕ → Option (List ℕ) → Option (List ℕ) → Bool × DataTransfer
  unfolding begin_request
  begin now s file_size file_md5 file_name =
      begin_request now s file_size (check_request file_size file_md5 file_name)

  unfoldable pub finalize_firmware : DataTransfer → Bool × DataTransfer
  unfolding give_up call_back
  finalize_firmware s =
      let (ended, u) = update_end s.updater in
      let s1 = record s { updater = u } in
      if not ended
      then (false, give_up s1 DataTransferError.fw_upgrade_end_failed)
      else (true, call_back (record s1 { transfer_state = TransferState.cleanup }) true)

  unfoldable pub finalize_file : ℕ → DataTransfer → Bool × DataTransfer
  unfolding give_up close_file
  finalize_file now s =
      let s1 = close_file s in
      let (f, d) = open_read s1.disk temp_file_location in
      let s2 = record s1 { received_file = f; disk = d } in
      if not (is_open f)
      then (false, give_up s2 DataTransferError.temp_file_opening_error)
      else (if not (size d f == s2.file_size)
          then (false, give_up s2 DataTransferError.received_file_size_error)
          else (
            true,
            record s2 {
              md5 = md5_begin s2.md5;
              transfer_state = TransferState.check;
              transfer_timeout_timer = now;
            },
          ))

  unfoldable pub finalize_transfer : ℕ → DataTransfer → Bool × DataTransfer
  unfolding finalize_firmware finalize_file
  finalize_transfer now s = if s.is_fw_transfer then finalize_firmware s else finalize_file now s

  -- The piece is written: the number of bytes written, and the object.
  unfoldable pub write_piece : DataTransfer → List ℕ → ℕ × DataTransfer
  write_piece s bytes =
      if s.is_fw_transfer
      then (let (n, u) = update_write s.updater bytes in (n, record s { updater = u }))
      else (let (n, f, d) = write s.disk s.received_file bytes in
          (n, record s { received_file = f; disk = d }))

  -- A piece of `count` bytes has been written.
  unfoldable pub count_piece : ℕ → DataTransfer → ℕ → Bool × DataTransfer
  unfolding finalize_transfer
  count_piece now s count =
      let s' = record s {
        next_file_piece_number = (s.next_file_piece_number + 1) % 2 ^ 32;
        remaining_file_size = s.remaining_file_size - count;
        transfer_timeout_timer = now;
      } in
      if s'.remaining_file_size == 0 then finalize_transfer now s' else (true, s')

  unfoldable pub store_piece : ℕ → DataTransfer → Piece → Bool × DataTransfer
  unfolding raise give_up write_piece count_piece
  store_piece now s (refused e) = (false, raise s e)
  store_piece now s (decoded bytes) =
      if ltb s.remaining_file_size (length bytes)
      then (false, give_up s DataTransferError.received_data_overrun)
      else (let (n, s1) = write_piece s bytes in
          if not (n == length bytes)
          then (
            false,
            give_up s1 (
                if s.is_fw_transfer
                then DataTransferError.fw_upgrade_write_failed
                else DataTransferError.temp_file_writing_error),
          )
          else (let s2 = record s1 {
            next_file_piece_number = (s1.next_file_piece_number + 1) % 2 ^ 32;
            remaining_file_size = s1.remaining_file_size - length bytes;
            transfer_timeout_timer = now;
          } in
              if s2.remaining_file_size == 0 then finalize_transfer now s2 else (true, s2)))

  unfoldable pub store_base64 : ℕ → DataTransfer → ℕ → Option (List ℕ) → Bool × DataTransfer
  unfolding raise store_piece
  store_base64 now s file_piece_number file_data =
      if not (is_storing s.transfer_state)
      then (false, raise s DataTransferError.begin_not_called)
      else (if not (file_piece_number == s.next_file_piece_number)
          then (false, raise s DataTransferError.wrong_file_piece_number)
          else (if s.remaining_file_size == 0
              then (false, raise s DataTransferError.file_already_stored)
              else store_piece now s (decode_piece file_data)))

  -- The CHECK state while there is something to read.
  unfoldable pub hash_chunk : DataTransfer → DataTransfer
  unfolding give_up
  hash_chunk s =
      let remaining = available s.disk s.received_file in
      let count = if leb read_buffer_size remaining then read_buffer_size else remaining in
      let (bytes, f) = read s.disk s.received_file count in
      let s1 = record s { received_file = f } in
      if not (length bytes == count)
      then give_up s1 DataTransferError.temp_file_reading_error
      else record s1 { md5 = md5_add s1.md5 bytes }

  -- The CHECK state at the end of the file.
  unfoldable pub finish_check : DataTransfer → DataTransfer
  unfolding raise close_if_open call_back
  finish_check s =
      let s1 = record s { transfer_state = TransferState.cleanup; md5 = md5_calculate s.md5 } in
      if not (same_ignoring_case file_md5_size (md5_to_string s1.md5) s1.file_md5)
      then raise s1 DataTransferError.file_md5_error
      else (let s2 = close_if_open s1 in
          let (renamed, d) = rename s2.disk temp_file_location s2.file_name in
          let s3 = record s2 { disk = d } in
          if not renamed
          then raise s3 DataTransferError.temp_file_renaming_error
          else call_back s3 true)

  unfoldable pub run_check : DataTransfer → DataTransfer
  unfolding hash_chunk finish_check
  run_check s = if ltb 0 (available s.disk s.received_file) then hash_chunk s else finish_check s

  unfoldable pub cleanup_transfer : DataTransfer → DataTransfer
  unfolding close_if_open abort_firmware_update call_back
  cleanup_transfer s =
      let s1 =
        if s.is_fw_transfer && ltb 0 s.remaining_file_size then abort_firmware_update s else s in
      let s2 = close_if_open (record s1 {
        file_size = 0;
        file_md5 = [];
        next_file_piece_number = invalid_file_piece_number;
        remaining_file_size = 0;
        is_fw_transfer = false;
      }) in
      let s3 = record s2 { transfer_state = TransferState.idle } in
      if ltb 0 (get_raw_error_state s3.err_state) then call_back s3 false else s3

  unfoldable pub run_state : ℕ → TransferState → DataTransfer → DataTransfer
  unfolding run_check cleanup_transfer
  run_state now TransferState.idle s = record s { transfer_timeout_timer = now }
  run_state now TransferState.storing s = s
  run_state now TransferState.check s = run_check s
  run_state now TransferState.cleanup s = cleanup_transfer s

  -- The timeout of `runValidityCheck`.
  unfoldable pub check_timeout : ℕ → DataTransfer → DataTransfer
  check_timeout now s =
      if in_progress s.transfer_state
        && has_elapsed now s.transfer_timeout_timer transfer_timeout_time
      then record s { transfer_state = TransferState.cleanup }
      else s

  unfoldable pub run_validity_check : ℕ → DataTransfer → DataTransfer
  unfolding check_timeout run_state
  run_validity_check now s = let s' = check_timeout now s in run_state now s'.transfer_state s'

  unfoldable pub get_error_code : DataTransfer → ℕ × DataTransfer
  get_error_code s =
      (get_raw_error_state s.err_state, record s { err_state = clear_all_errors s.err_state })
