-- ===== src/DataTransfer/State.antt =====
-- `DataTransfer::TransferState` and `DataTransfer::DataTransferError` of
-- lib/dataTransfer/src/dataTransfer.hpp.
use can_systems.Prelude.{ℕ, ◌^◌}

pub data TransferState : Type 0 where
  idle storing check cleanup : TransferState

pub data DataTransferError : Type 0 where
  file_size_zero file_md5_nullptr file_md5_invalid file_name_nullptr file_name_invalid
        file_name_not_allowed not_enough_storage begin_not_called wrong_file_piece_number
        file_already_stored file_data_nullptr b64_file_data_size_error file_piece_size_overflow
        file_piece_size_error b64_decoded_size_error temp_file_opening_error temp_file_writing_error
        received_file_size_error file_md5_error temp_file_renaming_error fw_upgrade_begin_failed
        fw_upgrade_set_md5_failed fw_upgrade_write_failed fw_upgrade_end_failed
        received_data_overrun temp_file_reading_error file_in_use :
      DataTransferError

-- The number of the error's bit.
error_index : DataTransferError → ℕ
error_index DataTransferError.file_size_zero = 0
error_index DataTransferError.file_md5_nullptr = 1
error_index DataTransferError.file_md5_invalid = 2
error_index DataTransferError.file_name_nullptr = 3
error_index DataTransferError.file_name_invalid = 4
error_index DataTransferError.file_name_not_allowed = 5
error_index DataTransferError.not_enough_storage = 6
error_index DataTransferError.begin_not_called = 7
error_index DataTransferError.wrong_file_piece_number = 8
error_index DataTransferError.file_already_stored = 9
error_index DataTransferError.file_data_nullptr = 10
error_index DataTransferError.b64_file_data_size_error = 11
error_index DataTransferError.file_piece_size_overflow = 12
error_index DataTransferError.file_piece_size_error = 13
error_index DataTransferError.b64_decoded_size_error = 14
error_index DataTransferError.temp_file_opening_error = 15
error_index DataTransferError.temp_file_writing_error = 16
error_index DataTransferError.received_file_size_error = 17
error_index DataTransferError.file_md5_error = 18
error_index DataTransferError.temp_file_renaming_error = 19
error_index DataTransferError.fw_upgrade_begin_failed = 20
error_index DataTransferError.fw_upgrade_set_md5_failed = 21
error_index DataTransferError.fw_upgrade_write_failed = 22
error_index DataTransferError.fw_upgrade_end_failed = 23
error_index DataTransferError.received_data_overrun = 24
error_index DataTransferError.temp_file_reading_error = 25
error_index DataTransferError.file_in_use = 26

unfoldable pub error_bit : DataTransferError → ℕ
unfolding error_index
error_bit e = 2 ^ error_index e
