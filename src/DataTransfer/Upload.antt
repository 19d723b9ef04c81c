-- ===== src/DataTransfer/Upload.antt =====
-- An upload from its first message to its end, with a file system and an MD5 that behave: the pieces
-- come in turn, with a pass of `runValidityCheck` before each, and then more passes.
pub mod Delivery
pub mod Readback
pub mod Installed
use can_systems.Prelude.{
  ℕ, zero, suc, ◌+◌, ◌-◌, ◌≤◌, ◌<◌, ◌≡◌, Bool, true, false, List, [], ◌∷◌, Option, some, length,
  take,
}
use can_systems.Base64.{encode_loop}
use can_systems.Common.FileName.{temp_file_location}
use can_systems.DataTransfer.Driver.{Platform}
use can_systems.DataTransfer.{DataTransfer, TransferState, store_base64, run_validity_check}
use can_systems.DataTransfer.Laws.{DiskLaws, Md5Laws}

module _ (p : Platform) where
  -- A pass and a piece at each reading of the clock, from the `i`th on; the first piece has the
  -- number `n`. The reading that comes next is returned too.
  unfoldable pub deliver : (ℕ → ℕ) → ℕ → ℕ → List (List ℕ) → DataTransfer p → ℕ × DataTransfer p
  deliver clock i n [] s = (i, s)
  deliver clock i n (x ∷ xs) s =
      deliver clock (suc i) (n + 1) xs
        (store_base64 p (clock i) (run_validity_check p (clock i) s) n (some (encode_loop x))).1

  unfoldable pub passes : (ℕ → ℕ) → ℕ → ℕ → DataTransfer p → DataTransfer p
  passes clock i zero s = s
  passes clock i (suc k) s = passes clock (suc i) k (run_validity_check p (clock i) s)

  module _ (laws : DiskLaws p) {digest : List ℕ → List ℕ} (md5_laws : Md5Laws p digest)
      (content name md5 : List ℕ) (before : List Bool) where
    -- What stays through the transfer.
    pub record Going (s : DataTransfer p) : Type 0 where
      pub plain : s.is_fw_transfer ≡ false
      pub named : s.file_name ≡ name
      pub announced : s.file_md5 ≡ md5
      pub sized : s.file_size ≡ length content
      pub clean : s.err_state.error_state ≡ 0
      pub heard : s.has_callback ≡ true
      pub told : s.reported ≡ before

    -- `got` has been stored, in `n` pieces, the last at `now`.
    pub record Receiving (now n : ℕ) (got : List ℕ) (s : DataTransfer p) : Type 0 where
      pub going : Going s
      pub state : s.transfer_state ≡ TransferState.storing
      pub next : s.next_file_piece_number ≡ n
      pub counted : n ≤ length got
      pub missing : s.remaining_file_size + length got ≡ length content
      pub timer : s.transfer_timeout_timer ≡ now
      pub room : ℕ
      pub enough : length content < room
      pub writing : laws.Writing temp_file_location room got s.disk s.received_file

    -- The file is read back, up to `pos`.
    pub record Checking (now pos : ℕ) (s : DataTransfer p) : Type 0 where
      pub going : Going s
      pub state : s.transfer_state ≡ TransferState.check
      pub timer : s.transfer_timeout_timer ≡ now
      pub within : pos ≤ length content
      pub reading : laws.Reading temp_file_location content pos s.disk s.received_file
      pub hashed : md5_laws.Hashed (take pos content) s.md5

    -- The file is in its place, and the success has been reported.
    pub record Placed (s : DataTransfer p) : Type 0 where
      pub clean : s.err_state.error_state ≡ 0
      pub plain : s.is_fw_transfer ≡ false
      pub told : s.reported ≡ true ∷ before
      pub closed : p.is_open s.received_file ≡ false
      pub stored : laws.Stored name content s.disk
