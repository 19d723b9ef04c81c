-- ===== src/DataTransfer/Cases.antt =====
-- What a piece and a pass come to.
use can_systems.Prelude.{
  ℕ, ◌≡◌, ◌⊎◌, refl, arith, inl, inr, true, false, ◌&&◌, List, Option, some, ◌==◌, Bool-cases,
}
use can_systems.Common.Time.{has_elapsed}
use can_systems.DataTransfer.Driver.{Platform}
use can_systems.Common.FileName.{is_valid_file_name}
use can_systems.DataTransfer.{
  begin, begin_request, check_request, end_begin, take_over, open_transfer, DataTransfer,
  TransferState, DataTransferError, raise, decode_piece, store_piece, store_base64,
  cleanup_transfer, run_state, run_validity_check, check_timeout, is_storing, in_progress,
  transfer_timeout_time,
}

module _ (p : Platform) where
  -- A request that is accepted opens a transfer.
  pub begin-accepted :
      (now n : ℕ) (s : DataTransfer p) (md5 name : List ℕ)
      → (begin p now s n (some md5) (some name)).0 ≡ true
      → (is_valid_file_name name ≡ true)
        × (let t = take_over p s n md5 name in
            begin p now s n (some md5) (some name)
            ≡ end_begin p now (open_transfer p t).0 (open_transfer p t).1)
  unfolding begin begin_request check_request
  begin-accepted now n s md5 name begun = ground arith

  -- A piece is looked at only in its turn.
  pub store_base64-cases :
      (now : ℕ) (s : DataTransfer p) (number : ℕ) (text : Option (List ℕ))
      → ((e : DataTransferError) × (store_base64 p now s number text ≡ (false, raise p s e)))
        ⊎ ((s.transfer_state ≡ TransferState.storing)
            × (number ≡ s.next_file_piece_number)
            × (store_base64 p now s number text ≡ store_piece p now s (decode_piece text)))
  unfolding store_base64
  store_base64-cases now s number text = elim (Bool-cases (is_storing s.transfer_state)) [
    | inl storing ↦ elim (Bool-cases (number == s.next_file_piece_number)) [
      | inl turn ↦ elim (Bool-cases (s.remaining_file_size == 0)) [
        | inl whole ↦ inl (DataTransferError.file_already_stored, rw (storing, turn, whole) refl)
        | inr missing ↦ inr (ground arith, ground arith, rw (storing, turn, missing) refl)
      ]
      | inr early ↦ inl (DataTransferError.wrong_file_piece_number, rw (storing, early) refl)
    ]
    | inr idle ↦ inl (DataTransferError.begin_not_called, rw idle refl)
  ]

  pub run_validity_check-cases :
      (now : ℕ) (s : DataTransfer p)
      → ((in_progress s.transfer_state ≡ true)
          × (has_elapsed now s.transfer_timeout_timer transfer_timeout_time ≡ true)
          × (run_validity_check p now s
              ≡ cleanup_transfer p (record s { transfer_state = TransferState.cleanup })))
        ⊎ (((in_progress s.transfer_state
                && has_elapsed now s.transfer_timeout_timer transfer_timeout_time)
              ≡ false)
            × (run_validity_check p now s ≡ run_state p now s.transfer_state s))
  unfolding run_validity_check check_timeout run_state
  run_validity_check-cases now s =
      elim (Bool-cases (
        in_progress s.transfer_state
        && has_elapsed now s.transfer_timeout_timer transfer_timeout_time)) [
          | inl late ↦ inl (ground arith, ground arith, rw late refl)
          | inr soon ↦ inr (soon, rw soon refl)
        ]
