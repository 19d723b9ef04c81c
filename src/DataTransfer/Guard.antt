-- ===== src/DataTransfer/Guard.antt =====
-- Nothing replaces a file, or the firmware, before it has been received whole and has passed its check.
use can_systems.Prelude.{
  ℕ, ◌-◌, ◌≡◌, ◌⊎◌, refl, arith, inl, inr, true, false, List, Option, length, ◌&&◌, leb,
  if◌then◌else◌,
}
use can_systems.Common.Time.{has_elapsed}
use can_systems.Common.FileName.{same_ignoring_case, temp_file_location}
use can_systems.DataTransfer.Driver.{Platform}
use can_systems.DataTransfer.{
  DataTransfer, TransferState, Request, unfit, fit, Piece, refused, decoded, check_request,
  decode_piece, take_over, open_transfer, begin_request, begin, count_piece, finalize_transfer,
  write_piece, store_piece, store_base64, run_check, cleanup_transfer, run_state,
  run_validity_check, get_error_code, in_progress, read_buffer_size, file_md5_size,
  transfer_timeout_time,
}
use can_systems.DataTransfer.Cases.{store_base64-cases, run_validity_check-cases}
use can_systems.DataTransfer.Invariant.{
  Call, begin_call, store_call, pass, read_error, perform, write_piece-SameTransfer,
}

-- `Q` is any property of the file system and the handle that is open on it, such as "the certificate is
-- the one that was checked, and the handle is not on it", and `R` any of the updater, such as "the old
-- firmware is the one that starts".
module _ (p : Platform) (Q : p.Disk → p.File → Type 0) (R : p.Updater → Type 0) where
  open p use {
    Disk, File, Updater, open_write, open_read, write, read, available, close, update_begin,
    update_set_md5, update_write, update_abort, md5_calculate, md5_to_string,
  }

  -- What is done before a check is passed keeps them: opening, writing and closing the temporary file,
  -- and feeding or dropping an image.
  pub record Keeps : Type 0 where
    pub opening :
        (d : Disk) (f : File) → Q d f → let (f', d') = open_write d temp_file_location in Q d' f'
    pub reopening :
        (d : Disk) (f : File) → Q d f → let (f', d') = open_read d temp_file_location in Q d' f'
    pub writing :
        (d : Disk) (f : File) (xs : List ℕ) → Q d f → let (n, f', d') = write d f xs in Q d' f'
    pub reading : (d : Disk) (f : File) (n : ℕ) → Q d f → Q d (read d f n).1
    pub closing : (d : Disk) (f : File) → Q d f → let (f', d') = close d f in Q d' f'
    pub beginning : (u : Updater) (n : ℕ) → R u → R (update_begin u n).1
    pub announcing : (u : Updater) (m : List ℕ) → R u → R (update_set_md5 u m).1
    pub feeding : (u : Updater) (xs : List ℕ) → R u → R (update_write u xs).1
    pub dropping : (u : Updater) → R u → R (update_abort u)

  -- The calls that may install something: a pass that finds the file read to its end, in time, with
  -- the announced MD5; and the piece that makes a firmware image whole.
  abbrev pub Installs : Call p → DataTransfer p → Type 0
  Installs (begin_call now n md5 name) s = ⊥
  Installs (store_call now number text) s =
      (s.is_fw_transfer ≡ true)
      × (s.transfer_state ≡ TransferState.storing)
      × (number ≡ s.next_file_piece_number)
      × ((xs : List ℕ) × (decode_piece text ≡ decoded xs) × (length xs ≡ s.remaining_file_size))
  Installs (pass now) s =
      (s.transfer_state ≡ TransferState.check)
      × (has_elapsed now s.transfer_timeout_timer transfer_timeout_time ≡ false)
      × (available s.disk s.received_file ≡ 0)
      × (same_ignoring_case file_md5_size (md5_to_string (md5_calculate s.md5)) s.file_md5 ≡ true)
  Installs read_error s = ⊥

  abbrev pub Kept : DataTransfer p → Type 0
  Kept s = Q s.disk s.received_file × R s.updater

  module _ (keep : Keeps) where
    take_over-Kept :
        (s : DataTransfer p) (n : ℕ) (md5 name : List ℕ) → Kept s → Kept (take_over p s n md5 name)
    unfolding take_over
    take_over-Kept s n md5 name (q, r) =
        ground (arith, keep.closing s.disk s.received_file q, keep.dropping s.updater r)

    open_transfer-Kept : (s : DataTransfer p) → Kept s → Kept (open_transfer p s).1
    unfolding open_transfer
    open_transfer-Kept s (q, r) = ground (
      arith,
      keep.opening s.disk s.received_file q,
      keep.closing (open_write s.disk temp_file_location).1 (open_write s.disk temp_file_location).0
          (keep.opening s.disk s.received_file q),
      keep.beginning s.updater s.file_size r,
      keep.announcing (update_begin s.updater s.file_size).1 s.file_md5
          (keep.beginning s.updater s.file_size r),
      keep.dropping (update_set_md5 (update_begin s.updater s.file_size).1 s.file_md5).1 (
          keep.announcing (update_begin s.updater s.file_size).1 s.file_md5
            (keep.beginning s.updater s.file_size r)),
    )

    begin_request-Kept :
        (now : ℕ) (s : DataTransfer p) (n : ℕ) (r : Request)
        → Kept s
        → Kept (begin_request p now s n r).1
    unfolding begin_request
    begin_request-Kept now s n (unfit e) k = k
    begin_request-Kept now s n (fit md5 name) k =
        let t = take_over p s n md5 name in
        ground (arith, open_transfer-Kept t (take_over-Kept s n md5 name k))

    write_piece-Kept : (s : DataTransfer p) (xs : List ℕ) → Kept s → Kept (write_piece p s xs).1
    unfolding write_piece
    write_piece-Kept s xs (q, r) =
        ground (arith, keep.writing s.disk s.received_file xs q, keep.feeding s.updater xs r)

    count_piece-Kept :
        (now : ℕ) (s : DataTransfer p) (count : ℕ)
        → Kept s
        → Kept (count_piece p now s count).1
          ⊎ ((s.is_fw_transfer ≡ true) × (s.remaining_file_size - count ≡ 0))
    unfolding count_piece finalize_transfer
    count_piece-Kept now s count (q, r) = ground (
      arith,
      keep.closing s.disk s.received_file q,
      keep.reopening (close s.disk s.received_file).1 (close s.disk s.received_file).0
          (keep.closing s.disk s.received_file q),
    )

    store_piece-Kept :
        (now : ℕ) (s : DataTransfer p) (xs : List ℕ)
        → Kept s
        → Kept (store_piece p now s (decoded xs)).1
          ⊎ ((s.is_fw_transfer ≡ true) × (length xs ≡ s.remaining_file_size))
    unfolding store_piece
    store_piece-Kept now s xs k =
        let (same, fw) = write_piece-SameTransfer p s xs in
        ground (
          arith,
          write_piece-Kept s xs k,
          same.same_remaining,
          count_piece-Kept now (write_piece p s xs).1 (length xs) (write_piece-Kept s xs k),
        )

    -- A piece is looked at only in its turn.
    store_base64-Kept :
        (now : ℕ) (s : DataTransfer p) (number : ℕ) (text : Option (List ℕ)) (piece : Piece)
        → decode_piece text ≡ piece
        → Kept s
        → Kept (store_base64 p now s number text).1 ⊎ Installs (store_call now number text) s
    unfolding store_base64
    store_base64-Kept now s number text (refused e) is k = inl (ground arith)
    store_base64-Kept now s number text (decoded xs) is k =
        elim (store_base64-cases p now s number text) [
          | inl (e, same) ↦ inl (rw same k)
          | inr (state, number, same) ↦ elim (store_piece-Kept now s xs k) [
            | inl kept ↦ inl (rw (same, is) kept)
            | inr (fw, whole) ↦ inr (fw, state, number, (xs, is, whole))
          ]
        ]

    run_check-Kept :
        (s : DataTransfer p)
        → Kept s
        → Kept (run_check p s)
          ⊎ ((available s.disk s.received_file ≡ 0)
              × (same_ignoring_case file_md5_size (md5_to_string (md5_calculate s.md5)) s.file_md5
                  ≡ true))
    unfolding run_check
    run_check-Kept s (q, r) =
        let left = available s.disk s.received_file in
        ground (
          arith,
          keep.reading s.disk s.received_file
              (if leb read_buffer_size left then read_buffer_size else left) q,
        )

    cleanup_transfer-Kept : (s : DataTransfer p) → Kept s → Kept (cleanup_transfer p s)
    unfolding cleanup_transfer
    cleanup_transfer-Kept s (q, r) =
        ground (arith, keep.closing s.disk s.received_file q, keep.dropping s.updater r)

    run_state-Kept :
        (now : ℕ) (s : DataTransfer p) (st : TransferState)
        → s.transfer_state ≡ st
        → (in_progress st && has_elapsed now s.transfer_timeout_timer transfer_timeout_time) ≡ false
        → Kept s
        → Kept (run_state p now st s) ⊎ Installs (pass now) s
    unfolding run_state
    run_state-Kept now s TransferState.idle e soon k = inl k
    run_state-Kept now s TransferState.storing e soon k = inl k
    run_state-Kept now s TransferState.check e soon k = elim (run_check-Kept s k) [
      | inl kept ↦ inl kept
      | inr (whole, sum) ↦ inr (e, soon, whole, sum)
    ]
    run_state-Kept now s TransferState.cleanup e soon k = inl (cleanup_transfer-Kept s k)

    run_validity_check-Kept :
        (now : ℕ) (s : DataTransfer p)
        → Kept s
        → Kept (run_validity_check p now s) ⊎ Installs (pass now) s
    run_validity_check-Kept now s k = elim (run_validity_check-cases p now s) [
      | inl (_, _, late) ↦
          inl (
            rw late (cleanup_transfer-Kept (record s { transfer_state = TransferState.cleanup }) k))
      | inr (soon, same) ↦ rw same (run_state-Kept now s s.transfer_state refl soon k)
    ]

    -- Let the file system and the updater have properties that nothing breaks but a rename and an
    -- image's end. Then a call keeps both, unless it is a pass that finds the received file read to its
    -- end, in time, with the MD5 that was announced, or the piece, in its turn, with which a firmware
    -- image has exactly the announced size.
    pub install_guard :
        (c : Call p) (s : DataTransfer p) → Kept s → Kept (perform p c s) ⊎ Installs c s
    unfolding perform begin get_error_code
    install_guard (begin_call now n md5 name) s k =
        inl (begin_request-Kept now s n (check_request n md5 name) k)
    install_guard (store_call now number text) s k =
        store_base64-Kept now s number text (decode_piece text) refl k
    install_guard (pass now) s k = run_validity_check-Kept now s k
    install_guard read_error s k = inl k
