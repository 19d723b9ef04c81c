-- ===== src/DataTransfer/Outcome.antt =====
-- How a piece ends, and a transfer of which nothing is heard.
use can_systems.Prelude.{
  ℕ, ◌+◌, ◌-◌, ◌%◌, ◌^◌, ◌≤◌, ◌≡◌, ◌⊎◌, refl, sym, subst, ◌∙◌, ap, arith, inl, inr, Bool, true,
  false, ◌&&◌, List, ◌∷◌, Option, length, ltb, ◌==◌, if◌then◌else◌, Bool-cases,
}
use can_systems.Common.Time.{has_elapsed}
use can_systems.Common.FileName.{temp_file_location}
use can_systems.Common.ErrorState.{set_error, get_raw_error_state}
use can_systems.DataTransfer.Driver.{Platform}
use can_systems.DataTransfer.{
  DataTransfer, TransferState, DataTransferError, error_bit, Piece, refused, decoded, decode_piece,
  raise, write_piece, count_piece, finalize_transfer, finalize_firmware, finalize_file, store_piece,
  store_base64, cleanup_transfer, run_validity_check, in_progress, transfer_timeout_time,
}
use can_systems.DataTransfer.Cases.{store_base64-cases, run_validity_check-cases}
use can_systems.DataTransfer.Invariant.{write_piece-SameTransfer}

module _ (p : Platform) where
  -- A call that is refused: one error is noted, and nothing else has changed, or the transfer is given
  -- up.
  pub record Refused (s s' : DataTransfer p) : Type 0 where
    pub error : DataTransferError
    pub noted : s'.err_state ≡ set_error s.err_state (error_bit error)
    pub harmless : (s' ≡ raise p s error) ⊎ (s'.transfer_state ≡ TransferState.cleanup)

  -- A piece that is taken: it was its turn, its bytes are no more than were missing, and they are
  -- counted; the next piece has the next number.
  pub record Taken (s : DataTransfer p) (number : ℕ) (text : Option (List ℕ)) (s' : DataTransfer p)
      : Type 0 where
    pub bytes : List ℕ
    pub storing : s.transfer_state ≡ TransferState.storing
    pub turn : number ≡ s.next_file_piece_number
    pub decodes : decode_piece text ≡ decoded bytes
    pub fits : length bytes ≤ s.remaining_file_size
    pub counted : s'.remaining_file_size ≡ s.remaining_file_size - length bytes
    pub moved : s'.next_file_piece_number ≡ (number + 1) % 2 ^ 32
    pub clean : s'.err_state ≡ s.err_state

  -- A step that succeeds and leaves the counts, or notes one error and gives up.
  abbrev Ends : DataTransfer p → Bool × DataTransfer p → Type 0
  Ends s (done, s') =
      ((done ≡ true)
        × (s'.err_state ≡ s.err_state)
        × (s'.remaining_file_size ≡ s.remaining_file_size)
        × (s'.next_file_piece_number ≡ s.next_file_piece_number))
      ⊎ ((e : DataTransferError) × ((done ≡ false)
            × (s'.err_state ≡ set_error s.err_state (error_bit e))
            × (s'.transfer_state ≡ TransferState.cleanup)))

  finalize_firmware-Ends : (s : DataTransfer p) → Ends s (finalize_firmware p s)
  unfolding finalize_firmware
  finalize_firmware-Ends s = elim (Bool-cases (p.update_end s.updater).0) [
    | inl ended ↦ inl (ground arith)
    | inr failed ↦ inr (DataTransferError.fw_upgrade_end_failed, ground arith)
  ]

  finalize_file-Ends : (now : ℕ) (s : DataTransfer p) → Ends s (finalize_file p now s)
  unfolding finalize_file
  finalize_file-Ends now s =
      let d = (p.close s.disk s.received_file).1 in
      let f = (p.open_read d temp_file_location).0 in
      let d' = (p.open_read d temp_file_location).1 in
      elim (Bool-cases (p.is_open f)) [
        | inl opened ↦ elim (Bool-cases (p.size d' f == s.file_size)) [
          | inl size ↦ inl (ground arith)
          | inr other ↦ inr (DataTransferError.received_file_size_error, ground arith)
        ]
        | inr shut ↦ inr (DataTransferError.temp_file_opening_error, ground arith)
      ]

  finalize_transfer-Ends : (now : ℕ) (s : DataTransfer p) → Ends s (finalize_transfer p now s)
  unfolding finalize_transfer
  finalize_transfer-Ends now s = elim (Bool-cases s.is_fw_transfer) [
    | inl own ↦
        (let e : finalize_transfer p now s ≡ finalize_firmware p s = ground arith in
          subst (Ends s) (sym e) (finalize_firmware-Ends s))
    | inr plain ↦
        (let e : finalize_transfer p now s ≡ finalize_file p now s = ground arith in
          subst (Ends s) (sym e) (finalize_file-Ends now s))
  ]

  -- The counts after a piece.
  abbrev count_up : ℕ → DataTransfer p → ℕ → DataTransfer p
  count_up now s count = record s {
    next_file_piece_number = (s.next_file_piece_number + 1) % 2 ^ 32;
    remaining_file_size = s.remaining_file_size - count;
    transfer_timeout_timer = now;
  }

  count_piece-Ends :
      (now : ℕ) (s : DataTransfer p) (count : ℕ)
      → Ends (count_up now s count) (count_piece p now s count)
  unfolding count_piece
  count_piece-Ends now s count = elim (Bool-cases (s.remaining_file_size - count == 0)) [
    | inl whole ↦
        (let e : count_piece p now s count ≡ finalize_transfer p now (count_up now s count) =
            ground arith in
          subst (Ends (count_up now s count)) (sym e)
            (finalize_transfer-Ends now (count_up now s count)))
    | inr more ↦ inl (ground arith)
  ]

  -- The two ways in which a call ends.
  abbrev Answered : DataTransfer p → ℕ → Option (List ℕ) → Bool × DataTransfer p → Type 0
  Answered s number text (done, s') =
      ((done ≡ true) × Taken s number text s') ⊎ ((done ≡ false) × Refused s s')

  write_piece_lem :
      (s : DataTransfer p) (xs : List ℕ) → (write_piece p s xs).1.err_state ≡ s.err_state
  unfolding write_piece
  write_piece_lem s xs = ground arith

  store_piece-decoded :
      (now : ℕ) (s : DataTransfer p) (xs : List ℕ)
      → ((length xs ≤ s.remaining_file_size)
          × (store_piece p now s (decoded xs)
              ≡ count_piece p now (write_piece p s xs).1 (length xs)))
        ⊎ ((e : DataTransferError) × (((store_piece p now s (decoded xs)).0 ≡ false)
              × ((store_piece p now s (decoded xs)).1.err_state
                  ≡ set_error s.err_state (error_bit e))
              × ((store_piece p now s (decoded xs)).1.transfer_state ≡ TransferState.cleanup)))
  unfolding store_piece
  store_piece-decoded now s xs = elim (Bool-cases (ltb s.remaining_file_size (length xs))) [
    | inl over ↦ inr (DataTransferError.received_data_overrun, ground arith)
    | inr fits ↦ elim (Bool-cases ((write_piece p s xs).0 == length xs)) [
      | inl wrote ↦ inl (ground arith, ground arith)
      | inr failed ↦ inr (
        if s.is_fw_transfer
            then DataTransferError.fw_upgrade_write_failed
            else DataTransferError.temp_file_writing_error,
        ground (arith, write_piece_lem s xs),
      )
    ]
  ]

  store_piece-Answered :
      (now : ℕ) (s : DataTransfer p) (number : ℕ) (text : Option (List ℕ)) (piece : Piece)
      → s.transfer_state ≡ TransferState.storing
      → number ≡ s.next_file_piece_number
      → decode_piece text ≡ piece
      → Answered s number text (store_piece p now s piece)
  store_piece-Answered now s number text (refused e) state turn is =
      unfold store_piece in
      inr (refl, record { error = e; noted = (unfold raise in refl); harmless = inl refl })
  store_piece-Answered now s number text (decoded xs) state turn is =
      elim (store_piece-decoded now s xs) [
        | inl (fits, same) ↦
            (let t = (write_piece p s xs).1 in
              let (kept, _) = write_piece-SameTransfer p s xs in
              elim (count_piece-Ends now t (length xs)) [
                | inl (done, clean, left, next) ↦ inl (
                  ap (λ r. r.0) same ∙ done,
                  record {
                    bytes = xs;
                    storing = state;
                    turn = turn;
                    decodes = is;
                    fits = fits;
                    counted =
                        ap (λ r. r.1.remaining_file_size) same
                        ∙ left
                        ∙ ap (λ n. n - length xs) kept.same_remaining;
                    moved =
                        ap (λ r. r.1.next_file_piece_number) same
                        ∙ next
                        ∙ ap (λ n. (n + 1) % 2 ^ 32) (kept.same_next ∙ sym turn);
                    clean = ap (λ r. r.1.err_state) same ∙ clean ∙ write_piece_lem s xs;
                  },
                )
                | inr (e, (failed, noted, state')) ↦ inr (
                  ap (λ r. r.0) same ∙ failed,
                  record {
                    error = e;
                    noted =
                        ap (λ r. r.1.err_state) same
                        ∙ noted
                        ∙ ap (λ x. set_error x (error_bit e)) (write_piece_lem s xs);
                    harmless = inr (ap (λ r. r.1.transfer_state) same ∙ state');
                  },
                )
              ])
        | inr (e, (failed, noted, state')) ↦
            inr (failed, record { error = e; noted = noted; harmless = inr state' })
      ]

  -- A piece is either taken, and then it was its turn, its bytes are no more than were missing, they
  -- are counted and the next number is expected, with no error; or it is refused with exactly one more
  -- error noted, and then nothing else has changed, so that the same piece may be sent again, or the
  -- transfer is given up.
  pub store_base64-Answered :
      (now : ℕ) (s : DataTransfer p) (number : ℕ) (text : Option (List ℕ))
      → Answered s number text (store_base64 p now s number text)
  store_base64-Answered now s number text = elim (store_base64-cases p now s number text) [
    | inl (e, same) ↦
        rw same
          (inr (refl, record { error = e; noted = (unfold raise in refl); harmless = inl refl }))
    | inr (state, turn, same) ↦
        rw same (store_piece-Answered now s number text (decode_piece text) state turn refl)
  ]

  cleanup_transfer-idle :
      (s : DataTransfer p)
      → let s' = cleanup_transfer p s in
        (s'.transfer_state ≡ TransferState.idle)
        × (s'.remaining_file_size ≡ 0)
        × (s'.is_fw_transfer ≡ false)
  unfolding cleanup_transfer
  cleanup_transfer-idle s = (ground arith, ground arith, ground arith)

  cleanup_transfer-updater :
      (s : DataTransfer p)
      → (cleanup_transfer p s).updater ≡ (
          if s.is_fw_transfer && ltb 0 s.remaining_file_size
          then p.update_abort s.updater
          else s.updater)
  unfolding cleanup_transfer
  cleanup_transfer-updater s = ground arith

  cleanup_transfer-disk :
      (s : DataTransfer p)
      → (cleanup_transfer p s).disk
        ≡ (if p.is_open s.received_file then (p.close s.disk s.received_file).1 else s.disk)
  unfolding cleanup_transfer
  cleanup_transfer-disk s = ground arith

  cleanup_transfer-reported :
      (s : DataTransfer p)
      → (cleanup_transfer p s).reported ≡ (
          if s.has_callback && ltb 0 s.err_state.error_state
          then false ∷ s.reported
          else s.reported)
  unfolding cleanup_transfer get_raw_error_state
  cleanup_transfer-reported s = ground arith

  -- A transfer of which nothing has been heard for more than 15 minutes ends with the next pass,
  -- whether it waits for pieces or is checked: it is idle, nothing is missing and no image open; an
  -- image that was not whole is dropped, nothing is renamed, and a failure is reported if an error is
  -- pending, and only then.
  pub silent_transfer_ends :
      (now : ℕ) (s : DataTransfer p)
      → in_progress s.transfer_state ≡ true
      → has_elapsed now s.transfer_timeout_timer transfer_timeout_time ≡ true
      → let s' = run_validity_check p now s in
        (s'.transfer_state ≡ TransferState.idle)
        × (s'.remaining_file_size ≡ 0)
        × (s'.is_fw_transfer ≡ false)
        × (s'.updater ≡ (
            if s.is_fw_transfer && ltb 0 s.remaining_file_size
            then p.update_abort s.updater
            else s.updater))
        × (s'.disk
            ≡ (if p.is_open s.received_file then (p.close s.disk s.received_file).1 else s.disk))
        × (s'.reported ≡ (
            if s.has_callback && ltb 0 s.err_state.error_state
            then false ∷ s.reported
            else s.reported))
  silent_transfer_ends now s going late = elim (run_validity_check-cases p now s) [
    | inl (_, _, same) ↦
        (let t = record s { transfer_state = TransferState.cleanup } in
          let (idle, none_missing, no_image) = cleanup_transfer-idle t in
          rw same (
            (
              idle,
              none_missing,
              no_image,
              cleanup_transfer-updater t,
              cleanup_transfer-disk t,
              cleanup_transfer-reported t,
            )))
    | inr (soon, _) ↦ absurd (ground (arith, going, late, soon))
  ]
