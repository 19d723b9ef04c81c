-- ===== src/MqttCommon/Reports.antt =====
-- Which calls of a transfer report a result.
use can_systems.Prelude.{
  ℕ, ◌-◌, ◌≡◌, ◌⊎◌, refl, sym, ap, ◌∙◌, arith, inl, inr, Bool, true, List, Option, length, take,
}
use can_systems.Common.FileName.{is_own_firmware_file_name}
use can_systems.DataTransfer.Driver.{Platform}
use can_systems.DataTransfer
use can_systems.DataTransfer.{
  DataTransfer, TransferState, Piece, refused, decoded, decode_piece, Request, unfit, fit,
  check_request, raise, write_piece, count_piece, finalize_transfer, finalize_file,
  finalize_firmware, store_base64, run_validity_check, take_over, open_transfer, begin_request,
  end_begin, get_error_code,
}
use can_systems.DataTransfer.Cases.{store_base64-cases}

module _ (p : Platform) where
  -- The piece that makes a firmware image whole, which the updater has then verified.
  pub record Completes (s : DataTransfer p) (number : ℕ) (text : Option (List ℕ)) : Type 0 where
    pub own : s.is_fw_transfer ≡ true
    pub storing : s.transfer_state ≡ TransferState.storing
    pub turn : number ≡ s.next_file_piece_number
    pub bytes : List ℕ
    pub decodes : decode_piece text ≡ decoded bytes
    pub whole : s.remaining_file_size - length bytes ≡ 0
    pub verified : (p.update_end (p.update_write s.updater bytes).1).0 ≡ true

  take_over-reported :
      (s : DataTransfer p) (n : ℕ) (md5 name : List ℕ)
      → (take_over p s n md5 name).reported ≡ s.reported
  unfolding take_over
  take_over-reported s n md5 name = ground arith

  pub take_over-own :
      (s : DataTransfer p) (n : ℕ) (md5 name : List ℕ)
      → (take_over p s n md5 name).is_fw_transfer ≡ is_own_firmware_file_name (take 31 name)
  unfolding take_over
  take_over-own s n md5 name = ground arith

  pub end_begin_lem :
      (now : ℕ) (opened : Bool) (s : DataTransfer p)
      → (end_begin p now opened s).0 ≡ true
      → let t = (end_begin p now opened s).1 in
        (opened ≡ true)
        × (t.is_fw_transfer ≡ s.is_fw_transfer)
        × (t.next_file_piece_number ≡ s.next_file_piece_number)
        × (t.remaining_file_size ≡ s.remaining_file_size)
  unfolding end_begin
  end_begin_lem now opened s h = ground arith

  open_transfer-reported : (s : DataTransfer p) → (open_transfer p s).1.reported ≡ s.reported
  unfolding open_transfer
  open_transfer-reported s = ground arith

  -- No call but the last piece of a firmware image, and a pass, reports.
  begin-reported :
      (now n : ℕ) (s : DataTransfer p) (r : Request)
      → (begin_request p now s n r).1.reported ≡ s.reported
  unfolding begin_request end_begin
  begin-reported now n s (unfit e) = ground arith
  begin-reported now n s (fit md5 name) =
      let t = take_over p s n md5 name in
      ground (arith, take_over-reported s n md5 name, open_transfer-reported t)

  pub begin_call-reported :
      (now n : ℕ) (s : DataTransfer p) (md5 name : Option (List ℕ))
      → (DataTransfer.begin p now s n md5 name).1.reported ≡ s.reported
  unfolding DataTransfer.begin
  begin_call-reported now n s md5 name = begin-reported now n s (check_request n md5 name)

  count_piece-reported :
      (now count : ℕ) (s : DataTransfer p)
      → ((count_piece p now s count).1.reported ≡ s.reported)
        ⊎ ((s.is_fw_transfer ≡ true)
            × (s.remaining_file_size - count ≡ 0)
            × ((p.update_end s.updater).0 ≡ true))
  unfolding count_piece finalize_transfer
  count_piece-reported now count s = ground arith

  write_piece-reported :
      (s : DataTransfer p) (xs : List ℕ)
      → let t = (write_piece p s xs).1 in
        (t.reported ≡ s.reported)
        × (t.remaining_file_size ≡ s.remaining_file_size)
        × (t.is_fw_transfer ≡ s.is_fw_transfer)
        × (s.is_fw_transfer ≡ true → t.updater ≡ (p.update_write s.updater xs).1)
  unfolding write_piece
  write_piece-reported s xs = (ground arith, ground arith, ground arith, λ h. ground arith)

  store_piece-reported :
      (now : ℕ) (s : DataTransfer p) (xs : List ℕ)
      → ((DataTransfer.store_piece p now s (decoded xs)).1.reported ≡ s.reported)
        ⊎ ((s.is_fw_transfer ≡ true)
            × (s.remaining_file_size - length xs ≡ 0)
            × ((p.update_end (write_piece p s xs).1.updater).0 ≡ true))
  unfolding DataTransfer.store_piece
  store_piece-reported now s xs = ground (
    arith,
    (write_piece-reported s xs).0,
    (write_piece-reported s xs).1,
    (write_piece-reported s xs).2,
    count_piece-reported now (length xs) (write_piece p s xs).1,
  )

  pub store_base64-reported :
      (now : ℕ) (s : DataTransfer p) (number : ℕ) (text : Option (List ℕ)) (piece : Piece)
      → decode_piece text ≡ piece
      → ((store_base64 p now s number text).1.reported ≡ s.reported) ⊎ Completes s number text
  store_base64-reported now s number text (refused e) is =
      elim (store_base64-cases p now s number text) [
        | inl (e', same) ↦ inl (rw same (unfold raise in refl))
        | inr (state, turn, same) ↦
            inl (rw (same, is) (unfold DataTransfer.store_piece raise in refl))
      ]
  store_base64-reported now s number text (decoded xs) is =
      elim (store_base64-cases p now s number text) [
        | inl (e', same) ↦ inl (rw same (unfold raise in refl))
        | inr (state, turn, same) ↦ elim (store_piece-reported now s xs) [
          | inl quiet ↦ inl (rw (same, is) quiet)
          | inr (own, whole, verified) ↦ inr (record {
            own = own;
            storing = state;
            turn = turn;
            bytes = xs;
            decodes = is;
            whole = whole;
            verified =
                ap (λ u. (p.update_end u).0) (sym ((write_piece-reported s xs).3 own)) ∙ verified;
          })
        ]
      ]
