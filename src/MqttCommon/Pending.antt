-- ===== src/MqttCommon/Pending.antt =====
-- A result that is still to be sent when the next transfer begins.
use can_systems.Prelude.{
  ℕ, ◌≡◌, refl, sym, ap, ◌∙◌, arith, true, List, [], some, take, take-eq_of_le,
}
use can_systems.Common.FileName.{same_text, is_own_firmware_file_name, is_valid_file_name-length}
use can_systems.OtaRegistry.{is_file_in_use}
use can_systems.DataTransfer.Driver.{Platform}
use can_systems.DataTransfer
use can_systems.DataTransfer.{
  DataTransfer, TransferState, Piece, refused, decoded, decode_piece, Request, unfit, fit,
  check_request, raise, write_piece, count_piece, finalize_transfer, finalize_file,
  finalize_firmware, store_base64, run_validity_check, take_over, open_transfer, begin_request,
  end_begin, get_error_code,
}
use can_systems.DataTransfer.Cases.{begin-accepted}
use can_systems.DataTransfer.Invariant.{take_over_lem, open_transfer-SameTransfer}
use can_systems.MqttCommon.{
  MqttCommon, begin_file, answer, after_call, file_valid_cb, take_result, run, right_build,
}
use can_systems.MqttCommon.Reports.{begin_call-reported, take_over-own, end_begin_lem}

module _ (p : Platform) (env : List ℕ) where
  -- What an accepted request for a firmware leaves.
  firmware_begun :
      (now n : ℕ) (s : DataTransfer p) (md5 name : List ℕ)
      → is_own_firmware_file_name name ≡ true
      → (DataTransfer.begin p now s n (some md5) (some name)).0 ≡ true
      → let t = (DataTransfer.begin p now s n (some md5) (some name)).1 in
        (t.is_fw_transfer ≡ true) × (t.next_file_piece_number ≡ 0) × (t.remaining_file_size ≡ n)
  firmware_begun now n s md5 name own begun =
      let t = take_over p s n md5 name in
      let (valid, opening) = begin-accepted p now n s md5 name begun in
      let (_, _, missing, next, named, _) = take_over_lem p s n md5 name in
      let whole : take 31 name ≡ name =
        take-eq_of_le 31 name (omega (arith, is_valid_file_name-length name valid)) in
      let (same, kept, _) = open_transfer-SameTransfer p t in
      let fw : t.is_fw_transfer ≡ true =
        take_over-own p s n md5 name ∙ ap is_own_firmware_file_name whole ∙ own in
      let (opened, is_fw, is_next, is_missing) =
        end_begin_lem p now (open_transfer p t).0 (open_transfer p t).1
          (ap (λ r. r.0) (sym opening) ∙ begun) in
      (
        ap (λ r. r.1.is_fw_transfer) opening ∙ is_fw ∙ kept opened ∙ fw,
        ap (λ r. r.1.next_file_piece_number) opening ∙ is_next ∙ same.same_next ∙ next,
        ap (λ r. r.1.remaining_file_size) opening ∙ is_missing ∙ same.same_remaining ∙ missing,
      )

  begin_file_lem :
      (now : ℕ) (s : MqttCommon p env) (bin_id name md5 : List ℕ) (n : ℕ)
      → same_text bin_id env ≡ true
      → let asked = record s.transfer {
        file_in_use = some (λ file. is_file_in_use (some file) s.registry);
      } in
        let (begun, t) = DataTransfer.begin p now asked n (some md5) (some name) in
        (begun ≡ true
          → t.is_fw_transfer ≡ true
          → t.reported ≡ []
          → begin_file p env now s (some bin_id) name n md5
            ≡ answer p env
                (record s { transfer = record t { reported = [] }; is_restart_required = true })
                true)
  unfolding begin_file right_build after_call file_valid_cb
  begin_file_lem now s bin_id name md5 n right begun fw told = ground arith

  run_with_result :
      (now : ℕ) (s : MqttCommon p env)
      → s.is_file_check_done ≡ true
      → s.is_file_valid ≡ true
      → s.is_restart_required ≡ true
      → (run p env now s).halted ≡ true
  unfolding run take_result
  run_with_result now s done valid required = ground arith

  -- A firmware transfer that begins after a file or an image has passed its check, and before the pass
  -- that would send the result, makes that pass restart the device, with nothing of the new image
  -- received: the restart that the new transfer asks for is taken for that of the one before.
  pub restart_before_image :
      (now now' : ℕ) (s : MqttCommon p env) (bin_id name md5 : List ℕ) (n : ℕ)
      → s.is_file_check_done ≡ true
      → s.is_file_valid ≡ true
      → s.transfer.reported ≡ []
      → is_own_firmware_file_name name ≡ true
      → same_text bin_id env ≡ true
      → (DataTransfer.begin p now
          (record s.transfer { file_in_use = some (λ file. is_file_in_use (some file) s.registry) })
          n
          (some md5)
          (some name)).0
        ≡ true
      → let s' = begin_file p env now s (some bin_id) name n md5 in
        ((run p env now' s').halted ≡ true)
        × (s'.transfer.next_file_piece_number ≡ 0)
        × (s'.transfer.remaining_file_size ≡ n)
  unfolding answer get_error_code
  restart_before_image now now' s bin_id name md5 n done valid quiet own right begun =
      let asked = record s.transfer {
        file_in_use = some (λ file. is_file_in_use (some file) s.registry);
      } in
      let t = (DataTransfer.begin p now asked n (some md5) (some name)).1 in
      let (fw, next, missing) = firmware_begun now n asked md5 name own begun in
      let told : t.reported ≡ [] =
        begin_call-reported p now n asked (some md5) (some name) ∙ quiet in
      let begins : begin_file p env now s (some bin_id) name n md5
          ≡ answer p env
              (record s { transfer = record t { reported = [] }; is_restart_required = true })
              true =
        begin_file_lem now s bin_id name md5 n right begun fw told in
      let s' =
        answer p env
          (record s { transfer = record t { reported = [] }; is_restart_required = true }) true in
      rw begins ((run_with_result now' s' done valid refl, next, missing))
