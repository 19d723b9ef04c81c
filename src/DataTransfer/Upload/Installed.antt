-- ===== src/DataTransfer/Upload/Installed.antt =====
-- What an upload comes to, with a file system and an MD5 that behave.
use can_systems.Prelude.{
  ℕ, suc, ◌+◌, ◌-◌, ◌^◌, ◌<◌, ◌≡◌, refl, sym, ap, ◌∙◌, arith, true, false, List, [], ◌∷◌, ◌++◌,
  some, length, take, take-eq_of_le, subst, subst⁻¹, All,
}
use can_systems.Common.Time.{has_elapsed}
use can_systems.Common.FileName.{
  temp_file_location, same_ignoring_case, is_own_firmware_file_name, is_valid_file_name-length,
}
use can_systems.DataTransfer.Driver.{Platform}
use can_systems.DataTransfer.{
  DataTransfer, TransferState, take_over, open_transfer, begin_file, end_begin, begin, free_space,
  transfer_timeout_time, file_md5_size,
}
use can_systems.DataTransfer.Laws.{DiskLaws, Md5Laws}
use can_systems.DataTransfer.Cases.{begin-accepted}
use can_systems.DataTransfer.Invariant.{take_over_lem}
use can_systems.DataTransfer.Upload.{Receiving, deliver, passes}
use can_systems.DataTransfer.Upload.Delivery.{IsPiece, flatten, deliver-Checking}
use can_systems.DataTransfer.Upload.Readback.{passes-Placed}

module _ (p : Platform) (laws : DiskLaws p) {digest : List ℕ → List ℕ} (md5_laws : Md5Laws p digest)
    (content name md5 : List ℕ) where
  -- The temporary file is open, and the space is enough.
  begin_file_lem :
      (now : ℕ) (t : DataTransfer p)
      → t.is_fw_transfer ≡ false
      → (end_begin p now (open_transfer p t).0 (open_transfer p t).1).0 ≡ true
      → let (f, d) = p.open_write t.disk temp_file_location in
        (p.is_open f ≡ true)
        × (t.file_size < free_space p d)
        × ((end_begin p now (open_transfer p t).0 (open_transfer p t).1).1 ≡ record t {
          received_file = f;
          disk = d;
          transfer_timeout_timer = now;
          transfer_state = TransferState.storing;
        })
  unfolding end_begin open_transfer begin_file
  begin_file_lem now t plain begun = ground arith

  take_over-rest :
      (n : ℕ) (s : DataTransfer p)
      → let t = take_over p s n md5 name in
        (t.err_state ≡ s.err_state)
        × (t.has_callback ≡ s.has_callback)
        × (t.reported ≡ s.reported)
        × (t.is_fw_transfer ≡ is_own_firmware_file_name (take 31 name))
  unfolding take_over
  take_over-rest n s = ground arith

  -- A file whose transfer has begun.
  begin-Receiving :
      (now : ℕ) (s : DataTransfer p)
      → is_own_firmware_file_name name ≡ false
      → s.err_state.error_state ≡ 0
      → s.has_callback ≡ true
      → (begin p now s (length content) (some md5) (some name)).0 ≡ true
      → Receiving p laws md5_laws content name
          (take (file_md5_size - 1) md5)
          s.reported
          now
          0
          []
          (begin p now s (length content) (some md5) (some name)).1
  begin-Receiving now s plain clean heard begun =
      let n = length content in
      let t = take_over p s n md5 name in
      let (valid, opening) = begin-accepted p now n s md5 name begun in
      let (_, size, missing, next, named, summed) = take_over_lem p s n md5 name in
      let (err, callback, told, own) = take_over-rest n s in
      let whole : take 31 name ≡ name =
        take-eq_of_le 31 name (omega (arith, is_valid_file_name-length name valid)) in
      let (opened, room, begins) =
        begin_file_lem now t (own ∙ ap is_own_firmware_file_name whole ∙ plain)
          (ap (λ r. r.0) (sym opening) ∙ begun) in
      subst⁻¹
        (λ u.
          Receiving p laws md5_laws content name (take (file_md5_size - 1) md5) s.reported now 0 []
            u)
        (ap (λ r. r.1) opening ∙ begins)
        (record {
          going = record {
            plain = own ∙ ap is_own_firmware_file_name whole ∙ plain;
            named = named ∙ whole;
            announced = summed;
            sized = size;
            clean = ap (λ e. e.error_state) err ∙ clean;
            heard = callback ∙ heard;
            told = told;
          };
          state = refl;
          next = next;
          counted = omega arith;
          missing = omega (arith, missing);
          timer = refl;
          room = free_space p (p.open_write t.disk temp_file_location).1;
          enough = omega (arith, room, size);
          writing = laws.open_write_lem t.disk temp_file_location opened;
        })

  -- A file that is sent from its beginning to its end is installed: once `begin` has accepted it, and
  -- its pieces, each of 1 to 126 bytes in base64, have come in turn with a pass before each, some number
  -- of passes later the transfer is idle again with no error, has reported one success, and the file
  -- stands under its name with every byte. The name is not that of the firmware, the announced MD5 is
  -- that of the content, in whatever case; no error is pending, the file is smaller than 2^32 bytes,
  -- and no more than 15 minutes pass from one piece to the next, and from the last through as many
  -- passes as the file has bytes, and one more.
  pub file_is_installed :
      (clock : ℕ → ℕ) (s : DataTransfer p) (piece : List ℕ) (pieces : List (List ℕ))
      → is_own_firmware_file_name name ≡ false
      → same_ignoring_case file_md5_size (digest content) (take (file_md5_size - 1) md5) ≡ true
      → s.err_state.error_state ≡ 0
      → s.has_callback ≡ true
      → length content < 2 ^ 32
      → IsPiece piece
      → All IsPiece pieces
      → piece ++ flatten pieces ≡ content
      → ((i j : ℕ)
          → j < length content + 1
          → has_elapsed (clock (suc i + j)) (clock i) transfer_timeout_time ≡ false)
      → (begin p (clock 0) s (length content) (some md5) (some name)).0 ≡ true
      → let begun = (begin p (clock 0) s (length content) (some md5) (some name)).1 in
        let (i, sent) = deliver p clock 1 0 (piece ∷ pieces) begun in
        (k : ℕ) × (let s' = passes p clock i k sent in
          (s'.transfer_state ≡ TransferState.idle)
          × (s'.err_state.error_state ≡ 0)
          × (s'.reported ≡ true ∷ s.reported)
          × laws.Stored name content s'.disk)
  file_is_installed clock s piece pieces plain sum clean heard bound first rest whole prompt begun =
      let summed = take (file_md5_size - 1) md5 in
      let start = (begin p (clock 0) s (length content) (some md5) (some name)).1 in
      let next = λ (i : ℕ).
        subst (λ k. has_elapsed (clock k) (clock i) transfer_timeout_time ≡ false)
          (let e : suc i + 0 ≡ suc i = omega arith in e) (prompt i 0 (omega arith)) in
      let (t, (at, checking)) =
        deliver-Checking p laws md5_laws content name summed s.reported clock 0 0 [] piece pieces
          start bound next (begin-Receiving (clock 0) s plain clean heard begun) first rest whole in
      let sent = (deliver p clock 1 0 (piece ∷ pieces) start).1 in
      let (k, (placed, state)) =
        passes-Placed p laws md5_laws content name summed s.reported clock (clock t) (suc t)
          (length content) 0 sent (λ j h. prompt t j h) checking (omega arith) sum in
      subst⁻¹
        (λ i.
          (k : ℕ) × (let s' = passes p clock i k sent in
            (s'.transfer_state ≡ TransferState.idle)
            × (s'.err_state.error_state ≡ 0)
            × (s'.reported ≡ true ∷ s.reported)
            × laws.Stored name content s'.disk))
        at (k, (state, placed.clean, placed.told, placed.stored))
