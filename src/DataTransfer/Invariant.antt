-- ===== src/DataTransfer/Invariant.antt =====
-- What holds of a transfer through any calls.
use can_systems.Prelude.{
  ℕ, ◌+◌, ◌-◌, ◌%◌, ◌^◌, ◌≤◌, ◌<◌, ◌≡◌, refl, sym, ◌∙◌, ap, arith, Bool, true, false, List, [], ◌∷◌,
  Option, none, some, length, ltb, ◌==◌, take, take-eq_of_le, Bool-cases, inl, inr,
}
use can_systems.Common.FileName.{is_valid_file_name, is_valid_file_name-length}
use can_systems.DataTransfer.Driver.{Platform}
use can_systems.DataTransfer.{
  DataTransfer, TransferState, Request, unfit, fit, Piece, refused, decoded, check_request,
  decode_piece, in_use_by, end_begin, count_piece, take_over, open_transfer, begin_request, begin,
  finalize_transfer, write_piece, store_piece, store_base64, run_check, cleanup_transfer, run_state,
  check_timeout, run_validity_check, get_error_code, in_progress, is_storing, file_name_size,
  file_md5_size,
}

abbrev pub is_idle : TransferState → Bool
is_idle TransferState.idle = true
is_idle _ = false

abbrev pub is_checking : TransferState → Bool
is_checking TransferState.check = true
is_checking _ = false

-- A request that is accepted.
pub check_request-fit :
    (n : ℕ) (file_md5 file_name : Option (List ℕ)) (md5 name : List ℕ)
    → check_request n file_md5 file_name ≡ fit md5 name
    → (0 < n) × (is_valid_file_name name ≡ true)
unfolding check_request
check_request-fit n none file_name md5 name h = absurd (ground arith)
check_request-fit n (some m) none md5 name h = absurd (ground arith)
check_request-fit n (some m) (some f) md5 name h = ground arith

module _ (p : Platform) where
  open p use {Disk, File, Updater}

  pub record IsValid (s : DataTransfer p) : Type 0 where
    pub missing : is_storing s.transfer_state ≡ true → 0 < s.remaining_file_size
    pub sized : s.remaining_file_size ≤ s.file_size
    pub named : in_progress s.transfer_state ≡ true → is_valid_file_name s.file_name ≡ true
    pub plain : is_checking s.transfer_state ≡ true → s.is_fw_transfer ≡ false
    pub unopened : is_idle s.transfer_state ≡ true → s.is_fw_transfer ≡ false

  -- What a call leaves as it was.
  pub record SameTransfer (s s' : DataTransfer p) : Type 0 where
    pub same_state : s'.transfer_state ≡ s.transfer_state
    pub same_size : s'.file_size ≡ s.file_size
    pub same_remaining : s'.remaining_file_size ≡ s.remaining_file_size
    pub same_name : s'.file_name ≡ s.file_name
    pub same_md5 : s'.file_md5 ≡ s.file_md5
    pub same_next : s'.next_file_piece_number ≡ s.next_file_piece_number

  pub open_transfer-SameTransfer :
      (s : DataTransfer p)
      → let (opened, s') = open_transfer p s in
        SameTransfer s s'
        × (opened ≡ true → s'.is_fw_transfer ≡ s.is_fw_transfer)
        × (opened ≡ false → s'.is_fw_transfer ≡ false)
  unfolding open_transfer
  open_transfer-SameTransfer s = (ground arith, λ h. ground arith, λ h. ground arith)

  pub take_over_lem :
      (s : DataTransfer p) (n : ℕ) (md5 name : List ℕ)
      → let s' = take_over p s n md5 name in
        (s'.transfer_state ≡ s.transfer_state)
        × (s'.file_size ≡ n)
        × (s'.remaining_file_size ≡ n)
        × (s'.next_file_piece_number ≡ 0)
        × (s'.file_name ≡ take (file_name_size - 1) name)
        × (s'.file_md5 ≡ take (file_md5_size - 1) md5)
  unfolding take_over
  take_over_lem s n md5 name = ground arith

  -- The end of `begin`.
  end_begin-IsValid :
      (now : ℕ) (s t s' : DataTransfer p) (opened : Bool)
      → IsValid s
      → t.transfer_state ≡ s.transfer_state
      → 0 < t.remaining_file_size
      → t.remaining_file_size ≡ t.file_size
      → is_valid_file_name t.file_name ≡ true
      → SameTransfer t s'
      → (opened ≡ false → s'.is_fw_transfer ≡ false)
      → IsValid (end_begin p now opened s').1
  unfolding end_begin
  end_begin-IsValid now s t s' false v state pos full valid same plain = record {
    missing = λ h. omega (arith, same.same_remaining);
    sized = omega (arith, same.same_remaining, same.same_size);
    named = λ h. ap is_valid_file_name same.same_name ∙ valid;
    plain = λ h. plain refl;
    unopened = λ h. plain refl;
  }
  end_begin-IsValid now s t s' true v state pos full valid same plain = record {
    missing = λ h. omega (arith, same.same_remaining);
    sized = omega (arith, same.same_remaining, same.same_size);
    named = λ h. ap is_valid_file_name same.same_name ∙ valid;
    plain = λ h. cc;
    unopened = λ h. cc;
  }

  begin_request-IsValid :
      (now : ℕ) (s : DataTransfer p) (n : ℕ) (r : Request)
      → ((md5 name : List ℕ) → r ≡ fit md5 name → (0 < n) × (is_valid_file_name name ≡ true))
      → IsValid s
      → IsValid (begin_request p now s n r).1
  unfolding begin_request
  begin_request-IsValid now s n (unfit e) h v = ground arith
  begin_request-IsValid now s n (fit md5 name) h v =
      let (pos, valid) = h md5 name refl in
      let t = take_over p s n md5 name in
      let (state, size, remaining, _, named, _) = take_over_lem s n md5 name in
      let (same, _, plain) = open_transfer-SameTransfer t in
      let whole : take (file_name_size - 1) name ≡ name =
        take-eq_of_le 31 name (omega (arith, is_valid_file_name-length name valid)) in
      elim (Bool-cases (in_use_by s.file_in_use name)) [
        | inl used ↦ rw used (ground arith)
        | inr free ↦ rw free (
            end_begin-IsValid now s t (open_transfer p t).1 (open_transfer p t).0 v state
              (omega (arith, remaining)) (remaining ∙ sym size)
              (ap is_valid_file_name (named ∙ whole) ∙ valid) same plain)
      ]

  begin-IsValid :
      (now : ℕ) (s : DataTransfer p) (n : ℕ) (md5 name : Option (List ℕ))
      → IsValid s
      → IsValid (begin p now s n md5 name).1
  unfolding begin
  begin-IsValid now s n md5 name v =
      begin_request-IsValid now s n (check_request n md5 name) (check_request-fit n md5 name) v

  finalize_transfer-IsValid :
      (now : ℕ) (s : DataTransfer p)
      → s.remaining_file_size ≤ s.file_size
      → is_valid_file_name s.file_name ≡ true
      → IsValid (finalize_transfer p now s).1
  unfolding finalize_transfer
  finalize_transfer-IsValid now s h n = ground arith

  pub write_piece-SameTransfer :
      (s : DataTransfer p) (bytes : List ℕ)
      → let s' = (write_piece p s bytes).1 in
        SameTransfer s s' × (s'.is_fw_transfer ≡ s.is_fw_transfer)
  unfolding write_piece
  write_piece-SameTransfer s bytes = (ground arith, ground arith)

  -- A piece that has been written.
  count_piece-IsValid :
      (now : ℕ) (s t : DataTransfer p) (count : ℕ)
      → s.transfer_state ≡ TransferState.storing
      → IsValid s
      → SameTransfer s t
      → IsValid (count_piece p now t count).1
  unfolding count_piece
  count_piece-IsValid now s t count st v same =
      let valid : is_valid_file_name t.file_name ≡ true =
        ap is_valid_file_name same.same_name ∙ v.named (ap in_progress st) in
      let state = same.same_state ∙ st in
      let smaller : t.remaining_file_size - count ≤ t.file_size =
        omega (arith, same.same_remaining, same.same_size, v.sized) in
      elim (Bool-cases (t.remaining_file_size - count == 0)) [
        | inl all ↦ rw all (
            finalize_transfer-IsValid now
              (record t {
                next_file_piece_number = (t.next_file_piece_number + 1) % 2 ^ 32;
                remaining_file_size = t.remaining_file_size - count;
                transfer_timeout_timer = now;
              })
              smaller valid)
        | inr more ↦ rw more (record {
          missing = λ h. ground arith;
          sized = smaller;
          named = λ h. valid;
          plain = λ h. cc;
          unopened = λ h. cc;
        })
      ]

  store_piece-IsValid :
      (now : ℕ) (s : DataTransfer p) (piece : Piece)
      → s.transfer_state ≡ TransferState.storing
      → IsValid s
      → IsValid (store_piece p now s piece).1
  unfolding store_piece
  store_piece-IsValid now s (refused e) st v = ground arith
  store_piece-IsValid now s (decoded bytes) st v =
      let t = (write_piece p s bytes).1 in
      let (same, _) = write_piece-SameTransfer s bytes in
      elim (Bool-cases (ltb s.remaining_file_size (length bytes))) [
        | inl over ↦ rw over (ground arith)
        | inr fits ↦ rw fits (elim (Bool-cases ((write_piece p s bytes).0 == length bytes)) [
          | inl wrote ↦ rw wrote (count_piece-IsValid now s t (length bytes) st v same)
          | inr failed ↦ rw failed (record {
            missing = λ h. cc;
            sized = omega (arith, same.same_remaining, same.same_size, v.sized);
            named = λ h. cc;
            plain = λ h. cc;
            unopened = λ h. cc;
          })
        ])
      ]

  store_base64-IsValid :
      (now : ℕ) (s : DataTransfer p) (number : ℕ) (text : Option (List ℕ))
      → IsValid s
      → IsValid (store_base64 p now s number text).1
  unfolding store_base64
  store_base64-IsValid now s number text v =
      grind (arith, store_piece-IsValid now s (decode_piece text))

  run_check-IsValid :
      (s : DataTransfer p)
      → s.transfer_state ≡ TransferState.check
      → IsValid s
      → IsValid (run_check p s)
  unfolding run_check
  run_check-IsValid s st v = ground arith

  cleanup_transfer-IsValid : (s : DataTransfer p) → IsValid (cleanup_transfer p s)
  unfolding cleanup_transfer
  cleanup_transfer-IsValid s = ground arith

  run_state-IsValid :
      (now : ℕ) (s : DataTransfer p) (st : TransferState)
      → s.transfer_state ≡ st
      → IsValid s
      → IsValid (run_state p now st s)
  unfolding run_state
  run_state-IsValid now s TransferState.idle e v = ground arith
  run_state-IsValid now s TransferState.storing e v = v
  run_state-IsValid now s TransferState.check e v = run_check-IsValid s e v
  run_state-IsValid now s TransferState.cleanup e v = cleanup_transfer-IsValid s

  check_timeout-IsValid :
      (now : ℕ) (s : DataTransfer p) → IsValid s → IsValid (check_timeout p now s)
  unfolding check_timeout
  check_timeout-IsValid now s v = ground arith

  run_validity_check-IsValid :
      (now : ℕ) (s : DataTransfer p) → IsValid s → IsValid (run_validity_check p now s)
  unfolding run_validity_check
  run_validity_check-IsValid now s v =
      run_state-IsValid now (check_timeout p now s) (check_timeout p now s).transfer_state refl
        (check_timeout-IsValid now s v)

  -- The calls that are made of a transfer.
  pub data Call : Type 0 where
    begin_call : ℕ → ℕ → Option (List ℕ) → Option (List ℕ) → Call
    store_call : ℕ → ℕ → Option (List ℕ) → Call
    pass : ℕ → Call
    read_error : Call

  unfoldable pub perform : Call → DataTransfer p → DataTransfer p
  perform (begin_call now n md5 name) s = (begin p now s n md5 name).1
  perform (store_call now number text) s = (store_base64 p now s number text).1
  perform (pass now) s = run_validity_check p now s
  perform read_error s = (get_error_code p s).1

  unfoldable pub perform_all : List Call → DataTransfer p → DataTransfer p
  perform_all [] s = s
  perform_all (c ∷ cs) s = perform_all cs (perform c s)

  pub perform-IsValid : (c : Call) (s : DataTransfer p) → IsValid s → IsValid (perform c s)
  unfolding perform get_error_code
  perform-IsValid (begin_call now n md5 name) s v = begin-IsValid now s n md5 name v
  perform-IsValid (store_call now number text) s v = store_base64-IsValid now s number text v
  perform-IsValid (pass now) s v = run_validity_check-IsValid now s v
  perform-IsValid read_error s v = ground arith

  -- Through any calls, in any order and at any times, while a transfer waits for pieces something of
  -- the file is missing, and never more than its size; a file that is received or checked has a name
  -- of the accepted ones; and no firmware image is open while a file is checked or nothing is going on.
  pub perform_all-IsValid :
      (cs : List Call) (s : DataTransfer p) → IsValid s → IsValid (perform_all cs s)
  unfolding perform_all
  perform_all-IsValid [] s v = v
  perform_all-IsValid (c ∷ cs) s v = perform_all-IsValid cs (perform c s) (perform-IsValid c s v)
