-- ===== src/DataTransfer/Tests.antt =====
-- A file of five bytes in two pieces, on a file system in memory.
use can_systems.Prelude.{
  ℕ, ◌+◌, ◌-◌, ◌%◌, ◌≤◌, ◌<◌, suc, ◌*◌, ◌≡◌, ◌⊎◌, refl, arith, Bool, true, false, ◌&&◌, List, [],
  ◌∷◌, ◌++◌, none, some, if◌then◌else◌, length, take, ltb,
}
use can_systems.Common.Time.{has_elapsed}
use can_systems.Common.FileName.{
  same_text, codes, temp_file_location, same_ignoring_case, to_lower, is_own_firmware_file_name,
  is_valid_file_name, is_one_of, allowed_locations, tube_config_location, ota_fw_location,
  mqtt_server_cert_location, mqtt_server_cred_location, can_alert_fw_location,
}
use can_systems.Base64.{decode_base64}
use can_systems.DataTransfer.{
  check_request, in_use_by, file_md5_size, DataTransfer, TransferState, decoded, decode_piece,
  file_piece_size, max_file_piece_length, new, begin, store_base64, run_validity_check,
  transfer_timeout_time,
}
use can_systems.DataTransfer.Invariant.{
  Call, store_call, pass, begin_call, IsValid, perform, perform_all, perform_all-IsValid,
}
use can_systems.DataTransfer.Guard.{Keeps, Kept, Installs, install_guard}
use can_systems.DataTransfer.Outcome.{Taken, Refused, store_base64-Answered, silent_transfer_ends}
use can_systems.DataTransfer.Pieces.{decode_piece-fits}
use can_systems.DataTransfer.Upload.{deliver, passes}
use can_systems.DataTransfer.Upload.Installed.{file_is_installed}
use can_systems.DataTransfer.Memory.{Disk, File, update, memory, memory_laws, md5_laws}

abbrev content : List ℕ
content = codes "abcde"

abbrev path : List ℕ
path = codes "/config/tube.json"

abbrev fresh : DataTransfer memory
fresh = new memory true none [] (λ _. []) (false, [])

-- A message every ten milliseconds.
abbrev clock : ℕ → ℕ
clock i = 10 * i

prompt :
    (i j : ℕ)
    → j < length content + 1
    → has_elapsed (clock (suc i + j)) (clock i) transfer_timeout_time ≡ false
unfolding has_elapsed transfer_timeout_time
prompt i j h = ground arith

accepted : (begin memory (clock 0) fresh (length content) (some content) (some path)).0 ≡ true
unfolding begin check_request in_use_by is_valid_file_name same_text is_one_of allowed_locations
    tube_config_location ota_fw_location mqtt_server_cert_location mqtt_server_cred_location
    can_alert_fw_location is_own_firmware_file_name temp_file_location new
accepted = refl

not_firmware : is_own_firmware_file_name path ≡ false
unfolding is_own_firmware_file_name same_text ota_fw_location
not_firmware = refl

summed : same_ignoring_case file_md5_size content (take (file_md5_size - 1) content) ≡ true
unfolding same_ignoring_case same_text to_lower
summed = refl

file_is_installed_example :
    let begun = (begin memory (clock 0) fresh (length content) (some content) (some path)).1 in
    let (i, sent) = deliver memory clock 1 0 (codes "abc" ∷ codes "de" ∷ []) begun in
    (k : ℕ) × (let s' = passes memory clock i k sent in
      (s'.transfer_state ≡ TransferState.idle)
      × (s'.err_state.error_state ≡ 0)
      × (s'.reported ≡ true ∷ fresh.reported)
      × memory_laws.Stored path content s'.disk)
unfolding new
file_is_installed_example =
    file_is_installed memory memory_laws md5_laws content path content clock fresh (codes "abc")
      (codes "de" ∷ []) not_firmware summed refl refl (omega arith) (omega arith) (omega arith) refl
      prompt accepted

-- One letter has been received of two.
abbrev receiving : DataTransfer memory
receiving = record fresh {
  file_size = 2;
  remaining_file_size = 1;
  next_file_piece_number = 1;
  file_name = path;
  transfer_state = TransferState.storing;
}

path_valid : is_valid_file_name path ≡ true
unfolding is_valid_file_name same_text is_one_of allowed_locations tube_config_location
    ota_fw_location mqtt_server_cert_location mqtt_server_cred_location can_alert_fw_location
path_valid = refl

receiving-IsValid : IsValid memory receiving
unfolding new
receiving-IsValid = record {
  missing = λ h. omega arith;
  sized = omega arith;
  named = λ h. path_valid;
  plain = λ h. refl;
  unopened = λ h. refl;
}

abbrev calls : List (Call memory)
calls =
    store_call 5 1 (some (codes "YQ==")) ∷ pass 6 ∷ begin_call 7 3 (some content) (some path) ∷ []

perform_all-IsValid_example : IsValid memory (perform_all memory calls receiving)
perform_all-IsValid_example = perform_all-IsValid memory calls receiving receiving-IsValid

-- Nothing stands under the name, and the handle is on the temporary file.
abbrev Untouched : Disk → File → Type 0
Untouched d f = (d path ≡ []) × (f.1 ≡ temp_file_location)

apart : same_text temp_file_location path ≡ false
unfolding same_text temp_file_location
apart = refl

update-Untouched :
    (d : Disk) (from xs : List ℕ)
    → d path ≡ []
    → from ≡ temp_file_location
    → update d from xs path ≡ []
update-Untouched d from xs h at = rw (at, apart) h

-- The new firmware does not start.
abbrev OldStarts : Bool × List ℕ → Type 0
OldStarts u = u.0 ≡ false

memory-Keeps : Keeps memory Untouched OldStarts
memory-Keeps = record {
  opening = λ d f h. (update-Untouched d temp_file_location [] h.0 refl, refl);
  reopening = λ d f h. (h.0, refl);
  writing = λ d f xs h. (update-Untouched d f.1 (d f.1 ++ xs) h.0 h.1, h.1);
  reading = λ d f n h. h;
  closing = λ d f h. h;
  beginning = λ u n h. h;
  announcing = λ u m h. h;
  feeding = λ u xs h. h;
  dropping = λ u h. h;
}

abbrev open_temp : DataTransfer memory
open_temp = record receiving { received_file = (true, temp_file_location, 0) }

install_guard_example :
    Kept memory Untouched OldStarts
      (perform memory (store_call 5 1 (some (codes "YQ=="))) open_temp)
    ⊎ Installs memory Untouched OldStarts (store_call 5 1 (some (codes "YQ=="))) open_temp
unfolding new
install_guard_example =
    install_guard memory Untouched OldStarts memory-Keeps (store_call 5 1 (some (codes "YQ==")))
      open_temp ((refl, refl), refl)

store_base64-Answered_example :
    let (done, s') = store_base64 memory 5 receiving 1 (some (codes "YQ==")) in
    ((done ≡ true) × Taken memory receiving 1 (some (codes "YQ==")) s')
    ⊎ ((done ≡ false) × Refused memory receiving s')
store_base64-Answered_example = store_base64-Answered memory 5 receiving 1 (some (codes "YQ=="))

silent : has_elapsed 900001 receiving.transfer_timeout_timer transfer_timeout_time ≡ true
unfolding has_elapsed transfer_timeout_time new
silent = refl

silent_transfer_ends_example :
    let s' = run_validity_check memory 900001 receiving in
    (s'.transfer_state ≡ TransferState.idle)
    × (s'.remaining_file_size ≡ 0)
    × (s'.is_fw_transfer ≡ false)
    × (s'.updater ≡ (
        if receiving.is_fw_transfer && ltb 0 receiving.remaining_file_size
        then (false, [])
        else receiving.updater))
    × (s'.disk ≡ (if receiving.received_file.0 then receiving.disk else receiving.disk))
    × (s'.reported ≡ (
        if receiving.has_callback && ltb 0 receiving.err_state.error_state
        then false ∷ receiving.reported
        else receiving.reported))
unfolding new
silent_transfer_ends_example = silent_transfer_ends memory 900001 receiving refl silent

decode_piece-fits_example :
    (length (codes "YQ==") % 4 ≡ 0
      → file_piece_size (codes "YQ==") ≤ max_file_piece_length
      → length (decode_base64 (codes "YQ==") (file_piece_size (codes "YQ=="))).1 ≤ 127)
    × (decode_piece (some (codes "YQ==")) ≡ decoded (codes "a")
        → (0 < length (codes "a")) × (length (codes "a") ≤ 126))
decode_piece-fits_example = decode_piece-fits (codes "YQ==") (codes "a") (omega arith)
