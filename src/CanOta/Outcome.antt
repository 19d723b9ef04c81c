-- ===== src/CanOta/Outcome.antt =====
-- How a transfer begins and how it ends, for the gateway.
use can_systems.Prelude.{
  ℕ, ◌≡◌, ◌≢◌, ◌⊎◌, ◌↔◌, refl, arith, Bool, true, false, List, ◌∷◌, Option, none, some, get_or,
}
use can_systems.Common.Time.{has_elapsed}
use can_systems.OtaRegistry.{Image}
use can_systems.CanOta.Driver.{FileSystem}
use can_systems.CanOta.{
  CanOta, Env, TransferState, OtaStartError, start_failed, start_ota, start_file,
  is_ota_in_progress, run_ota, run_state, finish, ota_timeout_time,
}

abbrev is_valid : TransferState → Bool
is_valid TransferState.valid = true
is_valid _ = false

start_failed-ne : (e : OtaStartError) → start_failed e ≢ 0
unfolding start_failed
start_failed-ne OtaStartError.file_name_nullptr = omega arith
start_failed-ne OtaStartError.file_location_invalid = omega arith
start_failed-ne OtaStartError.file_open_failed = omega arith
start_failed-ne OtaStartError.file_empty = omega arith
start_failed-ne OtaStartError.already_in_progress = omega arith

module _ (fs : FileSystem) where
  open fs use {File, size, available, read, seek}

  start_ota-accepted :
      (now : ℕ) (s : CanOta fs) (name : List ℕ) (file : File) (storage : ℕ) (image : Option Image)
      → let (code, s') = start_ota fs now s (some name) (some file) storage image in
        (code ≡ 0
          → (s'.transfer_state ≡ TransferState.start)
            × (s'.storage_number ≡ storage)
            × (s'.frame_number ≡ 0)
            × (s'.received_file ≡ some file)
            × ((f : File) × (some file ≡ some f) × (s'.file_size ≡ size f)))
  unfolding start_ota start_file
  start_ota-accepted now s name file storage image h =
      let n1 = start_failed-ne OtaStartError.already_in_progress in
      let n2 = start_failed-ne OtaStartError.file_location_invalid in
      let n3 = start_failed-ne OtaStartError.file_empty in
      (
        ground (arith, n1, n2, n3),
        ground (arith, n1, n2, n3),
        ground (arith, n1, n2, n3),
        ground (arith, n1, n2, n3),
        (file, refl, ground (arith, n1, n2, n3)),
      )

  -- A start succeeds exactly when no transfer is running, the path is absolute, the file opens and is
  -- not empty; the transfer is then in its START state, with this file open, its size and the storage
  -- number kept, and the frame number 0. While one is running, a start changes nothing. A start that is
  -- refused sends nothing, and either leaves the state as it was, or it is INVALID with no file open.
  pub start_ota_lem :
      (now : ℕ) (s : CanOta fs) (name : List ℕ) (opened : Option File) (storage : ℕ)
      (image : Option Image)
      → let (code, s') = start_ota fs now s (some name) opened storage image in
        ((code ≡ 0) ↔ (
          (s.transfer_state ≡ TransferState.idle)
          × (get_or name 0 0 ≡ b'/')
          × ((file : File) × (opened ≡ some file) × (size file ≢ 0))))
        × (code ≡ 0
            → (s'.transfer_state ≡ TransferState.start)
              × (s'.storage_number ≡ storage)
              × (s'.frame_number ≡ 0)
              × (s'.received_file ≡ opened)
              × ((file : File) × (opened ≡ some file) × (s'.file_size ≡ size file)))
        × (s.transfer_state ≢ TransferState.idle → s' ≡ s)
        × (code ≢ 0
            → (s'.sent ≡ s.sent)
              × ((s'.transfer_state ≡ s.transfer_state)
                  ⊎ ((s'.transfer_state ≡ TransferState.invalid) × (s'.received_file ≡ none))))
  unfolding start_ota start_file is_ota_in_progress
  start_ota_lem now s name none storage image = (
    (
      (λ h. absurd (
          ground (
            arith,
            start_failed-ne OtaStartError.already_in_progress,
            start_failed-ne OtaStartError.file_location_invalid,
            start_failed-ne OtaStartError.file_open_failed,
            start_failed-ne OtaStartError.file_empty,
          ))),
      (λ h. let (_, _, (file, e, _)) = h in cc),
    ),
    (λ h. absurd (
        ground (
          arith,
          start_failed-ne OtaStartError.already_in_progress,
          start_failed-ne OtaStartError.file_location_invalid,
          start_failed-ne OtaStartError.file_open_failed,
          start_failed-ne OtaStartError.file_empty,
        ))),
    (λ h. ground arith),
    (λ h. ground arith),
  )
  start_ota_lem now s name (some file) storage image = (
    (
      (λ h. (
        ground (
          arith,
          start_failed-ne OtaStartError.already_in_progress,
          start_failed-ne OtaStartError.file_location_invalid,
          start_failed-ne OtaStartError.file_open_failed,
          start_failed-ne OtaStartError.file_empty,
        ),
        ground (
          arith,
          start_failed-ne OtaStartError.already_in_progress,
          start_failed-ne OtaStartError.file_location_invalid,
          start_failed-ne OtaStartError.file_open_failed,
          start_failed-ne OtaStartError.file_empty,
        ),
        (
          file,
          refl,
          λ z. ground (
            arith,
            start_failed-ne OtaStartError.already_in_progress,
            start_failed-ne OtaStartError.file_location_invalid,
            start_failed-ne OtaStartError.file_open_failed,
            start_failed-ne OtaStartError.file_empty,
          ),
        ),
      )),
      (λ h. let (idle, path, (f, e, nonempty)) = h in let same : file ≡ f = cc in ground arith),
    ),
    start_ota-accepted now s name file storage image,
    (λ h. ground arith),
    (λ h. ground arith),
  )

  -- A transfer of which nothing is heard for more than five minutes ends with the next pass, in
  -- whatever state it is: the gateway is idle, the file is closed, no frame is sent, and one result
  -- goes to the server, a failure unless the end had been acknowledged.
  pub stalled_transfer_ends :
      (env : Env) (s : CanOta fs)
      → s.transfer_state ≢ TransferState.idle
      → has_elapsed env.now s.ota_timeout_timer ota_timeout_time ≡ true
      → let s' = run_ota fs env s in
        (s'.transfer_state ≡ TransferState.idle)
        × (s'.received_file ≡ none)
        × (s'.sent ≡ s.sent)
        × ((b : Bool) × (s'.reported ≡ b ∷ s.reported)
            × ((b ≡ true) ↔ (s.transfer_state ≡ TransferState.valid)))
  unfolding run_ota run_state finish
  stalled_transfer_ends env s h k = (
    ground arith,
    ground arith,
    ground arith,
    (is_valid s.transfer_state, ground arith, ((λ b. ground arith), (λ e. ground arith))),
  )
