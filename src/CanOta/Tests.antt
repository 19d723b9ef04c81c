-- ===== src/CanOta/Tests.antt =====
-- A transfer of a file of four bytes.
use can_systems.Prelude.{
  ℕ, ◌+◌, ◌*◌, ◌-◌, ◌≡◌, ◌≢◌, ◌↔◌, ◌⊎◌, refl, Bool, true, List, [], ◌∷◌, none, some, length, take,
  drop, get_or,
}
use can_systems.Common.Time.{has_elapsed}
use can_systems.CanProtocol.Frame.{CanFrame}
use can_systems.CanOta.Driver.{FileSystem}
use can_systems.CanOta.{CanOta, Env, TransferState, ota_timeout_time, new, start_ota, run_ota}
use can_systems.CanOta.Outcome.{start_ota_lem, stalled_transfer_ends}

-- A file is its contents and the position in it.
abbrev files : FileSystem
files = record {
  File = List ℕ × ℕ;
  size = λ f. length f.0;
  available = λ f. length f.0 - f.1;
  read = λ f n. (take n (drop f.1 f.0), (f.0, f.1 + n));
  seek = λ f p. (f.0, p);
}

abbrev file : List ℕ × ℕ
file = (1 ∷ 2 ∷ 3 ∷ 4 ∷ [], 0)

abbrev waiting : CanOta files
waiting = record (new files 5 1) {
  transfer_state = TransferState.wait_for_ack;
  received_file = some file;
}

abbrev end_acknowledged : CanFrame
end_acknowledged = record {
  ext_id = 1 + 6 * 1024 + 5 * 524288;
  bytes = record { d0 = 1; d1 = 0; d2 = 0; d3 = 0; d4 = 0; d5 = 0; d6 = 0; d7 = 0 };
}

abbrev path : List ℕ
path = b'/' ∷ b'f' ∷ []

start_ota_lem_example :
    let (code, s') = start_ota files 7 (new files 5 1) (some path) (some file) 2 none in
    ((code ≡ 0) ↔ (
      ((new files 5 1).transfer_state ≡ TransferState.idle)
      × (get_or path 0 0 ≡ b'/')
      × ((f : List ℕ × ℕ) × (some file ≡ some f) × (length f.0 ≢ 0))))
    × (code ≡ 0
        → (s'.transfer_state ≡ TransferState.start)
          × (s'.storage_number ≡ 2)
          × (s'.frame_number ≡ 0)
          × (s'.received_file ≡ some file)
          × ((f : List ℕ × ℕ) × (some file ≡ some f) × (s'.file_size ≡ length f.0)))
    × ((new files 5 1).transfer_state ≢ TransferState.idle → s' ≡ new files 5 1)
    × (code ≢ 0
        → (s'.sent ≡ (new files 5 1).sent)
          × ((s'.transfer_state ≡ (new files 5 1).transfer_state)
              ⊎ ((s'.transfer_state ≡ TransferState.invalid) × (s'.received_file ≡ none))))
start_ota_lem_example = start_ota_lem files 7 (new files 5 1) path (some file) 2 none

abbrev late : Env
late = record { now = 300001; can_send = true }

stalled : has_elapsed late.now waiting.ota_timeout_timer ota_timeout_time ≡ true
unfolding new has_elapsed ota_timeout_time
stalled = refl

stalled_transfer_ends_example :
    let s' = run_ota files late waiting in
    (s'.transfer_state ≡ TransferState.idle)
    × (s'.received_file ≡ none)
    × (s'.sent ≡ waiting.sent)
    × ((b : Bool) × (s'.reported ≡ b ∷ waiting.reported)
        × ((b ≡ true) ↔ (TransferState.wait_for_ack ≡ TransferState.valid)))
stalled_transfer_ends_example = stalled_transfer_ends files late waiting (λ e. cc) stalled
