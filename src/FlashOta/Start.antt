-- ===== src/FlashOta/Start.antt =====
-- Which transfers `OTA::start` accepts, and the invariant of a transfer.
use can_systems.Prelude.{
  ℕ, ◌+◌, ◌-◌, ◌*◌, ◌^◌, ◌≤◌, ◌<◌, ◌≡◌, ◌↔◌, arith, true, false, List, [], ◌∷◌, length, min,
  length-take, set, length-set,
}
use can_systems.FlashOta.Driver.{Flash}
use can_systems.FlashOta.{
  Ota, OtaState, start, store_next_data, store_piece, run, run_state, run_check, finish_check,
  read_next_check_chunk, keep_first, expected_data, first_fw_size, fw_piece_size,
  flash_block_to_bytes,
}

module _ (flash : Flash) where
  open flash use {Chip, capacity, chip_erase, busy, write_bytes, read_bytes}

  -- What a transfer that has just been accepted looks like, and one that has been refused.
  pub record Accepted (s : Ota flash) (now block fw_size fw_crc : ℕ) : Type 0 where
    pub started : s.ota_state ≡ OtaState.start
    pub at_begin : s.flash_pointer ≡ 0
    pub sized : s.fw_size ≡ fw_size
    pub summed : s.fw_crc ≡ fw_crc
    pub placed : s.flash_block_begin_address ≡ block * flash_block_to_bytes
    pub timed : s.stall_timer ≡ now

  -- `start` succeeds exactly when there is an image, it fits the program memory, its region ends
  -- within the chip, and the erase is taken. It then waits for the erase with the pointer at the
  -- begin and the size, checksum, place and time of this transfer; when it fails, nothing has
  -- changed but the chip. The block number fits 16 bits and the program memory 31.
  pub start_lem :
      (pms now : ℕ) (s : Ota flash) (block fw_size fw_crc : ℕ)
      → block < 2 ^ 16
      → pms < 2 ^ 31
      → let (started, s') = start flash pms now s block fw_size fw_crc in
        ((started ≡ true) ↔ (
          (0 < fw_size)
          × (fw_size ≤ pms)
          × (block * flash_block_to_bytes + fw_size ≤ capacity s.chip)
          × ((chip_erase s.chip).0 ≡ true)))
        × (started ≡ true → Accepted s' now block fw_size fw_crc)
        × (started ≡ false → s' ≡ record s { chip = s'.chip })
  unfolding start
  start_lem pms now s block fw_size fw_crc hb hp =
      ((λ h. ground arith, λ h. ground arith), λ h. ground arith, λ h. ground arith)

  -- What holds of a transfer that is under way.
  pub record IsValid (s : Ota flash) : Type 0 where
    pub pointer_in : s.flash_pointer ≤ s.fw_size
    pub first_two : length s.first_fw_bytes ≡ first_fw_size

  pub keep_first-pointer :
      (first : List ℕ) (p : ℕ) (xs : List ℕ)
      → ((keep_first first p xs).1 + length (keep_first first p xs).2 ≡ p + length xs)
        × (length (keep_first first p xs).0 ≡ length first)
        × (p ≤ (keep_first first p xs).1)
  unfolding keep_first
  keep_first-pointer first p [] = omega arith
  keep_first-pointer first p (b ∷ bs) =
      ground (arith, keep_first-pointer (set first p b) (p + 1) bs, length-set first p b)

  pub length-expected_data :
      (s : Ota flash) (xs : List ℕ)
      → length (expected_data flash s xs) ≤ s.fw_size - s.flash_pointer
  length-expected_data s xs =
      omega (arith, length-take (min (s.fw_size - s.flash_pointer) fw_piece_size) xs)

  store_piece-IsValid :
      (now : ℕ) (s : Ota flash) (xs : List ℕ) → IsValid s → IsValid (store_piece flash now s xs).1
  unfolding store_piece
  store_piece-IsValid now s xs v = ground (
    arith,
    keep_first-pointer s.first_fw_bytes s.flash_pointer (expected_data flash s xs),
    length-expected_data s xs,
  )

  store_next_data-IsValid :
      (now : ℕ) (s : Ota flash) (q : ℕ) (xs : List ℕ)
      → IsValid s
      → IsValid (store_next_data flash now s q xs).1
  unfolding store_next_data
  store_next_data-IsValid now s q xs v = ground (arith, store_piece-IsValid now s xs v)

  start-IsValid :
      (pms now : ℕ) (s : Ota flash) (b n c : ℕ)
      → IsValid s
      → IsValid (start flash pms now s b n c).1
  unfolding start
  start-IsValid pms now s b n c v = ground arith

  pub read_next_check_chunk-IsValid :
      (s : Ota flash)
      → s.flash_pointer < s.fw_size
      → IsValid s
      → IsValid (read_next_check_chunk flash s)
  unfolding read_next_check_chunk
  read_next_check_chunk-IsValid s h v = ground arith

  finish_check-IsValid : (s : Ota flash) → IsValid s → IsValid (finish_check flash s)
  unfolding finish_check
  finish_check-IsValid s v = ground arith

  run_check-IsValid : (s : Ota flash) → IsValid s → IsValid (run_check flash s)
  unfolding run_check
  run_check-IsValid s v = grind (arith, read_next_check_chunk-IsValid, finish_check-IsValid)

  run-IsValid : (now : ℕ) (s : Ota flash) → IsValid s → IsValid (run flash now s)
  unfolding run run_state
  run-IsValid now s v = ground (arith, run_check-IsValid s v)

  -- The calls that a client makes, and any sequence of them.
  pub data Call : Type 0 where
    starts : ℕ → ℕ → ℕ → ℕ → ℕ → Call
    stores : ℕ → ℕ → List ℕ → Call
    runs : ℕ → Call

  unfoldable pub step : Ota flash → Call → Ota flash
  step s (starts pms now b n c) = (start flash pms now s b n c).1
  step s (stores now q xs) = (store_next_data flash now s q xs).1
  step s (runs now) = run flash now s

  unfoldable pub steps : Ota flash → List Call → Ota flash
  steps s [] = s
  steps s (c ∷ cs) = steps (step s c) cs

  step-IsValid : (s : Ota flash) (c : Call) → IsValid s → IsValid (step s c)
  unfolding step
  step-IsValid s (starts pms now b n c) v = start-IsValid pms now s b n c v
  step-IsValid s (stores now q xs) v = store_next_data-IsValid now s q xs v
  step-IsValid s (runs now) v = run-IsValid now s v

  -- After any calls of `start`, `storeNextData` and `run` in any order, with any pieces, the flash
  -- pointer has not passed the size of the image, and two bytes are kept back.
  pub steps-IsValid : (s : Ota flash) (cs : List Call) → IsValid s → IsValid (steps s cs)
  unfolding steps
  steps-IsValid s [] v = v
  steps-IsValid s (c ∷ cs) v = steps-IsValid (step s c) cs (step-IsValid s c v)
