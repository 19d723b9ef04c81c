-- ===== src/FlashOta/Guard.antt =====
-- Nothing of an image that has not passed its check reaches the first two bytes of its region, by
-- which the bootloader tells a complete image.
use can_systems.Prelude.{ℕ, ◌+◌, ◌-◌, ◌≤◌, ◌<◌, ◌≡◌, ◌⊎◌, arith, List, [], ◌∷◌, length, min, set}
use can_systems.Crc16
use can_systems.FlashOta.Driver.{Flash}
use can_systems.FlashOta.{
  Ota, OtaState, store_next_data, store_piece, run, run_state, run_check, finish_check,
  read_next_check_chunk, keep_first, expected_data, first_fw_size, check_chunk_size,
}
use can_systems.FlashOta.Start.{IsValid, keep_first-pointer, length-expected_data}

keep_first-rest :
    (first : List ℕ) (p : ℕ) (xs : List ℕ)
    → 0 < length (keep_first first p xs).2
    → first_fw_size ≤ (keep_first first p xs).1
unfolding keep_first
keep_first-rest first p [] h = absurd (omega arith)
keep_first-rest first p (b ∷ bs) h = ground (arith, keep_first-rest (set first p b) (p + 1) bs)

-- `Q` is any property of the chip, such as "the two bytes at the begin of the region are erased",
-- that erasing, reading and waiting keep, and writing past the first two bytes of the region.
module _ (flash : Flash) (Q : flash.Chip → Type 0) where
  open flash use {Chip, capacity, chip_erase, busy, write_bytes, read_bytes}

  pub record Keeps (begin size : ℕ) : Type 0 where
    pub erasing : (c : Chip) → Q c → Q (chip_erase c).1
    pub waiting : (c : Chip) → Q c → Q (busy c).1
    pub reading : (c : Chip) (a n : ℕ) → Q c → Q (read_bytes c a n).2
    pub writing :
        (c : Chip) (a : ℕ) (xs : List ℕ)
        → begin + first_fw_size ≤ a
        → a + length xs ≤ begin + size
        → Q c
        → Q (write_bytes c a xs).1

  module _ (s : Ota flash) (keep : Keeps s.flash_block_begin_address s.fw_size) where
    store_piece-Keeps :
        (now : ℕ) (xs : List ℕ) → IsValid flash s → Q s.chip → Q (store_piece flash now s xs).1.chip
    unfolding store_piece
    store_piece-Keeps now xs v q = ground (
      arith,
      keep_first-pointer flash s.first_fw_bytes s.flash_pointer (expected_data flash s xs),
      keep_first-rest s.first_fw_bytes s.flash_pointer (expected_data flash s xs),
      length-expected_data flash s xs,
      keep.writing s.chip
          (s.flash_block_begin_address
            + (keep_first s.first_fw_bytes s.flash_pointer (expected_data flash s xs)).1)
          (keep_first s.first_fw_bytes s.flash_pointer (expected_data flash s xs)).2,
    )

    store_next_data-Keeps :
        (now sequence : ℕ) (xs : List ℕ)
        → IsValid flash s
        → Q s.chip
        → Q (store_next_data flash now s sequence xs).1.chip
    unfolding store_next_data
    store_next_data-Keeps now sequence xs v q = ground (arith, store_piece-Keeps now xs v q)

    read_next_check_chunk-Keeps : Q s.chip → Q (read_next_check_chunk flash s).chip
    unfolding read_next_check_chunk
    read_next_check_chunk-Keeps q = ground (
      arith,
      keep.reading s.chip (s.flash_block_begin_address + s.flash_pointer)
          (min (s.fw_size - s.flash_pointer) check_chunk_size) q,
    )

  -- The checksum of a finished check that is accepted.
  abbrev pub Passed : Ota flash → Type 0
  Passed s = (Crc16.get s.crc16 ≡ s.fw_crc) × (s.flash_pointer ≡ s.fw_size)

  finish_check-Keeps :
      (s : Ota flash) → Q s.chip → Q (finish_check flash s).chip ⊎ (Crc16.get s.crc16 ≡ s.fw_crc)
  unfolding finish_check
  finish_check-Keeps s q = ground arith

  finish_check-fields :
      (s : Ota flash)
      → ((finish_check flash s).crc16 ≡ s.crc16)
        × ((finish_check flash s).fw_crc ≡ s.fw_crc)
        × ((finish_check flash s).flash_pointer ≡ s.flash_pointer)
        × ((finish_check flash s).fw_size ≡ s.fw_size)
  unfolding finish_check
  finish_check-fields s = ground arith

  run_check-Keeps :
      (s : Ota flash)
      → Keeps s.flash_block_begin_address s.fw_size
      → Q s.chip
      → Q (run_check flash s).chip ⊎ Passed (run_check flash s)
  unfolding run_check
  run_check-Keeps s keep q = ground (
    arith,
    read_next_check_chunk-Keeps s keep q,
    finish_check-Keeps (read_next_check_chunk flash s),
    finish_check-Keeps s q,
    finish_check-fields (read_next_check_chunk flash s),
    finish_check-fields s,
  )

  -- Let the chip have a property that erasing, waiting, reading and writing past the first two bytes
  -- of the transfer's region keep. Then it has the property still after a piece has been stored, and
  -- after a pass of `run`, unless that was a pass of the CHECK state that ended with the pointer at the
  -- size of the image and the announced checksum in the register.
  pub first_bytes_guard :
      (s : Ota flash) (now sequence : ℕ) (xs : List ℕ)
      → IsValid flash s
      → Keeps s.flash_block_begin_address s.fw_size
      → Q s.chip
      → Q (store_next_data flash now s sequence xs).1.chip
        × (Q (run flash now s).chip ⊎ ((s.ota_state ≡ OtaState.check) × Passed (run flash now s)))
  unfolding run run_state
  first_bytes_guard s now sequence xs v keep q = (
    store_next_data-Keeps s keep now sequence xs v q,
    ground (arith, run_check-Keeps s keep q, keep.waiting s.chip q, keep.erasing s.chip q),
  )
