-- ===== src/FlashOta.antt =====
-- class OTA of lib/ota/src: a node stores a firmware image in its SPI flash piece by piece, checks
-- its checksum, and only then writes the image's first two bytes, by which the bootloader knows a
-- complete image.
pub mod Driver
pub mod State
pub mod Start
pub mod Guard
pub mod Checked
pub mod SameBytes
mod Tests
use can_systems.Prelude.{
  ℕ, ◌+◌, ◌-◌, ◌*◌, ◌%◌, ◌^◌, Bool, true, false, not, ◌&&◌, ◌||◌, List, [], ◌∷◌, ltb, ◌==◌,
  if◌then◌else◌, length, take, drop, set, get_or, replicate, min,
}
use can_systems.Common.Time.{has_elapsed, min_to_ms}
use can_systems.Crc16
use can_systems.Crc16.{Crc16}
use Driver.{Flash}
pub use State.{OtaState}

-- `flashBlockTobytes`, `fwPieceSize`, `checkChunkSize`, and the size of `firstFwBytes`.
abbrev pub flash_block_to_bytes : ℕ
flash_block_to_bytes = 32768

abbrev pub fw_piece_size : ℕ
fw_piece_size = 7

abbrev pub check_chunk_size : ℕ
check_chunk_size = 32

abbrev pub first_fw_size : ℕ
first_fw_size = 2

unfoldable pub stall_timeout_time : ℕ
unfolding min_to_ms
stall_timeout_time = min_to_ms 3

-- Equality of two arrays of one length, `memcmp(a, b, n) == 0`.
unfoldable pub same_bytes : List ℕ → List ℕ → Bool
same_bytes [] [] = true
same_bytes [] (y ∷ ys) = false
same_bytes (x ∷ xs) [] = false
same_bytes (x ∷ xs) (y ∷ ys) = x == y && same_bytes xs ys

abbrev pub waiting_on_somebody : OtaState → Bool
waiting_on_somebody OtaState.start = true
waiting_on_somebody OtaState.store = true
waiting_on_somebody _ = false

-- The loop that keeps the first bytes in memory: `firstFwBytes`, `flashPointer`, and the bytes of the
-- piece that are left for the flash.
unfoldable pub keep_first : List ℕ → ℕ → List ℕ → List ℕ × ℕ × List ℕ
keep_first first pointer [] = (first, pointer, [])
keep_first first pointer (b ∷ bs) =
    if ltb pointer first_fw_size
    then keep_first (set first pointer b) (pointer + 1) bs
    else (first, pointer, b ∷ bs)

module _ (flash : Flash) where
  open flash use {Chip, capacity, chip_erase, busy, write_bytes, read_bytes}

  pub record Ota : Type 0 where
    pub chip : Chip
    pub first_fw_bytes : List ℕ
    pub fw_size : ℕ
    pub fw_crc : ℕ
    pub flash_pointer : ℕ
    pub crc16 : Crc16
    pub flash_block_begin_address : ℕ
    pub stall_timer : ℕ
    pub ota_state : OtaState

  -- The constructor.
  unfoldable pub init : Chip → Ota
  init chip = record {
    chip = chip;
    first_fw_bytes = replicate first_fw_size 0;
    fw_size = 0;
    fw_crc = 0;
    flash_pointer = 0;
    crc16 = Crc16.new Crc16.default_init_value Crc16.default_polynomial;
    flash_block_begin_address = 0;
    stall_timer = 0;
    ota_state = OtaState.idle;
  }

  -- The address of a block, in 32 bits.
  abbrev pub block_address : ℕ → ℕ
  block_address block = block * flash_block_to_bytes % 2 ^ 32

  -- `program_memory_size` is the build's PROGRAM_MEMORY_SIZE, `now` what `millis()` returns.
  unfoldable pub start : ℕ → ℕ → Ota → ℕ → ℕ → ℕ → Bool × Ota
  start program_memory_size now s block fw_size fw_crc =
      if fw_size == 0
      then (false, s)
      else (if ltb program_memory_size fw_size
          then (false, s)
          else (if ltb (capacity s.chip) ((block_address block + fw_size) % 2 ^ 32)
              then (false, s)
              else (let (erased, chip) = chip_erase s.chip in
                  if not erased then (false, record s { chip = chip }) else (
                    true,
                    record s {
                      chip = chip;
                      fw_size = fw_size;
                      fw_crc = fw_crc;
                      flash_block_begin_address = block_address block;
                      flash_pointer = 0;
                      stall_timer = now;
                      ota_state = OtaState.start;
                    },
                  ))))

  -- The bytes of a piece that belong to the image: the last piece may be short.
  abbrev pub expected_data : Ota → List ℕ → List ℕ
  expected_data s fw_data = take (min (s.fw_size - s.flash_pointer) fw_piece_size) fw_data

  -- What is done with a piece that is in sequence: the first bytes are kept, the rest is written.
  unfoldable pub store_piece : ℕ → Ota → List ℕ → Bool × Ota
  unfolding keep_first
  store_piece now s fw_data =
      let (first, pointer, rest) =
        keep_first s.first_fw_bytes s.flash_pointer (expected_data s fw_data) in
      if ltb 0 (length rest)
      then (let (written, chip) = write_bytes s.chip (s.flash_block_begin_address + pointer) rest in
          if not written
          then (
            false,
            record s {
              chip = chip;
              first_fw_bytes = first;
              flash_pointer = pointer;
              ota_state = OtaState.invalid;
            },
          )
          else (
            true,
            record s {
              chip = chip;
              first_fw_bytes = first;
              flash_pointer = pointer + length rest;
              stall_timer = now;
            },
          ))
      else (true, record s { first_fw_bytes = first; flash_pointer = pointer; stall_timer = now })

  unfoldable pub store_next_data : ℕ → Ota → ℕ → List ℕ → Bool × Ota
  store_next_data now s sequence fw_data =
      if not (ltb s.flash_pointer s.fw_size)
      then (false, s)
      else (if not (s.flash_pointer % 2 ^ 8 == sequence)
          then (false, s)
          else store_piece now s fw_data)

  unfoldable pub read_next_check_chunk : Ota → Ota
  read_next_check_chunk s =
      if ltb s.flash_pointer first_fw_size
      then record s {
        crc16 = Crc16.next_all s.crc16 (get_or s.first_fw_bytes s.flash_pointer 0 ∷ []);
        flash_pointer = s.flash_pointer + 1;
      }
      else (let chunk_size = min (s.fw_size - s.flash_pointer) check_chunk_size in
          let (_, buffer, chip) =
            read_bytes s.chip (s.flash_block_begin_address + s.flash_pointer) chunk_size in
          record s {
            chip = chip;
            crc16 = Crc16.next_all s.crc16 buffer;
            flash_pointer = s.flash_pointer + chunk_size;
          })

  unfoldable pub finish_check : Ota → Ota
  finish_check s =
      if not (s.fw_crc == Crc16.get s.crc16)
      then record s { ota_state = OtaState.invalid }
      else (let (write_back_ok, chip) =
            write_bytes s.chip s.flash_block_begin_address s.first_fw_bytes in
          let (read_back_ok, data_read_back, chip') =
            read_bytes chip s.flash_block_begin_address first_fw_size in
          record s {
            chip = chip';
            ota_state =
                if write_back_ok && read_back_ok && same_bytes s.first_fw_bytes data_read_back
                then OtaState.valid
                else OtaState.invalid;
          })

  -- The CHECK state: one more block, then the verdict once the whole image has been read.
  unfoldable pub run_check : Ota → Ota
  run_check s =
      let s' = if ltb s.flash_pointer s.fw_size then read_next_check_chunk s else s in
      if s'.flash_pointer == s'.fw_size then finish_check s' else s'

  unfoldable pub run_state : OtaState → Ota → Ota
  run_state OtaState.idle s = s
  run_state OtaState.start s =
      let (is_busy, chip) = busy s.chip in
      if not is_busy
      then record s { chip = chip; ota_state = OtaState.store }
      else record s { chip = chip }
  run_state OtaState.store s =
      if s.flash_pointer == s.fw_size
      then record s { flash_pointer = 0; crc16 = Crc16.reset s.crc16; ota_state = OtaState.check }
      else s
  run_state OtaState.check s = run_check s
  run_state OtaState.valid s = record s { ota_state = OtaState.idle }
  run_state OtaState.invalid s = record s {
    chip = (chip_erase s.chip).1;
    fw_size = 0;
    fw_crc = 0;
    flash_pointer = 0;
    flash_block_begin_address = 0;
    ota_state = OtaState.idle;
  }

  -- The state that `run` returns is the `ota_state` that it leaves.
  unfoldable pub run : ℕ → Ota → Ota
  run now s =
      if waiting_on_somebody s.ota_state && has_elapsed now s.stall_timer stall_timeout_time
      then record s { ota_state = OtaState.invalid }
      else run_state s.ota_state s

  unfoldable pub is_own_fw : Ota → Bool
  is_own_fw s = s.flash_block_begin_address == 0
