-- ===== src/OtaTransfer/Storage/Erase.antt =====
-- The storage accepts a transfer, and waits for the erase.
use can_systems.Prelude.{
  ℕ, ◌+◌, ◌^◌, ◌≤◌, ◌<◌, ◌≡◌, refl, sym, ◌∙◌, arith, true, false, List, ltb, if◌then◌else◌, length,
  pred,
}
use can_systems.Common.Time.{has_elapsed}
use can_systems.Crc16
use can_systems.Crc16.{Crc16}
use can_systems.FlashOta.Driver.{Flash}
use can_systems.FlashOta.{Ota, OtaState, start, run, run_state, stall_timeout_time, block_address}
use can_systems.OtaTransfer.Laws.{FlashLaws}
use can_systems.OtaTransfer.Storage

module _ (flash : Flash) (laws : FlashLaws flash) (xs : List ℕ) (block : ℕ) where
  open flash use {Chip, capacity, chip_erase, busy, write_bytes, read_bytes}
  open laws use {mem, wait, erase_time, erase_lem, busy_lem, write_lem, read_lem}

  abbrev begin : ℕ
  begin = Storage.begin flash laws xs block

  abbrev next_size : ℕ → ℕ
  next_size = Storage.next_size flash laws xs block

  abbrev Holds : ℕ → Chip → Type 0
  Holds = Storage.Holds flash laws xs block

  abbrev Knows : OtaState → ℕ → Ota flash → Type 0
  Knows = Storage.Knows flash laws xs block

  start-eq :
      (pms now : ℕ) (s : Ota flash) (crc : ℕ)
      → block < 2 ^ 16
      → pms < 2 ^ 31
      → 0 < length xs
      → length xs ≤ pms
      → begin + length xs ≤ capacity s.chip
      → (chip_erase s.chip).0 ≡ true
      → start flash pms now s block (length xs) crc ≡ (
        true,
        record s {
          chip = (chip_erase s.chip).1;
          fw_size = length xs;
          fw_crc = crc;
          flash_block_begin_address = begin;
          flash_pointer = 0;
          stall_timer = now;
          ota_state = OtaState.start;
        },
      )
  unfolding start
  start-eq pms now s crc hb hp h0 hn room erased =
      let address : block_address flash block ≡ begin = omega arith in ground arith

  -- The acceptance of the transfer.
  pub start-Knows :
      (pms now : ℕ) (s : Ota flash) (crc : ℕ)
      → block < 2 ^ 16
      → pms < 2 ^ 31
      → 0 < length xs
      → length xs ≤ pms
      → begin + length xs ≤ capacity s.chip
      → crc ≡ Crc16.get (Crc16.next_all (Crc16.new 0 0x1021) xs)
      → wait s.chip ≡ 0
      → length s.first_fw_bytes ≡ 2
      → Crc16.reset s.crc16 ≡ Crc16.new 0 0x1021
      → let (started, s') = start flash pms now s block (length xs) crc in
        (started ≡ true)
        × Knows OtaState.start 0 s'
        × (0 < wait s'.chip)
        × (wait s'.chip ≤ erase_time)
        × Holds 0 s'.chip
        × (s'.stall_timer ≡ now)
  unfolding Storage.expect
  start-Knows pms now s crc hb hp h0 hn room sum w two seed =
      let (erased, busy_for, not_long, size, blank) = erase_lem s.chip w in
      rw (start-eq pms now s crc hb hp h0 hn room erased) (
        refl,
        record {
          in_state = refl;
          sized = refl;
          summed = sum;
          pointed = refl;
          placed = refl;
          seeded = seed;
          two = two;
          kept = λ h. absurd (omega arith);
        },
        busy_for,
        not_long,
        record {
          held = λ a. blank a ∙ sym (Storage.expect-nothing flash laws xs block a);
          room = omega arith;
        },
        refl,
      )

  run-start-eq :
      (now : ℕ) (s : Ota flash)
      → has_elapsed now s.stall_timer stall_timeout_time ≡ false
      → s.ota_state ≡ OtaState.start
      → (busy s.chip).0 ≡ ltb 0 (wait s.chip)
      → run flash now s ≡ record s {
        chip = (busy s.chip).1;
        ota_state = if ltb 0 (wait s.chip) then OtaState.start else OtaState.store;
      }
  unfolding run run_state
  run-start-eq now s h k b = ground arith

  -- A pass while the chip is busy, and the one that finds it ready.
  pub run-start :
      (now : ℕ) (s : Ota flash)
      → has_elapsed now s.stall_timer stall_timeout_time ≡ false
      → Knows OtaState.start 0 s
      → Holds 0 s.chip
      → let s' = run flash now s in
        Knows (if ltb 0 (wait s.chip) then OtaState.start else OtaState.store) 0 s'
        × Holds 0 s'.chip
        × (wait s'.chip ≡ pred (wait s.chip))
        × (s'.stall_timer ≡ s.stall_timer)
  run-start now s h k holds =
      let (answer, fewer, size, same) = busy_lem s.chip in
      let room = holds.room in
      rw (run-start-eq now s h k.in_state answer) (
        record {
          in_state = refl;
          sized = k.sized;
          summed = k.summed;
          pointed = k.pointed;
          placed = k.placed;
          seeded = k.seeded;
          two = k.two;
          kept = k.kept;
        },
        record { held = λ a. same a ∙ holds.held a; room = omega arith },
        fewer,
        refl,
      )
