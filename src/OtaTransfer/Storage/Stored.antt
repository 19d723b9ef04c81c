-- ===== src/OtaTransfer/Storage/Stored.antt =====
-- The pieces of the image are taken one after the other.
use can_systems.Prelude.{
  ℕ, zero, suc, ◌+◌, ◌-◌, ◌%◌, ◌≤◌, ◌<◌, ◌≡◌, ◌⊎◌, inl, inr, refl, sym, ◌∙◌, arith, true, false,
  List, [], ◌∷◌, length, take, drop, get_or,
}
use can_systems.Common.Time.{has_elapsed}
use can_systems.Crc16
use can_systems.Crc16.{Crc16}
use can_systems.FlashOta.Driver.{Flash}
use can_systems.FlashOta.{Ota, OtaState, store_next_data, run, run_state, stall_timeout_time}
use can_systems.OtaTransfer.Laws.{FlashLaws}
use can_systems.OtaTransfer.Bytes.{take-two}
use can_systems.OtaTransfer.Storage
use can_systems.OtaTransfer.Storage.Pieces.{later-eq, begin-many, begin-two}

module _ (flash : Flash) (laws : FlashLaws flash) (xs : List ℕ) (block : ℕ) where
  open flash use {Chip, capacity, chip_erase, busy, write_bytes, read_bytes}
  open laws use {mem, wait, erase_time, erase_lem, busy_lem, write_lem, read_lem}

  abbrev begin : ℕ
  begin = Storage.begin flash laws xs block

  abbrev next_size : ℕ → ℕ
  next_size = Storage.next_size flash laws xs block

  abbrev Holds : ℕ → Chip → Type 0
  Holds = Storage.Holds flash laws xs block

  abbrev Knows : OtaState → ℕ → Ota flash → Type 0
  Knows = Storage.Knows flash laws xs block

  expect-first :
      (a : ℕ) → Storage.expect flash laws xs block 2 a ≡ Storage.expect flash laws xs block 0 a
  unfolding Storage.expect
  expect-first a = ground arith

  first_two : 2 ≤ length xs → get_or xs 0 0 ∷ get_or xs 1 0 ∷ [] ≡ take 2 xs
  first_two h2 = sym (take-two 0 xs h2)

  begin-Knows :
      (now : ℕ) (s : Ota flash) (n : ℕ) (fw : List ℕ)
      → 2 ≤ length xs
      → next_size 0 ≡ 2 + n
      → take (next_size 0) fw ≡ take (next_size 0) xs
      → wait s.chip ≡ 0
      → Knows OtaState.store 0 s
      → Holds 0 s.chip
      → let (stored, s') = store_next_data flash now s 0 fw in
        (stored ≡ true)
        × Knows OtaState.store (2 + n) s'
        × (wait s'.chip ≡ 0)
        × Holds (2 + n) s'.chip
        × (s'.stall_timer ≡ now)
  begin-Knows now s zero fw h2 size same w k holds =
      rw (begin-two flash laws xs block now s fw h2 size same k) (
        refl,
        record {
          in_state = k.in_state;
          sized = k.sized;
          summed = k.summed;
          pointed = refl;
          placed = k.placed;
          seeded = k.seeded;
          two = refl;
          kept = λ h. first_two h2;
        },
        w,
        record { held = λ a. holds.held a ∙ sym (expect-first a); room = holds.room },
        refl,
      )
  begin-Knows now s (suc n) fw h2 size same w k holds =
      let first : Holds 2 s.chip = record {
        held = λ a. holds.held a ∙ sym (expect-first a);
        room = holds.room;
      } in
      let (written, still, holding) =
        Storage.write-Holds flash laws xs block s.chip 2 (suc n) (omega arith) (ground arith) w
          first in
      rw (begin-many flash laws xs block now s (suc n) fw h2 size same k (omega arith) written) (
        refl,
        record {
          in_state = k.in_state;
          sized = k.sized;
          summed = k.summed;
          pointed = refl;
          placed = k.placed;
          seeded = k.seeded;
          two = refl;
          kept = λ h. first_two h2;
        },
        still,
        holding,
        refl,
      )

  -- The next piece of the image is taken.
  pub store_next_data-Knows :
      (now : ℕ) (s : Ota flash) (p : ℕ) (fw : List ℕ)
      → 2 ≤ length xs
      → (p ≡ 0) ⊎ (2 ≤ p)
      → p < length xs
      → take (next_size p) fw ≡ take (next_size p) (drop p xs)
      → wait s.chip ≡ 0
      → Knows OtaState.store p s
      → Holds p s.chip
      → let (stored, s') = store_next_data flash now s (p % 256) fw in
        (stored ≡ true)
        × Knows OtaState.store (p + next_size p) s'
        × (wait s'.chip ≡ 0)
        × Holds (p + next_size p) s'.chip
        × (s'.stall_timer ≡ now)
  store_next_data-Knows now s zero fw h2 cases lt same w k holds =
      let size : next_size 0 ≡ 2 + (next_size 0 - 2) = ground arith in
      let e : zero + next_size 0 ≡ 2 + (next_size 0 - 2) = omega arith in
      rw e (begin-Knows now s (next_size 0 - 2) fw h2 size same w k holds)
  store_next_data-Knows now s (suc p) fw h2 (inl zero_p) lt same w k holds = absurd (omega arith)
  store_next_data-Knows now s (suc p') fw h2 (inr two) lt same w k holds =
      let p = suc p' in
      let n = next_size p in
      let (written, still, holding) =
        Storage.write-Holds flash laws xs block s.chip p n two (ground arith) w holds in
      rw (later-eq flash laws xs block now s p fw two lt same k written) (
        refl,
        record {
          in_state = k.in_state;
          sized = k.sized;
          summed = k.summed;
          pointed = refl;
          placed = k.placed;
          seeded = k.seeded;
          two = k.two;
          kept = λ h. k.kept two;
        },
        still,
        holding,
        refl,
      )

  pub run-store :
      (now : ℕ) (s : Ota flash) (p : ℕ)
      → has_elapsed now s.stall_timer stall_timeout_time ≡ false
      → Knows OtaState.store p s
      → p < length xs
      → run flash now s ≡ s
  unfolding run run_state
  run-store now s p h k lt = ground arith

  pub run-stored :
      (now : ℕ) (s : Ota flash)
      → has_elapsed now s.stall_timer stall_timeout_time ≡ false
      → Knows OtaState.store (length xs) s
      → run flash now s
        ≡ record s { flash_pointer = 0; crc16 = Crc16.reset s.crc16; ota_state = OtaState.check }
  unfolding run run_state
  run-stored now s h k = ground arith
