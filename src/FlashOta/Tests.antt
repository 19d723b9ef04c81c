-- ===== src/FlashOta/Tests.antt =====
-- A transfer into a flash that is a list of bytes.
use can_systems.Prelude.{
  ℕ, zero, suc, ◌+◌, ◌*◌, ◌≤◌, ◌<◌, ◌≡◌, ◌⊎◌, ◌↔◌, refl, true, false, List, [], ◌∷◌, length, take,
  drop, get_or, replicate, arith,
}
use can_systems.Common.Time.{has_elapsed}
use can_systems.Crc16
use can_systems.FlashOta.Driver.{Flash}
use can_systems.FlashOta.{
  Ota, OtaState, start, store_next_data, store_piece, keep_first, run, run_state, run_check,
  finish_check, read_next_check_chunk, same_bytes, flash_block_to_bytes, stall_timeout_time,
}
use can_systems.FlashOta.Start.{Call, Accepted, IsValid, start_lem, step, steps, steps-IsValid}
use can_systems.FlashOta.Guard.{Keeps, Passed, first_bytes_guard}

unfoldable write_at : List ℕ → ℕ → List ℕ → List ℕ
write_at [] a xs = []
write_at (c ∷ cs) zero [] = c ∷ cs
write_at (c ∷ cs) zero (x ∷ xs) = x ∷ write_at cs zero xs
write_at (c ∷ cs) (suc a) xs = c ∷ write_at cs a xs

abbrev memory : Flash
memory = record {
  Chip = List ℕ;
  capacity = length;
  chip_erase = λ c. (true, replicate (length c) 255);
  busy = λ c. (false, c);
  write_bytes = λ c a xs. (true, write_at c a xs);
  read_bytes = λ c a n. (true, take n (drop a c), c);
}

-- The first two bytes are erased.
abbrev Blank : List ℕ → Type 0
Blank c = (get_or c 0 255 ≡ 255) × (get_or c 1 255 ≡ 255)

replicate-Blank : (n : ℕ) → Blank (replicate n 255)
replicate-Blank zero = (refl, refl)
replicate-Blank (suc zero) = (refl, refl)
replicate-Blank (suc (suc n)) = (refl, refl)

write_at-Blank : (c : List ℕ) (a : ℕ) (xs : List ℕ) → 2 ≤ a → Blank c → Blank (write_at c a xs)
unfolding write_at
write_at-Blank [] a xs h b = b
write_at-Blank (x ∷ []) zero xs h b = absurd (omega arith)
write_at-Blank (x ∷ []) (suc a) xs h b = b
write_at-Blank (x ∷ y ∷ c) zero xs h b = absurd (omega arith)
write_at-Blank (x ∷ y ∷ c) (suc zero) xs h b = absurd (omega arith)
write_at-Blank (x ∷ y ∷ c) (suc (suc a)) xs h b = b

memory-Keeps : (size : ℕ) → Keeps memory Blank 0 size
memory-Keeps size = record {
  erasing = λ c q. replicate-Blank (length c);
  waiting = λ c q. q;
  reading = λ c a n q. q;
  writing = λ c a xs h k q. write_at-Blank c a xs (omega arith) q;
}

abbrev erased : List ℕ
erased = replicate 16 255

abbrev fresh : Ota memory
fresh = record {
  chip = erased;
  first_fw_bytes = 0 ∷ 0 ∷ [];
  fw_size = 0;
  fw_crc = 0;
  flash_pointer = 0;
  crc16 = Crc16.new Crc16.default_init_value Crc16.default_polynomial;
  flash_block_begin_address = 0;
  stall_timer = 0;
  ota_state = OtaState.idle;
}

fresh-IsValid : IsValid memory fresh
fresh-IsValid = record { pointer_in = omega arith; first_two = refl }

-- An image of nine bytes, 1 to 9, in two pieces.
abbrev transfer : List (Call memory)
transfer =
    Call.starts 1000 5 0 9 (
      Crc16.calculate (1 ∷ 2 ∷ 3 ∷ 4 ∷ 5 ∷ 6 ∷ 7 ∷ 8 ∷ 9 ∷ []) Crc16.default_init_value
        Crc16.default_polynomial)
    ∷ Call.runs 6
    ∷ Call.stores 7 0 (1 ∷ 2 ∷ 3 ∷ 4 ∷ 5 ∷ 6 ∷ 7 ∷ [])
    ∷ Call.stores 8 7 (8 ∷ 9 ∷ 0 ∷ 0 ∷ 0 ∷ 0 ∷ 0 ∷ [])
    ∷ Call.runs 9
    ∷ Call.runs 10
    ∷ Call.runs 11
    ∷ Call.runs 12
    ∷ []

-- The first two bytes are written last.
image_stored :
    ((steps memory fresh transfer).ota_state ≡ OtaState.valid)
    × (take 10 (steps memory fresh transfer).chip ≡ 1 ∷ 2 ∷ 3 ∷ 4 ∷ 5 ∷ 6 ∷ 7 ∷ 8 ∷ 9 ∷ 255 ∷ [])
unfolding steps step start run run_state run_check finish_check read_next_check_chunk
    store_next_data store_piece keep_first write_at same_bytes Crc16.next_all Crc16.next
    Crc16.calculate Crc16.rounds Crc16.shift Crc16.get Crc16.reset Crc16.new has_elapsed
    stall_timeout_time
image_stored = (refl, refl)

start_lem_example :
    (((start memory 1000 5 fresh 0 9 77).0 ≡ true)
      ↔ ((0 < 9) × (9 ≤ 1000) × (0 * flash_block_to_bytes + 9 ≤ 16) × (true ≡ true)))
    × ((start memory 1000 5 fresh 0 9 77).0 ≡ true
        → Accepted memory (start memory 1000 5 fresh 0 9 77).1 5 0 9 77)
    × ((start memory 1000 5 fresh 0 9 77).0 ≡ false
        → (start memory 1000 5 fresh 0 9 77).1
          ≡ record fresh { chip = (start memory 1000 5 fresh 0 9 77).1.chip })
start_lem_example = start_lem memory 1000 5 fresh 0 9 77 (omega arith) (omega arith)

steps-IsValid_example : IsValid memory (steps memory fresh transfer)
steps-IsValid_example = steps-IsValid memory fresh transfer fresh-IsValid

abbrev checking : Ota memory
checking = record fresh { fw_size = 9; flash_pointer = 2; ota_state = OtaState.check; fw_crc = 77 }

checking-IsValid : IsValid memory checking
checking-IsValid = record { pointer_in = omega arith; first_two = refl }

first_bytes_guard_example :
    Blank (store_next_data memory 5 checking 2 (1 ∷ 2 ∷ 3 ∷ [])).1.chip
    × (Blank (run memory 5 checking).chip
        ⊎ ((OtaState.check ≡ OtaState.check) × Passed memory Blank (run memory 5 checking)))
first_bytes_guard_example =
    first_bytes_guard memory Blank checking 5 2 (1 ∷ 2 ∷ 3 ∷ []) checking-IsValid (memory-Keeps 9)
      (refl, refl)
