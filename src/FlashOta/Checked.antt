-- ===== src/FlashOta/Checked.antt =====
-- What a check reads: every byte of the image, in order, before the verdict falls.
use can_systems.Prelude.{
  ℕ, ◌+◌, ◌-◌, ◌≤◌, ◌<◌, ◌≡◌, ◌≢◌, refl, sym, ap, ◌∙◌, subst, if◌then◌else◌, arith, false, ◌&&◌,
  List, [], ◌∷◌, ◌++◌, ltb, ◌==◌, min, get_or, Bool-cases, ◌⊎◌, inl, inr,
}
use can_systems.Common.Time.{has_elapsed}
use can_systems.Crc16
use can_systems.Crc16.{Crc16, next, next_all, reset, calculate}
use can_systems.Crc16.Streaming.{next_all-append, calculate_lem}
use can_systems.FlashOta.Driver.{Flash}
use can_systems.FlashOta.{
  Ota, OtaState, start, run, run_state, run_check, finish_check, read_next_check_chunk,
  first_fw_size, check_chunk_size, waiting_on_somebody, stall_timeout_time,
}
use can_systems.FlashOta.SameBytes.{same_bytes_eq}

reset-next_all : (c : Crc16) (xs : List ℕ) → reset (next_all c xs) ≡ reset c
unfolding reset next_all next
reset-next_all c [] = refl
reset-next_all c (x ∷ xs) = reset-next_all (next c x) xs

-- A checksum of bytes stays one when more are taken in.
summed_more :
    (c : Crc16) (bs xs : List ℕ)
    → c ≡ next_all (reset c) bs
    → next_all c xs ≡ next_all (reset (next_all c xs)) (bs ++ xs)
summed_more c bs xs h =
    ap (λ d. next_all d xs) h
    ∙ sym (next_all-append (reset c) bs xs)
    ∙ ap (λ d. next_all d (bs ++ xs)) (sym (reset-next_all c xs))

module _ (flash : Flash) where
  open flash use {Chip, chip_erase, busy, write_bytes, read_bytes}

  -- The bytes that a check has read up to a pointer, with the chip as it then is: the bytes kept in
  -- memory, `first`, and what the chip has answered for the rest of the region at `base`, in order. The
  -- chip may have refused to be erased in between.
  pub data ReadBack (first : List ℕ) (base size : ℕ) : ℕ → List ℕ → Chip → Type 0 where
    nothing_read : (c : Chip) → ReadBack first base size 0 [] c
    kept_byte :
        (p : ℕ) (bs : List ℕ) (c : Chip)
        → p < first_fw_size
        → p < size
        → ReadBack first base size p bs c
        → ReadBack first base size (p + 1) (bs ++ get_or first p 0 ∷ []) c
    chunk_read :
        (p n : ℕ) (bs : List ℕ) (c : Chip)
        → first_fw_size ≤ p
        → p + n ≤ size
        → ReadBack first base size p bs c
        → ReadBack first base size
            (p + n)
            (bs ++ (read_bytes c (base + p) n).1)
            (read_bytes c (base + p) n).2
    erase_refused :
        (p : ℕ) (bs : List ℕ) (c : Chip)
        → (chip_erase c).0 ≡ false
        → ReadBack first base size p bs c
        → ReadBack first base size p bs (chip_erase c).1

  -- What has been read so far, and that the checksum is that of it.
  pub record Reading (s : Ota flash) : Type 0 where
    pub bytes : List ℕ
    pub read :
        ReadBack s.first_fw_bytes s.flash_block_begin_address s.fw_size s.flash_pointer bytes s.chip
    pub summed : s.crc16 ≡ next_all (reset s.crc16) bytes

  -- A check that is under way has read everything before its pointer.
  abbrev pub Tracks : Ota flash → Type 0
  Tracks s = s.ota_state ≡ OtaState.check → Reading s

  -- The verdict of a check: the whole image has been read, it has the announced checksum, and the first
  -- bytes were then written and read back.
  pub record Complete (s : Ota flash) : Type 0 where
    pub bytes : List ℕ
    pub chip : Chip
    pub read : ReadBack s.first_fw_bytes s.flash_block_begin_address s.fw_size s.fw_size bytes chip
    pub summed : calculate bytes s.crc16.init_value s.crc16.polynomial ≡ s.fw_crc
    pub written :
        let written_chip = (write_bytes chip s.flash_block_begin_address s.first_fw_bytes).1 in
        let (_, back, c) = read_bytes written_chip s.flash_block_begin_address first_fw_size in
        (back ≡ s.first_fw_bytes) × (c ≡ s.chip)

  start-cases :
      (pms now : ℕ) (s : Ota flash) (number fw_size fw_crc : ℕ)
      → let s' = (start flash pms now s number fw_size fw_crc).1 in
        (s' ≡ s)
        ⊎ ((((chip_erase s.chip).0 ≡ false) × (s' ≡ record s { chip = (chip_erase s.chip).1 }))
            ⊎ (s'.ota_state ≡ OtaState.start))
  unfolding start
  start-cases pms now s number fw_size fw_crc = ground arith

  pub start-Tracks :
      (pms now : ℕ) (s : Ota flash) (number fw_size fw_crc : ℕ)
      → Tracks s
      → Tracks (start flash pms now s number fw_size fw_crc).1
  start-Tracks pms now s number fw_size fw_crc t =
      elim (start-cases pms now s number fw_size fw_crc) [
        | inl same ↦ subst (λ u. Tracks u) (sym same) t
        | inr (inl (not_erased, same)) ↦
            subst (λ u. Tracks u) (sym same)
              (λ h.
                let r = t h in
                record {
                  bytes = r.bytes;
                  read = ReadBack.erase_refused s.flash_pointer r.bytes s.chip not_erased r.read;
                  summed = r.summed;
                })
        | inr (inr started) ↦ λ h. absurd (ground arith)
      ]

  read_next_check_chunk-Reading :
      (s : Ota flash)
      → s.flash_pointer < s.fw_size
      → Reading s
      → Reading (read_next_check_chunk flash s)
  unfolding read_next_check_chunk
  read_next_check_chunk-Reading s h r = elim (Bool-cases (ltb s.flash_pointer first_fw_size)) [
    | inl kept ↦ rw kept (record {
      bytes = r.bytes ++ get_or s.first_fw_bytes s.flash_pointer 0 ∷ [];
      read = ReadBack.kept_byte s.flash_pointer r.bytes s.chip (ground arith) h r.read;
      summed =
          summed_more s.crc16 r.bytes (get_or s.first_fw_bytes s.flash_pointer 0 ∷ []) r.summed;
    })
    | inr rest ↦
        (let n = min (s.fw_size - s.flash_pointer) check_chunk_size in
          let answer = read_bytes s.chip (s.flash_block_begin_address + s.flash_pointer) n in
          rw rest (record {
            bytes = r.bytes ++ answer.1;
            read =
                ReadBack.chunk_read s.flash_pointer n r.bytes s.chip (ground arith) (omega arith)
                  r.read;
            summed = summed_more s.crc16 r.bytes answer.1 r.summed;
          }))
  ]

  finish_check-valid :
      (s : Ota flash)
      → (finish_check flash s).ota_state ≡ OtaState.valid
      → let written_chip = (write_bytes s.chip s.flash_block_begin_address s.first_fw_bytes).1 in
        let (_, back, c) = read_bytes written_chip s.flash_block_begin_address first_fw_size in
        (Crc16.get s.crc16 ≡ s.fw_crc)
        × (back ≡ s.first_fw_bytes)
        × (finish_check flash s ≡ record s { chip = c; ota_state = OtaState.valid })
  unfolding finish_check
  finish_check-valid s h =
      let written_chip = (write_bytes s.chip s.flash_block_begin_address s.first_fw_bytes).1 in
      let back = (read_bytes written_chip s.flash_block_begin_address first_fw_size).1 in
      (ground arith, ground (arith, same_bytes_eq s.first_fw_bytes back), ground arith)

  finish_check-ends : (s : Ota flash) → (finish_check flash s).ota_state ≢ OtaState.check
  unfolding finish_check
  finish_check-ends s h = ground arith

  finish_check-Complete :
      (s : Ota flash)
      → Reading s
      → s.flash_pointer ≡ s.fw_size
      → (finish_check flash s).ota_state ≡ OtaState.valid
      → Complete (finish_check flash s)
  unfolding Crc16.new reset
  finish_check-Complete s r whole h =
      let (crc, back, is) = finish_check-valid s h in
      subst (λ t. Complete t) (sym is)
        (record {
          bytes = r.bytes;
          chip = s.chip;
          read =
              subst
                (λ p.
                  ReadBack s.first_fw_bytes s.flash_block_begin_address s.fw_size p r.bytes s.chip)
                whole r.read;
          summed =
              calculate_lem r.bytes s.crc16.init_value s.crc16.polynomial
              ∙ sym (ap Crc16.get r.summed)
              ∙ crc;
          written = (back, refl);
        })

  -- What a pass keeps: a check that goes on has read everything so far, and one that ends well has
  -- read everything.
  abbrev pub Verified : Ota flash → Type 0
  Verified s = Tracks s × (s.ota_state ≡ OtaState.valid → Complete s)

  verdict-Verified :
      (s : Ota flash)
      → Reading s
      → s.ota_state ≡ OtaState.check
      → Verified (if s.flash_pointer == s.fw_size then finish_check flash s else s)
  verdict-Verified s r checking = elim (Bool-cases (s.flash_pointer == s.fw_size)) [
    | inl whole ↦
        rw whole (λ h. absurd (finish_check-ends s h), finish_check-Complete s r (ground arith))
    | inr part ↦ rw part (λ h. r, λ h. absurd (ground arith))
  ]

  read_next-state : (s : Ota flash) → (read_next_check_chunk flash s).ota_state ≡ s.ota_state
  unfolding read_next_check_chunk
  read_next-state s = ground arith

  run_check-Verified :
      (s : Ota flash) → Reading s → s.ota_state ≡ OtaState.check → Verified (run_check flash s)
  unfolding run_check
  run_check-Verified s r checking = elim (Bool-cases (ltb s.flash_pointer s.fw_size)) [
    | inl more ↦ rw more (
        verdict-Verified (read_next_check_chunk flash s)
          (read_next_check_chunk-Reading s (ground arith) r) (read_next-state s ∙ checking))
    | inr all ↦ rw all (verdict-Verified s r checking)
  ]

  run_state-Verified :
      (st : OtaState) (s : Ota flash)
      → s.ota_state ≡ st
      → Tracks s
      → Verified (run_state flash st s)
  unfolding run_state reset next_all
  run_state-Verified OtaState.idle s e t = (t, λ h. absurd (ground arith))
  run_state-Verified OtaState.start s e t = (λ h. absurd (ground arith), λ h. absurd (ground arith))
  run_state-Verified OtaState.store s e t = elim (Bool-cases (s.flash_pointer == s.fw_size)) [
    | inl whole ↦ rw whole (
      λ h. record { bytes = []; read = ReadBack.nothing_read s.chip; summed = refl },
      λ h. absurd (ground arith),
    )
    | inr part ↦ rw part (λ h. absurd (ground arith), λ h. absurd (ground arith))
  ]
  run_state-Verified OtaState.check s e t = run_check-Verified s (t e) e
  run_state-Verified OtaState.valid s e t = (λ h. absurd (ground arith), λ h. absurd (ground arith))
  run_state-Verified OtaState.invalid s e t =
      (λ h. absurd (ground arith), λ h. absurd (ground arith))

  -- A pass that begins with such a check, or with none, keeps it.
  pub run-Verified : (now : ℕ) (s : Ota flash) → Tracks s → Verified (run flash now s)
  unfolding run
  run-Verified now s t =
      elim (Bool-cases
        (waiting_on_somebody s.ota_state && has_elapsed now s.stall_timer stall_timeout_time)) [
          | inl stalled ↦ rw stalled (λ h. absurd (ground arith), λ h. absurd (ground arith))
          | inr goes_on ↦ rw goes_on (run_state-Verified s.ota_state s refl t)
        ]
