-- ===== src/OtaTransfer/Check.antt =====
-- The CHECK state on a chip that behaves: the image is read back, its checksum is the announced one,
-- and its first two bytes are written.
use can_systems.Prelude.{
  ℕ, ◌+◌, ◌-◌, ◌≤◌, ◌<◌, ◌≡◌, ◌⊎◌, inl, inr, refl, sym, ap, ap₂, ◌∙◌, arith, Bool, true, ◌&&◌, List,
  [], ◌∷◌, ltb, leb, ◌==◌, if◌then◌else◌, length, take, drop, get_or, min, dec_lt, length-take,
}
use can_systems.Crc16
use can_systems.Crc16.{Crc16}
use can_systems.FlashOta.Driver.{Flash}
use can_systems.FlashOta.{
  Ota, OtaState, run, run_state, run_check, finish_check, read_next_check_chunk,
}
use can_systems.FlashOta.SameBytes.{same_bytes_refl}
use can_systems.OtaTransfer.Laws.{FlashLaws}
use can_systems.OtaTransfer.Bytes.{
  start_crc, count_more, bytes_at, bytes_at-image, take-all, take_step, get_or-take,
}
use can_systems.OtaTransfer.Storage.{Holds, expect, begin}

module _ (flash : Flash) (laws : FlashLaws flash) (xs : List ℕ) (block : ℕ) where
  open flash use {Chip, capacity, chip_erase, busy, write_bytes, read_bytes}
  open laws use {mem, wait, erase_lem, busy_lem, write_lem, read_lem}

  -- The storage while it checks, when it has read `q` bytes.
  pub record Checks (q : ℕ) (s : Ota flash) : Type 0 where
    pub in_state : s.ota_state ≡ OtaState.check
    pub sized : s.fw_size ≡ length xs
    pub summed : s.fw_crc ≡ Crc16.get (Crc16.next_all start_crc xs)
    pub pointed : s.flash_pointer ≡ q
    pub placed : s.flash_block_begin_address ≡ begin flash laws xs block
    pub first : s.first_fw_bytes ≡ take 2 xs
    pub counted : s.crc16 ≡ Crc16.next_all start_crc (take q xs)
    pub ready : wait s.chip ≡ 0
    pub holding : Holds flash laws xs block (length xs) s.chip

  -- The storage when the image is complete.
  pub record Complete (s : Ota flash) : Type 0 where
    pub valid : s.ota_state ≡ OtaState.valid
    pub placed : s.flash_block_begin_address ≡ begin flash laws xs block
    pub image : (i : ℕ) → i < length xs → mem s.chip (begin flash laws xs block + i) ≡ get_or xs i 0

  abbrev chunk : ℕ → ℕ
  chunk q = if ltb q 2 then 1 else min (length xs - q) 32

  first-eq :
      (s : Ota flash)
      → s.flash_pointer < 2
      → read_next_check_chunk flash s ≡ record s {
        crc16 = Crc16.next_all s.crc16 (get_or s.first_fw_bytes s.flash_pointer 0 ∷ []);
        flash_pointer = s.flash_pointer + 1;
      }
  unfolding read_next_check_chunk
  first-eq s h = ground arith

  chunk-eq :
      (s : Ota flash) (q : ℕ)
      → 2 ≤ q
      → Checks q s
      → read_next_check_chunk flash s ≡ record s {
        chip = (read_bytes s.chip (begin flash laws xs block + q) (min (length xs - q) 32)).2;
        crc16 =
            Crc16.next_all s.crc16
              (read_bytes s.chip (begin flash laws xs block + q) (min (length xs - q) 32)).1;
        flash_pointer = q + min (length xs - q) 32;
      }
  unfolding read_next_check_chunk
  chunk-eq s q h k =
      let pointed = k.pointed in let sized = k.sized in let placed = k.placed in ground arith

  expect-inside :
      (i : ℕ)
      → 2 ≤ i
      → i < length xs
      → expect flash laws xs block (length xs) (begin flash laws xs block + i) ≡ get_or xs i 0
  unfolding expect
  expect-inside i low high = ground arith

  first-Checks :
      (s : Ota flash) (q : ℕ)
      → q < 2
      → q < length xs
      → Checks q s
      → Checks (q + 1) (read_next_check_chunk flash s)
  first-Checks s q h lt k =
      let early : s.flash_pointer < 2 = let pointed = k.pointed in omega arith in
      let byte : get_or s.first_fw_bytes s.flash_pointer 0 ≡ get_or xs q 0 =
        ap₂ (λ bs i. get_or bs i 0) k.first k.pointed ∙ get_or-take 2 q xs h in
      rw (first-eq s early) (record {
        in_state = k.in_state;
        sized = k.sized;
        summed = k.summed;
        pointed = ap (λ i. i + 1) k.pointed;
        placed = k.placed;
        first = k.first;
        counted =
            count_more xs q 1 (get_or s.first_fw_bytes s.flash_pointer 0 ∷ []) s.crc16 k.counted
              (ap (λ b. b ∷ []) byte ∙ sym (take_step 0 q xs lt));
        ready = k.ready;
        holding = k.holding;
      })

  part_read :
      (s : Ota flash) (q n : ℕ)
      → 2 ≤ q
      → q + n ≤ length xs
      → Checks q s
      → bytes_at (mem s.chip) (begin flash laws xs block + q) n ≡ take n (drop q xs)
  part_read s q n h room k =
      bytes_at-image (mem s.chip) (begin flash laws xs block) q n xs room (λ i low high.
        k.holding.held (begin flash laws xs block + i)
        ∙ expect-inside i (omega arith) (omega arith))

  later-Checks :
      (s : Ota flash) (q : ℕ)
      → 2 ≤ q
      → q < length xs
      → Checks q s
      → Checks (q + min (length xs - q) 32) (read_next_check_chunk flash s)
  later-Checks s q h lt k =
      let n = min (length xs - q) 32 in
      let (done, bytes, still, size, same) =
        read_lem s.chip (begin flash laws xs block + q) n k.ready in
      let room = k.holding.room in
      rw (chunk-eq s q h k) (record {
        in_state = k.in_state;
        sized = k.sized;
        summed = k.summed;
        pointed = refl;
        placed = k.placed;
        first = k.first;
        counted =
            count_more xs q n (read_bytes s.chip (begin flash laws xs block + q) n).1 s.crc16
              k.counted (bytes ∙ part_read s q n h (ground arith) k);
        ready = still;
        holding = record { held = λ a. same a ∙ k.holding.held a; room = omega arith };
      })

  -- The chip after the first two bytes have been written and read back.
  abbrev written : Ota flash → Chip
  written s = (write_bytes s.chip (begin flash laws xs block) (take 2 xs)).1

  abbrev reread : Ota flash → Bool × List ℕ × Chip
  reread s = read_bytes (written s) (begin flash laws xs block) 2

  finish-eq :
      (s : Ota flash)
      → Checks (length xs) s
      → (write_bytes s.chip (begin flash laws xs block) (take 2 xs)).0 ≡ true
      → (reread s).0 ≡ true
      → (reread s).1 ≡ take 2 xs
      → finish_check flash s ≡ record s { chip = (reread s).2; ota_state = OtaState.valid }
  unfolding finish_check
  finish-eq s k w r same =
      let sum : s.fw_crc ≡ Crc16.get s.crc16 =
        k.summed
        ∙ ap (λ ys. Crc16.get (Crc16.next_all start_crc ys)) (sym (take-all xs))
        ∙ ap Crc16.get (sym k.counted) in
      let first = k.first in let placed = k.placed in ground (arith, same_bytes_refl (take 2 xs))

  expect-erased :
      (i : ℕ) → i < 2 → expect flash laws xs block (length xs) (begin flash laws xs block + i) ≡ 255
  unfolding expect
  expect-erased i h = ground arith

  -- What the memory is when the first two bytes `first` have been written.
  filled :
      (first : List ℕ) (i : ℕ) (b : ℕ)
      → first ≡ take 2 xs
      → length first ≡ 2
      → i < length xs
      → (2 ≤ i → b ≡ get_or xs i 0)
      → (if leb (begin flash laws xs block) (begin flash laws xs block + i)
            && ltb (begin flash laws xs block + i) (begin flash laws xs block + length first)
          then get_or first (begin flash laws xs block + i - begin flash laws xs block) 0
          else b)
        ≡ get_or xs i 0
  filled first i b e two h later = elim (dec_lt i 2) [
    | yes early ↦
        (let j : begin flash laws xs block + i - begin flash laws xs block ≡ i = omega arith in
          let byte : get_or first (begin flash laws xs block + i - begin flash laws xs block) 0
              ≡ get_or xs i 0 =
            ap₂ (λ bs k. get_or bs k 0) e j ∙ get_or-take 2 i xs early in
          ground arith)
    | no late ↦ (let r : b ≡ get_or xs i 0 = later (omega arith) in ground arith)
  ]

  length_first : 2 ≤ length xs → length (take 2 xs) ≡ 2
  length_first h = omega (arith, length-take 2 xs)

  written-image :
      (s : Ota flash)
      → 2 ≤ length xs
      → Checks (length xs) s
      → ((write_bytes s.chip (begin flash laws xs block) (take 2 xs)).0 ≡ true)
        × (wait (written s) ≡ 0)
        × ((i : ℕ)
            → i < length xs
            → mem (written s) (begin flash laws xs block + i) ≡ get_or xs i 0)
  written-image s two k =
      let len = length_first two in
      let room = k.holding.room in
      let (good, still, size, after) =
        write_lem s.chip (begin flash laws xs block) (take 2 xs) k.ready (omega arith)
          (λ i h. k.holding.held (begin flash laws xs block + i) ∙ expect-erased i (omega arith)) in
      (
        good,
        still,
        λ i h.
            after (begin flash laws xs block + i)
            ∙ filled (take 2 xs) i (mem s.chip (begin flash laws xs block + i)) refl len h
                (λ late. k.holding.held (begin flash laws xs block + i) ∙ expect-inside i late h),
      )

  finish_check-Complete :
      (s : Ota flash) → 2 ≤ length xs → Checks (length xs) s → Complete (finish_check flash s)
  finish_check-Complete s two k =
      let (good, still, image) = written-image s two k in
      let (done, bytes, quiet, size, same) =
        read_lem (written s) (begin flash laws xs block) 2 still in
      let origin : begin flash laws xs block ≡ begin flash laws xs block + 0 = omega arith in
      let first : bytes_at (mem (written s)) (begin flash laws xs block) 2 ≡ take 2 xs =
        ap (λ a. bytes_at (mem (written s)) a 2) origin
        ∙ bytes_at-image (mem (written s)) (begin flash laws xs block) 0 2 xs (omega arith)
            (λ i low high. image i (omega arith)) in
      rw (finish-eq s k good done (bytes ∙ first)) (record {
        valid = refl;
        placed = k.placed;
        image = λ i h. same (begin flash laws xs block + i) ∙ image i h;
      })

  run-eq :
      (now : ℕ) (s : Ota flash) (q : ℕ)
      → Checks q s
      → q < length xs
      → run flash now s ≡ (
          let s' = read_next_check_chunk flash s in
          if s'.flash_pointer == s'.fw_size then finish_check flash s' else s')
  unfolding run run_state run_check
  run-eq now s q k lt =
      let state = k.in_state in let pointed = k.pointed in let sized = k.sized in ground arith

  verdict :
      (s : Ota flash) (p q : ℕ)
      → 2 ≤ length xs
      → p < q
      → q ≤ length xs
      → Checks q s
      → let s' = if s.flash_pointer == s.fw_size then finish_check flash s else s in
        ((q' : ℕ) × (p < q') × (q' < length xs) × Checks q' s') ⊎ Complete s'
  verdict s p q two above le k = elim (dec_lt q (length xs)) [
    | yes more ↦
        (let pointed = k.pointed in
          let sized = k.sized in
          let e : (if s.flash_pointer == s.fw_size then finish_check flash s else s) ≡ s =
            ground arith in
          inl (q, above, more, rw e k))
    | no all ↦
        (let pointed = k.pointed in
          let sized = k.sized in
          let e : (if s.flash_pointer == s.fw_size then finish_check flash s else s)
              ≡ finish_check flash s =
            ground arith in
          let same : q ≡ length xs = omega arith in
          inr (rw e (finish_check-Complete s two (rw (sym same) k))))
  ]

  -- A pass reads on or completes the image.
  pub run-check :
      (now : ℕ) (s : Ota flash) (q : ℕ)
      → 2 ≤ length xs
      → q < length xs
      → Checks q s
      → let s' = run flash now s in
        ((q' : ℕ) × (q < q') × (q' < length xs) × Checks q' s') ⊎ Complete s'
  run-check now s q two lt k = elim (dec_lt q 2) [
    | yes early ↦
        (let step = first-Checks s q early lt k in
          rw (run-eq now s q k lt) (
            verdict (read_next_check_chunk flash s) q (q + 1) two (omega arith) (omega arith) step))
    | no late ↦
        (let step = later-Checks s q (omega arith) lt k in
          rw (run-eq now s q k lt) (
            verdict (read_next_check_chunk flash s) q (q + min (length xs - q) 32) two (omega arith)
              (omega arith) step))
  ]
