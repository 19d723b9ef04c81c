-- ===== src/OtaTransfer/Storage.antt =====
-- The storage of a node on a chip that behaves: what it knows of a transfer, and what the chip holds.
pub mod Erase
pub mod Pieces
pub mod Stored
use can_systems.Prelude.{
  ℕ, zero, suc, ◌+◌, ◌-◌, ◌*◌, ◌%◌, ◌^◌, ◌≤◌, ◌<◌, ◌≡◌, ◌⊎◌, inl, inr, refl, sym, ap, ap₂, ◌∙◌,
  arith, true, false, ◌&&◌, List, [], ◌∷◌, ltb, leb, if◌then◌else◌, length, take, drop, get_or, min,
  pred,
}
use can_systems.Common.Time.{has_elapsed}
use can_systems.Crc16
use can_systems.Crc16.{Crc16}
use can_systems.FlashOta.Driver.{Flash}
use can_systems.FlashOta.{
  Ota, OtaState, start, store_piece, store_next_data, expected_data, run, run_state,
  stall_timeout_time, block_address, flash_block_to_bytes,
}
use can_systems.OtaTransfer.Laws.{FlashLaws}
use can_systems.OtaTransfer.Bytes.{
  keep_first-later, keep_first-begin, get_or-drop, get_or-take, length-part, two_items, take-two,
}

module _ (flash : Flash) (laws : FlashLaws flash) (xs : List ℕ) (block : ℕ) where
  open flash use {Chip, capacity, chip_erase, busy, write_bytes, read_bytes}
  open laws use {mem, wait, erase_time, erase_lem, busy_lem, write_lem, read_lem}

  abbrev pub begin : ℕ
  begin = block * flash_block_to_bytes

  -- The memory when the image is stored up to `p`, but for its first two bytes.
  unfoldable pub expect : ℕ → ℕ → ℕ
  expect p a = if leb (begin + 2) a && ltb a (begin + p) then get_or xs (a - begin) 0 else 255

  pub record Holds (p : ℕ) (c : Chip) : Type 0 where
    pub held : (a : ℕ) → mem c a ≡ expect p a
    pub room : begin + length xs ≤ capacity c

  -- What the storage knows of the transfer.
  pub record Knows (st : OtaState) (p : ℕ) (s : Ota flash) : Type 0 where
    pub in_state : s.ota_state ≡ st
    pub sized : s.fw_size ≡ length xs
    pub summed : s.fw_crc ≡ Crc16.get (Crc16.next_all (Crc16.new 0 0x1021) xs)
    pub pointed : s.flash_pointer ≡ p
    pub placed : s.flash_block_begin_address ≡ begin
    pub seeded : Crc16.reset s.crc16 ≡ Crc16.new 0 0x1021
    pub two : length s.first_fw_bytes ≡ 2
    pub kept : 2 ≤ p → s.first_fw_bytes ≡ take 2 xs

  part_byte :
      (q n a : ℕ)
      → begin + q ≤ a
      → a < begin + q + n
      → get_or (take n (drop q xs)) (a - (begin + q)) 0 ≡ get_or xs (a - begin) 0
  part_byte q n a low high =
      let j : a - begin ≡ q + (a - (begin + q)) = omega arith in
      get_or-take n (a - (begin + q)) (drop q xs) (omega arith)
      ∙ get_or-drop q (a - (begin + q)) xs
      ∙ ap (λ k. get_or xs k 0) (sym j)

  expect-past : (q i : ℕ) → expect q (begin + q + i) ≡ 255
  unfolding expect
  expect-past q i = ground arith

  expect-written :
      (q n a : ℕ)
      → 2 ≤ q
      → q + n ≤ length xs
      → (if leb (begin + q) a && ltb a (begin + q + length (take n (drop q xs)))
          then get_or (take n (drop q xs)) (a - (begin + q)) 0
          else expect q a)
        ≡ expect (q + n) a
  unfolding expect
  expect-written q n a two h = ground (arith, length-part xs q n h, part_byte q n a)

  -- A write of the next bytes of the image.
  write-Holds :
      (c : Chip) (q n : ℕ)
      → 2 ≤ q
      → q + n ≤ length xs
      → wait c ≡ 0
      → Holds q c
      → let (written, c') = write_bytes c (begin + q) (take n (drop q xs)) in
        (written ≡ true) × (wait c' ≡ 0) × Holds (q + n) c'
  write-Holds c q n two h w holds =
      let len = length-part xs q n h in
      let piece = take n (drop q xs) in
      let room = holds.room in
      let (written, still, size, holding) =
        write_lem c (begin + q) piece w (omega arith)
          (λ i k. holds.held (begin + q + i) ∙ expect-past q i) in
      (
        written,
        still,
        record {
          held = λ a.
              holding a
              ∙ ap
                  (λ b.
                    if leb (begin + q) a && ltb a (begin + q + length piece)
                    then get_or piece (a - (begin + q)) 0
                    else b)
                  (holds.held a)
              ∙ expect-written q n a two h;
          room = omega arith;
        },
      )

  expect-nothing : (a : ℕ) → expect 0 a ≡ 255
  unfolding expect
  expect-nothing a = ground arith

  -- The size of the next piece from `p` on.
  abbrev pub next_size : ℕ → ℕ
  next_size p = min (length xs - p) 7
