-- ===== src/OtaTransfer/Storage/Pieces.antt =====
-- What the storage does with a piece that is in sequence.
use can_systems.Prelude.{
  ℕ, ◌+◌, ◌-◌, ◌%◌, ◌≤◌, ◌<◌, ◌≡◌, ap, ap₂, ◌∙◌, arith, true, List, [], ◌∷◌, length, take, drop,
  get_or, min,
}
use can_systems.FlashOta.Driver.{Flash}
use can_systems.FlashOta.{Ota, OtaState, store_piece, store_next_data, expected_data}
use can_systems.OtaTransfer.Laws.{FlashLaws}
use can_systems.OtaTransfer.Bytes.{
  keep_first-later, keep_first-begin, length-part, two_items, take-two,
}
use can_systems.OtaTransfer.Storage

module _ (flash : Flash) (laws : FlashLaws flash) (xs : List ℕ) (block : ℕ) where
  open flash use {Chip, capacity, chip_erase, busy, write_bytes, read_bytes}
  open laws use {mem, wait, erase_time, erase_lem, busy_lem, write_lem, read_lem}

  abbrev begin : ℕ
  begin = Storage.begin flash laws xs block

  abbrev next_size : ℕ → ℕ
  next_size = Storage.next_size flash laws xs block

  abbrev Holds : ℕ → Chip → Type 0
  Holds = Storage.Holds flash laws xs block

  abbrev Knows : OtaState → ℕ → Ota flash → Type 0
  Knows = Storage.Knows flash laws xs block

  store_piece-later :
      (now : ℕ) (s : Ota flash) (fw piece : List ℕ)
      → expected_data flash s fw ≡ piece
      → 2 ≤ s.flash_pointer
      → 0 < length piece
      → (write_bytes s.chip (s.flash_block_begin_address + s.flash_pointer) piece).0 ≡ true
      → store_piece flash now s fw ≡ (
        true,
        record s {
          chip = (write_bytes s.chip (s.flash_block_begin_address + s.flash_pointer) piece).1;
          flash_pointer = s.flash_pointer + length piece;
          stall_timer = now;
        },
      )
  unfolding store_piece
  store_piece-later now s fw piece e h k w =
      ground (arith, keep_first-later s.first_fw_bytes s.flash_pointer piece)

  store_piece-begin :
      (now : ℕ) (s : Ota flash) (fw : List ℕ) (x y a b : ℕ) (rest : List ℕ)
      → expected_data flash s fw ≡ a ∷ b ∷ rest
      → s.flash_pointer ≡ 0
      → s.first_fw_bytes ≡ x ∷ y ∷ []
      → 0 < length rest
      → (write_bytes s.chip (s.flash_block_begin_address + 2) rest).0 ≡ true
      → store_piece flash now s fw ≡ (
        true,
        record s {
          chip = (write_bytes s.chip (s.flash_block_begin_address + 2) rest).1;
          first_fw_bytes = a ∷ b ∷ [];
          flash_pointer = 2 + length rest;
          stall_timer = now;
        },
      )
  unfolding store_piece
  store_piece-begin now s fw x y a b rest e p f k w = ground (arith, keep_first-begin x y a b rest)

  store_piece-only :
      (now : ℕ) (s : Ota flash) (fw : List ℕ) (x y a b : ℕ)
      → expected_data flash s fw ≡ a ∷ b ∷ []
      → s.flash_pointer ≡ 0
      → s.first_fw_bytes ≡ x ∷ y ∷ []
      → store_piece flash now s fw
        ≡ (true, record s { first_fw_bytes = a ∷ b ∷ []; flash_pointer = 2; stall_timer = now })
  unfolding store_piece
  store_piece-only now s fw x y a b e p f = ground (arith, keep_first-begin x y a b [])

  pub later-eq :
      (now : ℕ) (s : Ota flash) (p : ℕ) (fw : List ℕ)
      → 2 ≤ p
      → p < length xs
      → take (next_size p) fw ≡ take (next_size p) (drop p xs)
      → Knows OtaState.store p s
      → (write_bytes s.chip (begin + p) (take (next_size p) (drop p xs))).0 ≡ true
      → store_next_data flash now s (p % 256) fw ≡ (
        true,
        record s {
          chip = (write_bytes s.chip (begin + p) (take (next_size p) (drop p xs))).1;
          flash_pointer = p + next_size p;
          stall_timer = now;
        },
      )
  unfolding store_next_data store_piece
  later-eq now s p fw two lt same k w =
      let fewer : next_size p ≤ 7 = ground arith in
      let piece = take (next_size p) (drop p xs) in
      let len = length-part xs p (next_size p) (ground arith) in
      let pointed = k.pointed in
      let sized = k.sized in
      let placed = k.placed in ground (arith, keep_first-later s.first_fw_bytes p piece)

  -- What the node finds of the image in the first frame.
  first_piece :
      (s : Ota flash) (n : ℕ) (fw : List ℕ)
      → 2 ≤ length xs
      → next_size 0 ≡ 2 + n
      → take (next_size 0) fw ≡ take (next_size 0) xs
      → Knows OtaState.store 0 s
      → expected_data flash s fw ≡ get_or xs 0 0 ∷ get_or xs 1 0 ∷ take n (drop 2 xs)
  first_piece s n fw h2 size same k =
      ap₂ (λ a b. take (min (a - b) 7) fw) k.sized k.pointed
      ∙ same
      ∙ ap (λ m. take m xs) size
      ∙ take-two n xs h2

  begin-eq :
      (now : ℕ) (s : Ota flash) (fw : List ℕ)
      → 0 < length xs
      → Knows OtaState.store 0 s
      → store_next_data flash now s 0 fw ≡ store_piece flash now s fw
  unfolding store_next_data
  begin-eq now s fw pos k = let pointed = k.pointed in let sized = k.sized in ground arith

  -- The first piece, of `2 + n` bytes.
  pub begin-many :
      (now : ℕ) (s : Ota flash) (n : ℕ) (fw : List ℕ)
      → 2 ≤ length xs
      → next_size 0 ≡ 2 + n
      → take (next_size 0) fw ≡ take (next_size 0) xs
      → Knows OtaState.store 0 s
      → 0 < n
      → (write_bytes s.chip (begin + 2) (take n (drop 2 xs))).0 ≡ true
      → store_next_data flash now s 0 fw ≡ (
        true,
        record s {
          chip = (write_bytes s.chip (begin + 2) (take n (drop 2 xs))).1;
          first_fw_bytes = get_or xs 0 0 ∷ get_or xs 1 0 ∷ [];
          flash_pointer = 2 + n;
          stall_timer = now;
        },
      )
  begin-many now s n fw h2 size same k pos w =
      let len = length-part xs 2 n (ground arith) in
      begin-eq now s fw (omega arith) k
      ∙ store_piece-begin now s fw (get_or s.first_fw_bytes 0 0) (get_or s.first_fw_bytes 1 0)
          (get_or xs 0 0) (get_or xs 1 0) (take n (drop 2 xs)) (first_piece s n fw h2 size same k)
          k.pointed (two_items s.first_fw_bytes k.two) (omega arith) (cc)
      ∙ ap₂
          (λ address m. (
            true,
            record s {
              chip = (write_bytes s.chip (address + 2) (take n (drop 2 xs))).1;
              first_fw_bytes = get_or xs 0 0 ∷ get_or xs 1 0 ∷ [];
              flash_pointer = 2 + m;
              stall_timer = now;
            },
          ))
          k.placed len

  pub begin-two :
      (now : ℕ) (s : Ota flash) (fw : List ℕ)
      → 2 ≤ length xs
      → next_size 0 ≡ 2
      → take (next_size 0) fw ≡ take (next_size 0) xs
      → Knows OtaState.store 0 s
      → store_next_data flash now s 0 fw ≡ (
        true,
        record s {
          first_fw_bytes = get_or xs 0 0 ∷ get_or xs 1 0 ∷ [];
          flash_pointer = 2;
          stall_timer = now;
        },
      )
  begin-two now s fw h2 size same k =
      begin-eq now s fw (omega arith) k
      ∙ store_piece-only now s fw (get_or s.first_fw_bytes 0 0) (get_or s.first_fw_bytes 1 0)
          (get_or xs 0 0) (get_or xs 1 0) (first_piece s 0 fw h2 size same k) k.pointed
          (two_items s.first_fw_bytes k.two)
