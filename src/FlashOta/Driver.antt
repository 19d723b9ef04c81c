-- ===== src/FlashOta/Driver.antt =====
-- What lib/ota asks of the SPI flash driver, lib/SPIFlash/src/SPIFlash.h: each call returns what the
-- method returns and the chip's next state. The driver is a parameter of the model.
use can_systems.Prelude.{ℕ, Bool, List}

pub record Flash : Type 1 where
  pub Chip : Type 0
  pub capacity : Chip → ℕ
  pub chip_erase : Chip → Bool × Chip
  pub busy : Chip → Bool × Chip
  pub write_bytes : Chip → ℕ → List ℕ → Bool × Chip
  -- The result, the bytes in the buffer, and the chip.
  pub read_bytes : Chip → ℕ → ℕ → Bool × List ℕ × Chip
