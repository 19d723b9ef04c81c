-- ===== src/CanOta/Driver.antt =====
-- What CanOta asks of an open file of the file system LittleFS, which is a parameter of the model: its
-- size, the bytes that are left, a read, which gives what was read, and a move to a position.
use can_systems.Prelude.{ℕ, List}

pub record FileSystem : Type 1 where
  pub File : Type 0
  pub size : File → ℕ
  pub available : File → ℕ
  pub read : File → ℕ → List ℕ × File
  pub seek : File → ℕ → File
