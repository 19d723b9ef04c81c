-- ===== src/DataTransfer/Driver.antt =====
-- What class DataTransfer asks of the platform, which is a parameter of the model: the file system
-- LittleFS with a `File` object, which is open or not, the updater of the firmware, and MD5Builder. A
-- text is the list of its bytes.
use can_systems.Prelude.{ℕ, Bool, List}

pub record Platform : Type 1 where
  -- The file system. `open_write` truncates the file; a write gives the number of bytes written, a
  -- read the bytes read.
  pub Disk : Type 0
  pub File : Type 0
  pub no_file : File
  pub is_open : File → Bool
  pub open_write : Disk → List ℕ → File × Disk
  pub open_read : Disk → List ℕ → File × Disk
  pub write : Disk → File → List ℕ → ℕ × File × Disk
  pub read : Disk → File → ℕ → List ℕ × File
  pub size : Disk → File → ℕ
  pub available : Disk → File → ℕ
  pub close : Disk → File → File × Disk
  pub rename : Disk → List ℕ → List ℕ → Bool × Disk
  pub total_bytes : Disk → ℕ
  pub used_bytes : Disk → ℕ
  -- The updater.
  pub Updater : Type 0
  pub update_begin : Updater → ℕ → Bool × Updater
  pub update_set_md5 : Updater → List ℕ → Bool × Updater
  pub update_write : Updater → List ℕ → ℕ × Updater
  pub update_end : Updater → Bool × Updater
  pub update_abort : Updater → Updater
  -- MD5Builder.
  pub Md5 : Type 0
  pub md5_begin : Md5 → Md5
  pub md5_add : Md5 → List ℕ → Md5
  pub md5_calculate : Md5 → Md5
  pub md5_to_string : Md5 → List ℕ
