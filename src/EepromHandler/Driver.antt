-- ===== src/EepromHandler/Driver.antt =====
-- What EEPROMHandler asks of the EEPROM library, which is a parameter of the model: to make room for a
-- number of bytes, to put bytes at an address and get them, and to commit what was put.
use can_systems.Prelude.{ℕ, Bool, List}

pub record Eeprom : Type 1 where
  pub Store : Type 0
  pub begin : Store → ℕ → Bool × Store
  pub put : Store → ℕ → List ℕ → Store
  pub get : Store → ℕ → ℕ → List ℕ
  pub commit : Store → Bool × Store
