-- ===== src/EepromHandler/Tests.antt =====
-- A value of three bytes in an EEPROM that is a list of bytes.
use can_systems.Prelude.{
  ℕ, ◌+◌, ◌≡◌, refl, arith, true, false, List, [], ◌∷◌, ◌++◌, some, none, take, drop, length,
}
use can_systems.EepromHandler.Driver.{Eeprom}
use can_systems.EepromHandler.{EepromHandler, save_to, load_to, get_data_size}
use can_systems.EepromHandler.Kept.{held, load_to-save_to, load_to-damaged}
use can_systems.FlashOta.{same_bytes}
use can_systems.Crc16.{calculate, next, rounds, shift}
use can_systems.CanProtocol.Bytes.{byte_of}

abbrev list_eeprom : Eeprom
list_eeprom = record {
  Store = List ℕ;
  begin = λ s n. (true, s);
  put = λ s address xs. take address s ++ xs ++ drop (address + length xs) s;
  get = λ s address n. take n (drop address s);
  commit = λ s. (true, s);
}

abbrev erased : EepromHandler list_eeprom 2 3
erased = record {
  store = 255 ∷ 255 ∷ 255 ∷ 255 ∷ 255 ∷ 255 ∷ 255 ∷ 255 ∷ [];
  eeprom_initialised = false;
  pointee = none;
}

abbrev value : List ℕ
value = 1 ∷ 2 ∷ 3 ∷ []

abbrev old : List ℕ
old = 0 ∷ 0 ∷ 0 ∷ []

saved : (save_to list_eeprom 2 3 erased (some value)).0 ≡ true
unfolding save_to same_bytes calculate next rounds shift byte_of
saved = refl

load_to-save_to_example :
    load_to list_eeprom 2 3 (save_to list_eeprom 2 3 erased (some value)).1 (some old)
    ≡ (true, some value, (save_to list_eeprom 2 3 erased (some value)).1)
load_to-save_to_example = load_to-save_to list_eeprom 2 3 erased value old saved

-- The stored bytes, and the same with the second byte of the value changed.
abbrev damaged : EepromHandler list_eeprom 2 3
damaged = record {
  store = 255 ∷ 255 ∷ 0x31 ∷ 0x61 ∷ 1 ∷ 7 ∷ 3 ∷ 255 ∷ [];
  eeprom_initialised = true;
  pointee = none;
}

stored :
    held list_eeprom 2 3 (save_to list_eeprom 2 3 erased (some value)).1
    ≡ (0x31 ∷ 0x61 ∷ 1 ∷ []) ++ 2 ∷ 3 ∷ []
unfolding save_to calculate next rounds shift byte_of
stored = refl

load_to-damaged_example : load_to list_eeprom 2 3 damaged (some old) ≡ (false, some old, damaged)
unfolding get_data_size
load_to-damaged_example =
    load_to-damaged list_eeprom 2 3 erased damaged value old (0x31 ∷ 0x61 ∷ 1 ∷ []) (3 ∷ []) 2 7
      refl saved stored refl (omega arith) (omega arith) (omega arith)
