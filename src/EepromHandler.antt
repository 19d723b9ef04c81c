-- ===== src/EepromHandler.antt =====
-- class EEPROMHandler of lib/eepromHandler/src, as it is built for ESP8266 and ESP32: a value that is
-- kept with its checksum. The value is its bytes, `size` of them; a null pointer is `none`.
pub mod Driver
pub mod Record
pub mod Kept
mod Tests
use can_systems.Prelude.{
  ℕ, ◌+◌, Bool, true, false, not, List, [], ◌∷◌, Option, none, some, ◌==◌, if◌then◌else◌,
}
use can_systems.Crc16.{calculate, default_init_value, default_polynomial}
use can_systems.CanProtocol.Bytes.{byte_of, word16}
use can_systems.FlashOta.{same_bytes}
use Driver.{Eeprom}

-- `EEPROMData`, and its bytes as they lie in memory.
pub record EepromData : Type 0 where
  pub crc : ℕ
  pub payload : List ℕ

unfoldable pub bytes_of : EepromData → List ℕ
bytes_of r = byte_of 0 r.crc ∷ byte_of 1 r.crc ∷ r.payload

unfoldable pub of_bytes : List ℕ → EepromData
of_bytes [] = record { crc = 0; payload = [] }
of_bytes (b ∷ []) = record { crc = b; payload = [] }
of_bytes (b ∷ c ∷ rest) = record { crc = word16 b c; payload = rest }

unfoldable pub checksum_of : EepromData → ℕ
unfolding bytes_of
checksum_of r = calculate (bytes_of (record r { crc = 0 })) default_init_value default_polynomial

module _ (e : Eeprom) (eeprom_address size : ℕ) where
  open e use {Store, begin, put, get, commit}

  -- The store, the static flag, and what the object's pointer points to.
  pub record EepromHandler : Type 0 where
    pub store : Store
    pub eeprom_initialised : Bool
    pub pointee : Option (List ℕ)

  unfoldable pub get_data_size : ℕ
  get_data_size = size + 2

  unfoldable pub init : EepromHandler → Bool × EepromHandler
  unfolding get_data_size
  init h =
      if h.eeprom_initialised
      then (true, h)
      else (let (begun, st) = begin h.store (eeprom_address + get_data_size) in
          (begun, record h { store = st; eeprom_initialised = begun }))

  -- `save(T*)`, once the EEPROM is ready.
  unfoldable pub write_record : EepromHandler → List ℕ → Bool × EepromHandler
  unfolding checksum_of bytes_of get_data_size
  write_record h value =
      let r : EepromData = record { crc = 0; payload = value } in
      let sealed = record r { crc = checksum_of r } in
      let (committed, st) = commit (put h.store eeprom_address (bytes_of sealed)) in
      let h' = record h { store = st } in
      if not committed
      then (false, h')
      else (same_bytes (bytes_of sealed) (get st eeprom_address get_data_size), h')

  unfoldable pub save_value : EepromHandler → Option (List ℕ) → Bool × EepromHandler
  save_value h none = (false, h)
  save_value h (some value) = write_record h value

  unfoldable pub save_to : EepromHandler → Option (List ℕ) → Bool × EepromHandler
  unfolding init save_value write_record
  save_to h value =
      let (ready, h') = init h in if not ready then (false, h') else save_value h' value

  -- `load(T*)`, once the EEPROM is ready: what the pointer points to is returned too.
  unfoldable pub load_value :
      EepromHandler → Option (List ℕ) → Bool × Option (List ℕ) × EepromHandler
  unfolding checksum_of of_bytes get_data_size
  load_value h none = (false, none, h)
  load_value h (some old) =
      let r = of_bytes (get h.store eeprom_address get_data_size) in
      if r.crc == checksum_of r then (true, some r.payload, h) else (false, some old, h)

  unfoldable pub load_to : EepromHandler → Option (List ℕ) → Bool × Option (List ℕ) × EepromHandler
  unfolding init load_value
  load_to h target =
      let (ready, h') = init h in if not ready then (false, target, h') else load_value h' target

  -- `save()` and `load()`, on the object's own pointer.
  abbrev is_null : Option (List ℕ) → Bool
  is_null none = true
  is_null (some x) = false

  unfoldable pub save : EepromHandler → Bool × EepromHandler
  unfolding save_to
  save h = if is_null h.pointee then (false, h) else save_to h h.pointee

  unfoldable pub load : EepromHandler → Bool × EepromHandler
  unfolding load_to
  load h =
      if is_null h.pointee
      then (false, h)
      else (let (loaded, pointee, h') = load_to h h.pointee in
          (loaded, record h' { pointee = pointee }))
