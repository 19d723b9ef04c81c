-- ===== src/EepromHandler/Kept.antt =====
-- What is saved is loaded, and what has been damaged is not.
use can_systems.Prelude.{ℕ, ◌<◌, ◌≡◌, ◌≢◌, sym, ap, ◌∙◌, arith, true, false, List, ◌∷◌, ◌++◌, some}
use can_systems.FlashOta.SameBytes.{same_bytes_eq}
use can_systems.EepromHandler.Driver.{Eeprom}
use can_systems.EepromHandler.{
  EepromData, EepromHandler, bytes_of, of_bytes, checksum_of, init, write_record, save_value,
  save_to, load_value, load_to, get_data_size,
}
use can_systems.EepromHandler.Record.{
  checksum_of-lt, checksum_of_lem, of_bytes-bytes_of, Sealed, Sealed-changed_byte,
}

-- The record of a value.
abbrev pub sealed_record : List ℕ → EepromData
sealed_record value = record {
  crc = checksum_of (record { crc = 0; payload = value });
  payload = value;
}

sealed_record-Sealed : (value : List ℕ) → Sealed (sealed_record value)
sealed_record-Sealed value =
    checksum_of_lem (record { crc = 0; payload = value })
    ∙ sym (checksum_of_lem (sealed_record value))

module _ (e : Eeprom) (address size : ℕ) where
  -- What the store holds at the address.
  abbrev pub held : EepromHandler e address size → List ℕ
  held h = e.get h.store address (get_data_size e address size)

  init-ready :
      (h : EepromHandler e address size)
      → (init e address size h).0 ≡ true
      → (init e address size h).1.eeprom_initialised ≡ true
  unfolding init
  init-ready h ready = ground arith

  save_to-held :
      (h : EepromHandler e address size) (value : List ℕ)
      → let (saved, h') = save_to e address size h (some value) in
        (saved ≡ true → (h'.eeprom_initialised ≡ true) × (bytes_of (sealed_record value) ≡ held h'))
  unfolding save_to save_value write_record
  save_to-held h value saved =
      let r = sealed_record value in
      let put_in = e.commit (e.put (init e address size h).1.store address (bytes_of r)) in
      ground (
        arith,
        init-ready h,
        same_bytes_eq (bytes_of r) (e.get put_in.1 address (get_data_size e address size)),
      )

  load_to-ready :
      (h : EepromHandler e address size) (old : List ℕ)
      → h.eeprom_initialised ≡ true
      → load_to e address size h (some old) ≡ load_value e address size h (some old)
  unfolding load_to init
  load_to-ready h old ready = ground arith

  -- A save that succeeds has stored the value: any number of loads that follow, into whatever was there
  -- before, succeed and give it back, and leave the store as it is.
  pub load_to-save_to :
      (h : EepromHandler e address size) (value old : List ℕ)
      → (save_to e address size h (some value)).0 ≡ true
      → let h' = (save_to e address size h (some value)).1 in
        load_to e address size h' (some old) ≡ (true, some value, h')
  unfolding load_value
  load_to-save_to h value old saved =
      let h' = (save_to e address size h (some value)).1 in
      let (ready, same) = save_to-held h value saved in
      let whole : of_bytes (held h') ≡ sealed_record value =
        ap of_bytes (sym same)
        ∙ of_bytes-bytes_of (sealed_record value)
            (checksum_of-lt (record { crc = 0; payload = value })) in
      load_to-ready h' old ready ∙ ground (arith, whole, sealed_record-Sealed value)

  -- If exactly one byte of what a successful save has stored is another one when it is read, whether of
  -- the value or of its checksum, the load fails, and what was there before stays. The stored bytes are
  -- bytes.
  pub load_to-damaged :
      (h h' : EepromHandler e address size) (value old pre post : List ℕ) (x y : ℕ)
      → h'.eeprom_initialised ≡ true
      → (save_to e address size h (some value)).0 ≡ true
      → held (save_to e address size h (some value)).1 ≡ pre ++ x ∷ post
      → held h' ≡ pre ++ y ∷ post
      → x < 256
      → y < 256
      → x ≢ y
      → load_to e address size h' (some old) ≡ (false, some old, h')
  unfolding load_value
  load_to-damaged h h' value old pre post x y ready saved was is hx hy ne =
      let (_, same) = save_to-held h value saved in
      let broken =
        Sealed-changed_byte (sealed_record value) pre post x y (sealed_record-Sealed value)
          (same ∙ was) hx hy ne in
      load_to-ready h' old ready ∙ ground (arith, ap of_bytes is, broken)
