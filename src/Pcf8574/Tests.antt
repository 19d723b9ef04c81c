-- ===== src/Pcf8574/Tests.antt =====
-- The expander's pins at concrete registers.
use can_systems.Prelude.{◌≡◌, refl, true}
use can_systems.Pcf8574.{Pcf8574, digital_write, write}

abbrev ready : Pcf8574
ready = record { register_value = 0xf1; device_exists = true }

clears_pin : (digital_write true ready 4 0).1.register_value ≡ 0xe1
unfolding digital_write write
clears_pin = refl
