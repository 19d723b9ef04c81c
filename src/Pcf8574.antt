-- ===== src/Pcf8574.antt =====
-- lib/pcf8574/src: the I2C port expander. Whether the device answers on the bus is an argument of each
-- call, and so is the byte that it sends.
mod Tests
use can_systems.Prelude.{
  ℕ, ◌-◌, ◌/◌, ◌*◌, ◌%◌, ◌^◌, ◌<◌, ◌≡◌, ◌≢◌, Bool, true, false, not, ◌&&◌, ◌||◌, ltb, ◌==◌,
  if◌then◌else◌, bit_and, bit_or, bit_xor, refl, arith, ◌≤◌, sym, ap, ◌∙◌, Option, some, none,
}
use can_systems.Prelude.Bits.{bit, bit-bit_or, bit-bit_and, bit-pow, bit-complement, two-pow-lt}

pub record Pcf8574 : Type 0 where
  pub register_value : ℕ
  pub device_exists : Bool

unfoldable pub new : Pcf8574
new = record { register_value = 0xff; device_exists = false }

unfoldable pub init : Bool → Pcf8574 → Bool × Pcf8574
init ack p = (ack, record p { device_exists = ack })

-- `write`: the register follows what the device has taken.
unfoldable pub write : Bool → Pcf8574 → ℕ → Bool × Pcf8574
write ack p reg =
    if not p.device_exists
    then (false, p)
    else (ack, if ack then record p { register_value = reg } else p)

-- `read`: `none` when the device did not answer.
unfoldable pub read : Option ℕ → Pcf8574 → Option ℕ
read answer p = if not p.device_exists then none else answer

unfoldable pub digital_write : Bool → Pcf8574 → ℕ → ℕ → Bool × Pcf8574
digital_write ack p pin pin_state =
    if ltb 7 pin
    then (false, p)
    else (let p' = record p {
      register_value =
          if ltb 0 pin_state
          then bit_or p.register_value (2 ^ pin)
          else bit_and p.register_value (2 ^ 8 - 1 - 2 ^ pin);
    } in
        write ack p' p'.register_value)

unfoldable pub set_as_input : Bool → Pcf8574 → ℕ → Bool × Pcf8574
unfolding digital_write
set_as_input ack p pin = digital_write ack p pin 1

unfoldable pub digital_read : Option ℕ → Pcf8574 → ℕ → ℕ
unfolding read
digital_read answer p pin = elim (read answer p) [
  | none ↦ 255
  | some value ↦ if ltb 7 pin then 255 else (if not (bit_and value (2 ^ pin) == 0) then 1 else 0)
]

unfoldable pub toggle_state : Bool → Pcf8574 → ℕ → Bool × Pcf8574
unfolding write
toggle_state ack p pin =
    if ltb 7 pin
    then (false, p)
    else (let p' = record p { register_value = bit_xor p.register_value (2 ^ pin) } in
        write ack p' p'.register_value)

-- The bits of the register with one pin set or cleared.
set_pin-bit :
    (reg pin state other : ℕ)
    → pin < 8
    → other < 8
    → bit (if ltb 0 state then bit_or reg (2 ^ pin) else bit_and reg (2 ^ 8 - 1 - 2 ^ pin)) other
      ≡ (if other == pin then (if ltb 0 state then 1 else 0) else bit reg other)
set_pin-bit reg pin state other h k = ground (
  arith,
  bit-bit_or other reg (2 ^ pin),
  bit-bit_and other reg (2 ^ 8 - 1 - 2 ^ pin),
  bit-complement 8 other (2 ^ pin) (two-pow-lt pin 8 h) k,
  bit-pow pin other,
)

digital_write-register :
    (ack : Bool) (p : Pcf8574) (pin state : ℕ)
    → pin < 8
    → (digital_write ack p pin state).1.register_value ≡ (
        if ltb 0 state
        then bit_or p.register_value (2 ^ pin)
        else bit_and p.register_value (2 ^ 8 - 1 - 2 ^ pin))
unfolding digital_write write
digital_write-register ack p pin state h = ground arith

-- Writing one of the eight pins sets that pin's bit of the register to the given state and leaves the
-- bit of every other pin; the call reports success exactly when the device exists and answers.
pub digital_write-bits :
    (ack : Bool) (p : Pcf8574) (pin state other : ℕ)
    → pin < 8
    → other < 8
    → let (done, p') = digital_write ack p pin state in
      (bit p'.register_value pin ≡ (if ltb 0 state then 1 else 0))
      × (other ≢ pin → bit p'.register_value other ≡ bit p.register_value other)
      × (done ≡ (p.device_exists && ack))
unfolding digital_write write
digital_write-bits ack p pin state other h k = (
  rw (digital_write-register ack p pin state h)
      (ground (arith, set_pin-bit p.register_value pin state pin h h)),
  λ ne.
      rw (digital_write-register ack p pin state h)
        (ground (arith, set_pin-bit p.register_value pin state other h k)),
  ground arith,
)
