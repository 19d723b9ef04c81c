-- ===== src/PumpControl/Queued.antt =====
-- `IrrigationQueueElement` and `SafetyIrrigationElement` of lib/pumpControl/src/pumpControl.hpp: the
-- bit fields of a queued irrigation.
use can_systems.Prelude.{
  ℕ, ◌+◌, ◌*◌, ◌/◌, ◌%◌, ◌<◌, ◌≡◌, Bool, if◌then◌else◌, arith, bit_and, not, ◌==◌,
}
use can_systems.Prelude.Bits.{bit_and-mask}

pub record Element : Type 0 where
  pub irrigation_info : ℕ
  pub pwm_value : ℕ
  pub repeat_num : ℕ

-- The bit fields of `irrigationInfo`, lowest bits first: 2, 3, 1 and 1 bits.
unfoldable pub channel : Element → ℕ
channel e = e.irrigation_info % 4

unfoldable pub duration : Element → ℕ
duration e = e.irrigation_info / 4 % 8

unfoldable pub check_flow : Element → Bool
check_flow e = not (e.irrigation_info / 32 % 2 == 0)

unfoldable pub check_current : Element → Bool
check_current e = not (e.irrigation_info / 64 % 2 == 0)

abbrev pub no_element : Element
no_element = record { irrigation_info = 0; pwm_value = 0; repeat_num = 0 }

abbrev pub flag : Bool → ℕ
flag b = if b then 1 else 0

-- The constructor from the parts; the padding bit is taken as 0.
unfoldable pub make_element : ℕ → ℕ → Bool → Bool → ℕ → ℕ → Element
make_element ch dur flow current pwm repeats = record {
  irrigation_info = bit_and ch 3 + bit_and dur 7 * 4 + flag flow * 32 + flag current * 64;
  pwm_value = pwm;
  repeat_num = repeats;
}

pub record Safety : Type 0 where
  pub time : ℕ
  pub timer : ℕ
  pub irrigation : Element

abbrev pub no_safety : Safety
no_safety = record { time = 0; timer = 0; irrigation = no_element }

-- An element made of its parts is read back as these: the channel modulo 4, the duration modulo 8,
-- and both flags.
pub make_element-fields :
    (ch dur : ℕ) (flow current : Bool) (pwm repeats : ℕ)
    → let e = make_element ch dur flow current pwm repeats in
      (channel e ≡ ch % 4)
      × (duration e ≡ dur % 8)
      × (check_flow e ≡ flow)
      × (check_current e ≡ current)
      × (e.irrigation_info < 256)
unfolding make_element channel duration check_flow check_current
make_element-fields ch dur flow current pwm repeats =
    ground (arith, bit_and-mask 2 ch, bit_and-mask 3 dur)
