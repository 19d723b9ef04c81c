-- ===== src/PumpControl.antt =====
-- class PumpControl of lib/pumpControl/src: the irrigation state machine of one node.
pub mod Queued
pub mod State
pub mod Safe
pub mod Stopping
mod Tests
use can_systems.Prelude.{
  ℕ, zero, suc, ◌+◌, ◌-◌, ◌*◌, ◌/◌, ◌%◌, ◌^◌, Bool, true, false, not, ◌&&◌, ◌||◌, List, [], ◌∷◌,
  ltb, leb, ◌==◌, if◌then◌else◌, Option, none, some, get_or, set, map, bit_and, bit_or, replicate,
}
use can_systems.Prelude.Int.{ℤ, pos, negsuc, ◌+ℤ◌, sub_ℕ, to_int16, abs, pos_part, neg_part}
use can_systems.Common.Time.{has_elapsed, min_to_ms, sec_to_ms, elapsed_since}
use can_systems.Common.Analog.{complementary_filter10}
use can_systems.Common.ErrorState.{ErrorState, set_error, get_raw_error_state, clear_all_errors}
use can_systems.CircularBuffer
use can_systems.CircularBuffer.{CircularBuffer}
use can_systems.Pcf8574
use can_systems.Pcf8574.{Pcf8574}
use Queued.{
  Element, channel, duration, check_flow, check_current, no_element, make_element, Safety,
  no_safety,
}
pub use State.{IrrigationState, PumpControlError, error_bit}

abbrev pub channel_count : ℕ
channel_count = 4

abbrev pub max_allowed_standby_current : ℕ
max_allowed_standby_current = 100

abbrev pub max_allowed_current : ℕ
max_allowed_current = 1000

unfoldable pub error_check_time : ℕ
unfolding sec_to_ms
error_check_time = sec_to_ms 1

-- What a pass finds outside: the clock, the current sensor's reading, whether the port expander
-- answers, and whether the limit switch behind a registered function is reached.
pub record Env : Type 0 where
  pub now : ℕ
  pub adc : ℕ
  pub ack : Bool
  pub reached : ℕ → Bool

-- The object's state, with the static `flowCounter`; `pwm` is what was last put on the pump's pin,
-- `led` whether the LED shows a colour, `reported` what the callback was given, newest first.
pub record PumpControl : Type 0 where
  pub pcf : Pcf8574
  pub flow_counter : ℕ
  pub prev_flow_counter : ℕ
  pub irrigation_queue : CircularBuffer Element
  pub irrigation_state : IrrigationState
  pub analog_value : ℕ
  pub event_timer : ℕ
  pub error_check_timer : ℕ
  pub error_state : ErrorState
  pub has_report : Bool
  pub limit_switches : List (Option ℕ)
  pub calibration_value : ℤ
  pub safety_irrigation : List Safety
  pub pwm : ℕ
  pub led : Bool
  pub reported : List ℕ

-- The constructor; `init` then sets the event timer.
unfoldable pub new : Pcf8574 → Bool → PumpControl
new pcf has_report = record {
  pcf = pcf;
  flow_counter = 0;
  prev_flow_counter = 0;
  irrigation_queue = CircularBuffer.init no_element channel_count;
  irrigation_state = IrrigationState.calibration;
  analog_value = 0;
  event_timer = 0;
  error_check_timer = 0;
  error_state = record { error_state = 0 };
  has_report = has_report;
  limit_switches = replicate channel_count none;
  calibration_value = pos 0;
  safety_irrigation = replicate channel_count no_safety;
  pwm = 0;
  led = false;
  reported = [];
}

unfoldable pub init : ℕ → PumpControl → PumpControl
init now s = record s { event_timer = now }

unfoldable pub irq_handler : PumpControl → PumpControl
irq_handler s = record s { flow_counter = (s.flow_counter + 1) % 2 ^ 16 }

-- In mA, by C++'s division towards zero, cast to `int16_t`.
unfoldable pub calculate_current : PumpControl → ℤ
calculate_current s =
    let voltage = s.analog_value * 5000 / 1024 in
    to_int16 (
      if leb 2500 voltage
      then pos ((voltage - 2500) * 1000 / 185)
      else sub_ℕ 0 ((2500 - voltage) * 1000 / 185))

unfoldable pub get_positive_current : PumpControl → ℕ
get_positive_current s = pos_part (calculate_current s)

-- `setError`.
abbrev pub raise : PumpControl → PumpControlError → PumpControl
raise s e = record s { error_state = set_error s.error_state (error_bit e) }

-- `setError` and the ERROR state.
abbrev pub fail : PumpControl → PumpControlError → PumpControl
fail s e = record s {
  error_state = set_error s.error_state (error_bit e);
  irrigation_state = IrrigationState.error;
}

unfoldable pub create_irrigation : PumpControl → Element → PumpControl
create_irrigation s e =
    if not (CircularBuffer.is_full s.irrigation_queue)
    then record s { irrigation_queue = CircularBuffer.put s.irrigation_queue e }
    else raise s PumpControlError.queue_full

abbrev pub front : PumpControl → Element
front s = CircularBuffer.peek no_element s.irrigation_queue

abbrev pub queue_empty : PumpControl → Bool
queue_empty s = CircularBuffer.is_empty s.irrigation_queue

unfoldable pub select_channel : Bool → PumpControl → ℕ → Bool × PumpControl
select_channel ack s ch =
    let reg = bit_or (bit_and s.pcf.register_value 0xf0) (2 ^ ch) in
    let (done, pcf) = Pcf8574.write ack s.pcf reg in (done, record s { pcf = pcf })

-- An element that is overdue is offered a place in the queue.
unfoldable pub offer_safety : ℕ → PumpControl → Safety → PumpControl
offer_safety now s e =
    if ltb 0 e.time && has_elapsed now e.timer (min_to_ms e.time)
    then create_irrigation s e.irrigation
    else s

-- All of them, in the order of their channels.
unfoldable pub check_safety_from : ℕ → List Safety → PumpControl → PumpControl
check_safety_from now [] s = s
check_safety_from now (e ∷ es) s = check_safety_from now es (offer_safety now s e)

unfoldable pub check_safety_irrigations : ℕ → PumpControl → PumpControl
check_safety_irrigations now s = check_safety_from now s.safety_irrigation s

unfoldable pub reset_safety_irrigation_timer : ℕ → PumpControl → ℕ → PumpControl
reset_safety_irrigation_timer now s ch = record s {
  safety_irrigation =
      set s.safety_irrigation ch (record (get_or s.safety_irrigation ch no_safety) { timer = now });
}

-- The two halves of `handleIdle`: the queued irrigation is started, or the idle pump is watched.
unfoldable pub start_irrigation : Env → PumpControl → PumpControl
start_irrigation env s =
    let (selected, s') = select_channel env.ack s (channel (front s)) in
    if selected
    then (let s'' = record s' {
      pwm = (front s).pwm_value;
      event_timer = env.now;
      error_check_timer = env.now;
      flow_counter = 0;
      prev_flow_counter = 0;
      led = true;
      irrigation_state = IrrigationState.run;
    } in
        reset_safety_irrigation_timer env.now s'' (channel (front s)))
    else fail s' PumpControlError.ch_select

unfoldable pub watch_idle : Env → PumpControl → PumpControl
watch_idle env s =
    let s1 = check_safety_irrigations env.now s in
    let s2 = if ltb 0 s1.flow_counter then fail s1 PumpControlError.flow_overrun else s1 in
    if ltb max_allowed_standby_current (get_positive_current s2)
    then fail s2 PumpControlError.pump_overrun
    else s2

unfoldable pub report_errors : PumpControl → PumpControl
report_errors s =
    if ltb 0 (get_raw_error_state s.error_state) && s.has_report
    then record s {
      reported = get_raw_error_state s.error_state ∷ s.reported;
      error_state = clear_all_errors s.error_state;
    }
    else s

unfoldable pub handle_idle : Env → PumpControl → PumpControl
handle_idle env s =
    report_errors (if not (queue_empty s) then start_irrigation env s else watch_idle env s)

unfoldable pub limit_switch_reached : Env → PumpControl → Bool
limit_switch_reached env s = elim (get_or s.limit_switches (channel (front s)) none) [
  | none ↦ false
  | some switch ↦ env.reached switch
]

unfoldable pub check_flow_meter : PumpControl → PumpControl
check_flow_meter s =
    if check_flow (front s)
    then (if ltb s.prev_flow_counter s.flow_counter
        then record s { prev_flow_counter = s.flow_counter }
        else fail s PumpControlError.flow_stuck)
    else s

unfoldable pub check_pump_current : PumpControl → PumpControl
check_pump_current s =
    if check_current (front s)
    then (let s' =
          if ltb (get_positive_current s) max_allowed_standby_current
          then fail s PumpControlError.pump_uc
          else s in
        if ltb max_allowed_current (get_positive_current s)
        then fail s' PumpControlError.pump_oc
        else s')
    else s

unfoldable pub handle_run : Env → PumpControl → PumpControl
handle_run env s =
    if has_elapsed env.now s.event_timer (min_to_ms (duration (front s)))
      || limit_switch_reached env s
    then record s {
      flow_counter = 0;
      prev_flow_counter = 0;
      irrigation_state = IrrigationState.stop;
    }
    else (if has_elapsed env.now s.error_check_timer error_check_time
        then check_pump_current (check_flow_meter (record s { error_check_timer = env.now }))
        else s)

abbrev pub pump_off : PumpControl → PumpControl
pump_off s = record s { pwm = 0; led = false }

-- The repeat of a finished irrigation.
unfoldable pub requeue : ℕ → PumpControl → Element → PumpControl
requeue now s e =
    if ltb 0 e.repeat_num
    then check_safety_irrigations now
        (create_irrigation s (record e { repeat_num = e.repeat_num - 1 }))
    else s

unfoldable pub handle_stop : Env → PumpControl → PumpControl
handle_stop env s =
    let (actual, queue) = CircularBuffer.pop no_element s.irrigation_queue in
    let s' = requeue env.now (record s { irrigation_queue = queue }) actual in
    let s'' =
      if queue_empty s'
      then pump_off s'
      else (if not (channel actual == channel (front s')) then pump_off s' else s') in
    record s'' { irrigation_state = IrrigationState.idle }

unfoldable pub handle_error : PumpControl → PumpControl
handle_error s = record s {
  pwm = 0;
  led = false;
  irrigation_queue =
      if not (queue_empty s)
      then (CircularBuffer.pop no_element s.irrigation_queue).1
      else s.irrigation_queue;
  irrigation_state = IrrigationState.idle;
}

-- `static_cast<int16_t>(511 - static_cast<int16_t>(analogValue))`.
abbrev pub calibration_of : ℕ → ℤ
calibration_of analog =
    to_int16 (sub_ℕ (511 + neg_part (to_int16 (pos analog))) (pos_part (to_int16 (pos analog))))

unfoldable pub handle_calibration : Env → PumpControl → PumpControl
handle_calibration env s =
    if has_elapsed env.now s.event_timer (sec_to_ms 5)
    then record s {
      calibration_value =
          if ltb (abs (calibration_of s.analog_value)) 20
          then calibration_of s.analog_value
          else s.calibration_value;
      irrigation_state = IrrigationState.idle;
    }
    else s

-- The filtered reading that every pass begins with.
unfoldable pub read_current : Env → PumpControl → PumpControl
read_current env s = record s {
  analog_value =
      complementary_filter10 (pos_part (to_int16 (pos env.adc +ℤ s.calibration_value)))
        s.analog_value;
}

unfoldable pub handle : IrrigationState → Env → PumpControl → PumpControl
handle IrrigationState.idle env s = handle_idle env s
handle IrrigationState.run env s = handle_run env s
handle IrrigationState.stop env s = handle_stop env s
handle IrrigationState.error env s = handle_error s
handle IrrigationState.calibration env s = handle_calibration env s

unfoldable pub run : Env → PumpControl → PumpControl
run env s = let s' = read_current env s in handle s'.irrigation_state env s'

unfoldable pub add_limit_switch : PumpControl → ℕ → ℕ → PumpControl
add_limit_switch s ch switch = record s {
  limit_switches = set s.limit_switches (bit_and ch 3) (some switch);
}

-- `millis() - minToMs(duration)`, in 32 bits.
unfoldable pub skip_actual_irrigation : ℕ → PumpControl → PumpControl
skip_actual_irrigation now s = elim s.irrigation_state [
  | IrrigationState.run ↦ record s {
    event_timer = elapsed_since now (min_to_ms (duration (front s)));
  }
  | _ ↦ s
]

abbrev pub restart_timer : ℕ → Safety → Safety
restart_timer now e = record e { timer = now }

unfoldable pub skip_all_irrigations : ℕ → PumpControl → PumpControl
skip_all_irrigations now s = record s {
  irrigation_queue = CircularBuffer.clear s.irrigation_queue;
  safety_irrigation = map (restart_timer now) s.safety_irrigation;
  irrigation_state = IrrigationState.error;
}

unfoldable pub add_safety_irrigation :
    ℕ → PumpControl → ℕ → ℕ → ℕ → Bool → Bool → ℕ → ℕ → PumpControl
add_safety_irrigation now s time ch dur flow current pwm repeats = record s {
  safety_irrigation = set s.safety_irrigation (bit_and ch 3) (record {
    time = time;
    timer = now;
    irrigation = make_element (bit_and ch 3) dur flow current pwm repeats;
  });
}

-- The two other overloads of `createIrrigation`.
unfoldable pub create_irrigation_info : PumpControl → ℕ → ℕ → ℕ → PumpControl
unfolding create_irrigation
create_irrigation_info s info pwm repeats =
    create_irrigation s (record { irrigation_info = info; pwm_value = pwm; repeat_num = repeats })

unfoldable pub create_irrigation_parts : PumpControl → ℕ → ℕ → Bool → Bool → ℕ → ℕ → PumpControl
unfolding create_irrigation
create_irrigation_parts s ch dur flow current pwm repeats =
    create_irrigation s (make_element ch dur flow current pwm repeats)
