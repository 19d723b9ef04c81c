-- ===== src/PumpControl/Tests.antt =====
-- The controller in concrete states.
use can_systems.Prelude.{◌≡◌, true, false, List, [], ◌∷◌, arith, replicate, none}
use can_systems.Prelude.Int.{pos}
use can_systems.CircularBuffer
use can_systems.PumpControl.Queued.{Element, no_element, no_safety}
use can_systems.PumpControl.State.{IrrigationState}
use can_systems.PumpControl.{PumpControl, Env, run, skip_all_irrigations, queue_empty}
use can_systems.PumpControl.Safe.{Call, IsSafe, steps, steps-IsSafe}
use can_systems.PumpControl.Stopping.{skip_all_stops}

abbrev watering : Element
watering = record { irrigation_info = 4; pwm_value = 200; repeat_num = 1 }

-- One irrigation of a minute on channel 0 is under way.
abbrev running : PumpControl
running = record {
  pcf = record { register_value = 1; device_exists = true };
  flow_counter = 0;
  prev_flow_counter = 0;
  irrigation_queue = record {
    buff_size = 4;
    buffer = watering ∷ no_element ∷ no_element ∷ no_element ∷ [];
    head = 1;
    tail = 0;
    full = false;
  };
  irrigation_state = IrrigationState.run;
  analog_value = 511;
  event_timer = 0;
  error_check_timer = 0;
  error_state = record { error_state = 0 };
  has_report = true;
  limit_switches = replicate 4 none;
  calibration_value = pos 0;
  safety_irrigation = replicate 4 no_safety;
  pwm = 200;
  led = true;
  reported = [];
}

abbrev later : Env
later = record { now = 70000; adc = 511; ack = true; reached = λ n. false }

running-IsSafe : IsSafe running
unfolding CircularBuffer.is_empty
running-IsSafe = ground arith

-- The minute passes, the irrigation is queued again, and an emergency stop empties the queue.
abbrev calls : List Call
calls =
    Call.runs later
    ∷ Call.runs later
    ∷ Call.flows
    ∷ Call.creates watering
    ∷ Call.skips_all 70001
    ∷ Call.runs later
    ∷ []

steps-IsSafe_example : IsSafe (steps running calls)
steps-IsSafe_example = steps-IsSafe running calls running-IsSafe

skip_all_stops_example :
    ((run later (skip_all_irrigations 69000 running)).pwm ≡ 0)
    × ((run later (skip_all_irrigations 69000 running)).led ≡ false)
    × ((run later (skip_all_irrigations 69000 running)).irrigation_state ≡ IrrigationState.idle)
    × (queue_empty (run later (skip_all_irrigations 69000 running)) ≡ true)
skip_all_stops_example = skip_all_stops 69000 later running
