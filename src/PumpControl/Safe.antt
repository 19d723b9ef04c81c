-- ===== src/PumpControl/Safe.antt =====
-- The pump is never left running with nothing queued: an invariant of every call.
use can_systems.Prelude.{ℕ, ◌≡◌, refl, arith, Bool, true, false, List, [], ◌∷◌}
use can_systems.CircularBuffer
use can_systems.CircularBuffer.{CircularBuffer}
use can_systems.PumpControl.Queued.{Element, Safety}
use can_systems.Pcf8574.{Pcf8574}
use can_systems.PumpControl.State.{IrrigationState}
use can_systems.PumpControl.{
  PumpControl, new, init, Env, run, handle, handle_idle, handle_run, handle_stop, handle_error,
  handle_calibration, start_irrigation, watch_idle, report_errors, check_safety_irrigations,
  check_safety_from, offer_safety, create_irrigation, read_current, check_flow_meter,
  check_pump_current, queue_empty, select_channel, reset_safety_irrigation_timer,
  skip_all_irrigations, skip_actual_irrigation, create_irrigation_info, create_irrigation_parts,
  add_safety_irrigation, add_limit_switch, irq_handler,
}

-- In RUN and STOP there is an irrigation in the queue; while idle with nothing queued, and during the
-- calibration, the pump is off.
pub record IsSafe (s : PumpControl) : Type 0 where
  pub running : s.irrigation_state ≡ IrrigationState.run → queue_empty s ≡ false
  pub stopping : s.irrigation_state ≡ IrrigationState.stop → queue_empty s ≡ false
  pub idling : s.irrigation_state ≡ IrrigationState.idle → queue_empty s ≡ true → s.pwm ≡ 0
  pub calibrating : s.irrigation_state ≡ IrrigationState.calibration → s.pwm ≡ 0

put-not_empty :
    (q : CircularBuffer Element) (e : Element)
    → CircularBuffer.is_empty (CircularBuffer.put q e) ≡ false
unfolding CircularBuffer.put CircularBuffer.is_empty
put-not_empty q e = ground arith

create_irrigation-IsSafe :
    (s : PumpControl) (e : Element) → IsSafe s → IsSafe (create_irrigation s e)
unfolding create_irrigation
create_irrigation-IsSafe s e v = ground (arith, put-not_empty s.irrigation_queue e)

offer_safety-IsSafe :
    (now : ℕ) (s : PumpControl) (e : Safety) → IsSafe s → IsSafe (offer_safety now s e)
unfolding offer_safety
offer_safety-IsSafe now s e v = ground (arith, create_irrigation-IsSafe s e.irrigation v)

check_safety_from-IsSafe :
    (now : ℕ) (es : List Safety) (s : PumpControl) → IsSafe s → IsSafe (check_safety_from now es s)
unfolding check_safety_from
check_safety_from-IsSafe now [] s v = v
check_safety_from-IsSafe now (e ∷ es) s v =
    check_safety_from-IsSafe now es (offer_safety now s e) (offer_safety-IsSafe now s e v)

check_safety-IsSafe :
    (now : ℕ) (s : PumpControl) → IsSafe s → IsSafe (check_safety_irrigations now s)
unfolding check_safety_irrigations
check_safety-IsSafe now s v = check_safety_from-IsSafe now s.safety_irrigation s v

start_irrigation-IsSafe :
    (env : Env) (s : PumpControl) → queue_empty s ≡ false → IsSafe (start_irrigation env s)
unfolding start_irrigation select_channel reset_safety_irrigation_timer
start_irrigation-IsSafe env s h = ground arith

watch_idle-IsSafe : (env : Env) (s : PumpControl) → IsSafe s → IsSafe (watch_idle env s)
unfolding watch_idle
watch_idle-IsSafe env s v = ground (arith, check_safety-IsSafe env.now s v)

report_errors-IsSafe : (s : PumpControl) → IsSafe s → IsSafe (report_errors s)
unfolding report_errors
report_errors-IsSafe s v = ground arith

handle_idle-IsSafe : (env : Env) (s : PumpControl) → IsSafe s → IsSafe (handle_idle env s)
unfolding handle_idle
handle_idle-IsSafe env s v = ground (
  arith,
  start_irrigation-IsSafe env s,
  watch_idle-IsSafe env s v,
  report_errors-IsSafe (start_irrigation env s),
  report_errors-IsSafe (watch_idle env s),
)

check_flow_meter-IsSafe : (s : PumpControl) → IsSafe s → IsSafe (check_flow_meter s)
unfolding check_flow_meter
check_flow_meter-IsSafe s v = ground arith

check_pump_current-IsSafe : (s : PumpControl) → IsSafe s → IsSafe (check_pump_current s)
unfolding check_pump_current
check_pump_current-IsSafe s v = ground arith

handle_run-IsSafe :
    (env : Env) (s : PumpControl) → queue_empty s ≡ false → IsSafe s → IsSafe (handle_run env s)
unfolding handle_run
handle_run-IsSafe env s h v =
    let armed = record s { error_check_timer = env.now } in
    ground
      (arith, check_flow_meter-IsSafe armed, check_pump_current-IsSafe (check_flow_meter armed))

handle_stop-IsSafe : (env : Env) (s : PumpControl) → IsSafe (handle_stop env s)
unfolding handle_stop
handle_stop-IsSafe env s = ground arith

handle_error-IsSafe : (s : PumpControl) → IsSafe (handle_error s)
unfolding handle_error
handle_error-IsSafe s = ground arith

handle_calibration-IsSafe :
    (env : Env) (s : PumpControl) → s.pwm ≡ 0 → IsSafe s → IsSafe (handle_calibration env s)
unfolding handle_calibration
handle_calibration-IsSafe env s h v = ground arith

read_current-IsSafe : (env : Env) (s : PumpControl) → IsSafe s → IsSafe (read_current env s)
unfolding read_current
read_current-IsSafe env s v = ground arith

handle-IsSafe :
    (st : IrrigationState) (env : Env) (s : PumpControl)
    → s.irrigation_state ≡ st
    → IsSafe s
    → IsSafe (handle st env s)
unfolding handle
handle-IsSafe IrrigationState.idle env s e v = handle_idle-IsSafe env s v
handle-IsSafe IrrigationState.run env s e v = handle_run-IsSafe env s (v.running e) v
handle-IsSafe IrrigationState.stop env s e v = handle_stop-IsSafe env s
handle-IsSafe IrrigationState.error env s e v = handle_error-IsSafe s
handle-IsSafe IrrigationState.calibration env s e v =
    handle_calibration-IsSafe env s (v.calibrating e) v

run-IsSafe : (env : Env) (s : PumpControl) → IsSafe s → IsSafe (run env s)
unfolding run
run-IsSafe env s v =
    handle-IsSafe (read_current env s).irrigation_state env (read_current env s) refl
      (read_current-IsSafe env s v)

-- The calls of a client, the interrupt among them.
pub data Call : Type 0 where
  runs : Env → Call
  creates : Element → Call
  creates_info : ℕ → ℕ → ℕ → Call
  creates_parts : ℕ → ℕ → Bool → Bool → ℕ → ℕ → Call
  skips skips_all : ℕ → Call
  adds_safety : ℕ → ℕ → ℕ → ℕ → Bool → Bool → ℕ → ℕ → Call
  adds_switch : ℕ → ℕ → Call
  flows : Call

unfoldable pub step : PumpControl → Call → PumpControl
step s (runs env) = run env s
step s (creates e) = create_irrigation s e
step s (creates_info i p r) = create_irrigation_info s i p r
step s (creates_parts c d f u p r) = create_irrigation_parts s c d f u p r
step s (skips now) = skip_actual_irrigation now s
step s (skips_all now) = skip_all_irrigations now s
step s (adds_safety now t c d f u p r) = add_safety_irrigation now s t c d f u p r
step s (adds_switch c f) = add_limit_switch s c f
step s flows = irq_handler s

unfoldable pub steps : PumpControl → List Call → PumpControl
steps s [] = s
steps s (c ∷ cs) = steps (step s c) cs

step-IsSafe : (s : PumpControl) (c : Call) → IsSafe s → IsSafe (step s c)
unfolding step create_irrigation_info create_irrigation_parts skip_actual_irrigation
    skip_all_irrigations add_safety_irrigation add_limit_switch irq_handler
step-IsSafe s (runs env) v = run-IsSafe env s v
step-IsSafe s (creates e) v = create_irrigation-IsSafe s e v
step-IsSafe s (creates_info i p r) v = create_irrigation-IsSafe s _ v
step-IsSafe s (creates_parts c d f u p r) v = create_irrigation-IsSafe s _ v
step-IsSafe s (skips now) v = ground arith
step-IsSafe s (skips_all now) v = ground arith
step-IsSafe s (adds_safety now t c d f u p r) v = ground arith
step-IsSafe s (adds_switch c f) v = ground arith
step-IsSafe s flows v = ground arith

-- The controller starts in a safe state.
new-IsSafe : (now : ℕ) (pcf : Pcf8574) (has_report : Bool) → IsSafe (init now (new pcf has_report))
unfolding init new
new-IsSafe now pcf has_report = ground arith

-- From a safe state any calls in any order, with any clock, sensor readings
-- and interrupts, lead to a safe state: in RUN and STOP an irrigation is queued, and the pump is off
-- during the calibration and whenever the controller is idle with nothing queued.
pub steps-IsSafe : (s : PumpControl) (cs : List Call) → IsSafe s → IsSafe (steps s cs)
unfolding steps
steps-IsSafe s [] v = v
steps-IsSafe s (c ∷ cs) v = steps-IsSafe (step s c) cs (step-IsSafe s c v)
