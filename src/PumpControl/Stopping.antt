-- ===== src/PumpControl/Stopping.antt =====
-- How an irrigation ends: by its time, by its limit switch, or by the command that skips everything.
use can_systems.Prelude.{ℕ, ◌≡◌, arith, true, false}
use can_systems.CircularBuffer
use can_systems.PumpControl.State.{IrrigationState}
use can_systems.PumpControl.{
  PumpControl, Env, run, handle, handle_error, read_current, queue_empty, skip_all_irrigations,
}

-- Whatever the controller was doing, the pass after `skipAllIrrigations` switches the pump and the
-- LED off and leaves it idle with nothing queued.
pub skip_all_stops :
    (now : ℕ) (env : Env) (s : PumpControl)
    → let s' = run env (skip_all_irrigations now s) in
      (s'.pwm ≡ 0)
      × (s'.led ≡ false)
      × (s'.irrigation_state ≡ IrrigationState.idle)
      × (queue_empty s' ≡ true)
unfolding run handle handle_error read_current skip_all_irrigations CircularBuffer.clear
    CircularBuffer.is_empty
skip_all_stops now env s = ground arith
