-- ===== src/Common/Time.antt =====
-- class Time of lib/common/src/common.hpp: unit conversions, and elapsed time on a 32-bit
-- millisecond clock that wraps.
use can_systems.Prelude.{ℕ, ◌+◌, ◌-◌, ◌*◌, ◌%◌, ◌^◌, ◌≤◌, ◌<◌, ◌≡◌, ◌↔◌, Bool, true, arith, ltb}

-- The clock's values: `uint32_t`.
abbrev pub clock_mod : ℕ
clock_mod = 2 ^ 32

unfoldable pub hr_to_ms : ℕ → ℕ
hr_to_ms hour = hour * 60 * 60 * 1000 % clock_mod

unfoldable pub min_to_ms : ℕ → ℕ
min_to_ms minute = minute * 60 * 1000 % clock_mod

unfoldable pub sec_to_ms : ℕ → ℕ
sec_to_ms second = second * 1000 % clock_mod

unfoldable pub hr_to_min : ℕ → ℕ
hr_to_min hour = hour * 60 % clock_mod

unfoldable pub ms_to_us : ℕ → ℕ
ms_to_us ms = ms * 1000 % clock_mod

-- `currentTime - eventTimer`, unsigned.
unfoldable pub elapsed_since : ℕ → ℕ → ℕ
elapsed_since current event = (current + clock_mod - event) % clock_mod

unfoldable pub has_elapsed : ℕ → ℕ → ℕ → Bool
unfolding elapsed_since
has_elapsed current event duration = ltb duration (elapsed_since current event)

-- For an event at the true time `t0` and a reading at `t1`, less than one turn of the clock later,
-- the wrapped timestamps give the true distance, and the test `has_elapsed` for `duration` holds
-- exactly when strictly more than `duration` has passed.
pub has_elapsed-across_wrap :
    (t0 t1 duration : ℕ)
    → t0 ≤ t1
    → t1 < t0 + clock_mod
    → (elapsed_since (t1 % clock_mod) (t0 % clock_mod) ≡ t1 - t0)
      × ((has_elapsed (t1 % clock_mod) (t0 % clock_mod) duration ≡ true) ↔ (duration < t1 - t0))
unfolding has_elapsed
has_elapsed-across_wrap t0 t1 duration p q = (exact, test)
  where
    exact : elapsed_since (t1 % clock_mod) (t0 % clock_mod) ≡ t1 - t0
    exact = omega arith

    test : (has_elapsed (t1 % clock_mod) (t0 % clock_mod) duration ≡ true) ↔ (duration < t1 - t0)
    test = ground (arith, exact)

pub elapsed_since-lt : (current event : ℕ) → elapsed_since current event < clock_mod
unfolding elapsed_since
elapsed_since-lt current event = omega arith

-- A 16-bit count of minutes or seconds fits the 32-bit milliseconds.
pub min_to_ms-exact : (m : ℕ) → m < 2 ^ 16 → min_to_ms m ≡ m * 60000
unfolding min_to_ms
min_to_ms-exact m h = omega arith
