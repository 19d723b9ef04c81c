-- ===== src/Common/Analog.antt =====
-- class Analog of lib/common/src/common.hpp: the complementary filter.
mod Tests
use can_systems.Prelude.{ℕ, ◌+◌, ◌-◌, ◌*◌, ◌/◌, ◌%◌, ◌^◌, ◌≤◌, ◌<◌, ◌≡◌, arith, min, max}

-- `255U - alpha` is computed for a `uint8_t` alpha, so it does not wrap.
unfoldable pub complementary_filter : ℕ → ℕ → ℕ → ℕ
complementary_filter alpha new old = (alpha * new + (255 - alpha) * old) / 255 % 2 ^ 16

unfoldable pub complementary_filter10 : ℕ → ℕ → ℕ
unfolding complementary_filter
complementary_filter10 new old = complementary_filter 25 new old

-- For 16-bit readings the filter with weight 25 of 255 stays between the new reading and the old
-- value, falls strictly whenever the reading is below the old value, and rises strictly whenever
-- the reading is at least 11 above it.
pub complementary_filter10_converges :
    (new old : ℕ)
    → new < 2 ^ 16
    → old < 2 ^ 16
    → (min new old ≤ complementary_filter10 new old)
      × (complementary_filter10 new old ≤ max new old)
      × (new < old → complementary_filter10 new old < old)
      × (old + 11 ≤ new → old < complementary_filter10 new old)
unfolding complementary_filter10
complementary_filter10_converges new old p q =
    (omega arith, omega arith, λ h. omega arith, λ h. omega arith)

-- No 16-bit value is lost to the narrowing cast.
pub complementary_filter10-lt : (new old : ℕ) → complementary_filter10 new old < 2 ^ 16
unfolding complementary_filter10
complementary_filter10-lt new old = omega arith
