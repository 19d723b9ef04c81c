-- ===== src/Common/Analog/Tests.antt =====
-- The filter at one reading.
use can_systems.Prelude.{◌≡◌, refl}
use can_systems.Common.Analog.{complementary_filter10, complementary_filter}

one_reading : complementary_filter10 1000 500 ≡ 549
unfolding complementary_filter10 complementary_filter
one_reading = refl
