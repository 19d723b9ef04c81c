-- ===== src/Common/Backoff.antt =====
-- class ReconnectBackoff of lib/common/src/reconnectBackoff.hpp: the growing wait between attempts.
use can_systems.Prelude.{
  ℕ, zero, suc, ◌+◌, ◌-◌, ◌^◌, ◌%◌, ◌≤◌, ◌<◌, ◌≡◌, refl, arith, List, [], ◌∷◌, ltb, if◌then◌else◌,
  length, get_or,
}
use can_systems.Common.Time.{sec_to_ms}

unfoldable pub delays_ms : List ℕ
unfolding sec_to_ms
delays_ms =
    sec_to_ms 5
    ∷ sec_to_ms 10
    ∷ sec_to_ms 20
    ∷ sec_to_ms 40
    ∷ sec_to_ms 80
    ∷ sec_to_ms 160
    ∷ sec_to_ms 300
    ∷ []

unfoldable pub step_count : ℕ
step_count = length delays_ms % 2 ^ 8

pub record ReconnectBackoff : Type 0 where
  pub step_index : ℕ

-- Past the ladder the source has no value; the theorems show that it is never read there.
unfoldable pub get_delay_ms : ReconnectBackoff → ℕ
get_delay_ms s = get_or delays_ms s.step_index 0

unfoldable pub get_step_index : ReconnectBackoff → ℕ
get_step_index s = s.step_index

unfoldable pub on_failure : ReconnectBackoff → ReconnectBackoff
on_failure s =
    if ltb (s.step_index + 1) step_count then record s { step_index = s.step_index + 1 } else s

unfoldable pub on_success : ReconnectBackoff → ReconnectBackoff
on_success s = record s { step_index = 0 }

unfoldable pub restore : ReconnectBackoff → ℕ → ReconnectBackoff
restore s index = record s { step_index = if ltb index step_count then index else step_count - 1 }

pub data Event : Type 0 where
  fails succeeds : Event
  restores : ℕ → Event

unfoldable pub step : ReconnectBackoff → Event → ReconnectBackoff
step s Event.fails = on_failure s
step s Event.succeeds = on_success s
step s (Event.restores index) = restore s index

unfoldable pub steps : ReconnectBackoff → List Event → ReconnectBackoff
steps s [] = s
steps s (e ∷ es) = steps (step s e) es

step_count_lem : step_count ≡ 7
unfolding step_count delays_ms
step_count_lem = refl

steps-index :
    (s : ReconnectBackoff) (es : List Event) → s.step_index < 7 → (steps s es).step_index < 7
unfolding steps step on_failure on_success restore
steps-index s [] h = h
steps-index s (Event.fails ∷ es) h = steps-index (on_failure s) es (ground (arith, step_count_lem))
steps-index s (Event.succeeds ∷ es) h = steps-index (on_success s) es (omega arith)
steps-index s (Event.restores index ∷ es) h =
    steps-index (restore s index) es (ground (arith, step_count_lem))

-- The wait grows from rung to rung, up to the last one.
unfoldable Climbs : ℕ → Type 0
Climbs i =
    (5000 ≤ get_or delays_ms i 0)
    × (i < 6 → get_or delays_ms i 0 < get_or delays_ms (i + 1) 0)
    × (i < 6 → get_or delays_ms i 0 < 300000)
    × (i ≡ 6 → get_or delays_ms i 0 ≡ 300000)

delay_at : (i : ℕ) → i < 7 → Climbs i
unfolding Climbs delays_ms sec_to_ms
delay_at zero h = (omega arith, λ k. omega arith, λ k. omega arith, λ k. absurd (omega arith))
delay_at (suc zero) h = (omega arith, λ k. omega arith, λ k. omega arith, λ k. absurd (omega arith))
delay_at (suc (suc zero)) h =
    (omega arith, λ k. omega arith, λ k. omega arith, λ k. absurd (omega arith))
delay_at (suc (suc (suc zero))) h =
    (omega arith, λ k. omega arith, λ k. omega arith, λ k. absurd (omega arith))
delay_at (suc (suc (suc (suc zero)))) h =
    (omega arith, λ k. omega arith, λ k. omega arith, λ k. absurd (omega arith))
delay_at (suc (suc (suc (suc (suc zero))))) h =
    (omega arith, λ k. omega arith, λ k. omega arith, λ k. absurd (omega arith))
delay_at (suc (suc (suc (suc (suc (suc zero)))))) h =
    (omega arith, λ k. omega arith, λ k. omega arith, λ k. refl)
delay_at (suc (suc (suc (suc (suc (suc (suc i))))))) h = absurd (omega arith)

first_delay : get_or delays_ms 0 0 ≡ 5000
unfolding delays_ms sec_to_ms
first_delay = refl

-- Whatever happens, with any byte restored from the store, the wait stays on the ladder, between 5 and
-- 300 seconds; a failed attempt makes it longer as long as it is below the top, where it stays, and a
-- success sets it to 5 seconds.
pub delay_bounds :
    (s : ReconnectBackoff) (es : List Event)
    → s.step_index < 7
    → let s' = steps s es in
      (5000 ≤ get_delay_ms s')
      × (get_delay_ms s' ≤ 300000)
      × (get_delay_ms s' < 300000 → get_delay_ms s' < get_delay_ms (on_failure s'))
      × (get_delay_ms s' ≡ 300000 → get_delay_ms (on_failure s') ≡ 300000)
      × (get_delay_ms (on_success s') ≡ 5000)
unfolding get_delay_ms on_failure on_success Climbs
delay_bounds s es h =
    let i = (steps s es).step_index in
    let in_range = steps-index s es h in
    let here = delay_at i in_range in
    (
      here.0,
      ground (arith, here),
      (λ k. ground (arith, here, step_count_lem)),
      (λ k. ground (arith, here, step_count_lem)),
      first_delay,
    )
