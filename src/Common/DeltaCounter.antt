-- ===== src/Common/DeltaCounter.antt =====
-- class DeltaCounter of lib/common/src/deltaCounter.hpp: the growth of a counter that wraps.
use can_systems.Prelude.{ℕ, ◌+◌, ◌-◌, ◌%◌, ◌^◌, ◌<◌, ◌≡◌, refl, arith, List, [], ◌∷◌, All, ap₂}

pub record DeltaCounter : Type 0 where
  pub last_seen : ℕ

-- `current - lastSeen` in `uint32_t`.
unfoldable pub take_growth : DeltaCounter → ℕ → ℕ × DeltaCounter
take_growth s current =
    ((current + 2 ^ 32 - s.last_seen) % 2 ^ 32, record s { last_seen = current })

-- What a reader is told of a counter, which stands at `total` and then grows by each of `growths` in
-- turn; the counter itself wraps.
unfoldable pub watch : DeltaCounter → ℕ → List ℕ → List ℕ
watch s total [] = []
watch s total (g ∷ gs) =
    let (growth, s') = take_growth s ((total + g) % 2 ^ 32) in growth ∷ watch s' (total + g) gs

-- A reader that has seen the counter at its present value is told exactly how much it grows between
-- looks, each time by less than 2^32, however often it wraps.
pub watch-exact :
    (s : DeltaCounter) (total : ℕ) (growths : List ℕ)
    → s.last_seen ≡ total % 2 ^ 32
    → All (λ g. g < 2 ^ 32) growths
    → watch s total growths ≡ growths
unfolding watch take_growth
watch-exact s total [] h k = refl
watch-exact s total (g ∷ gs) h k =
    ap₂ (λ x xs. x ∷ xs) (omega (arith, k.0))
      (watch-exact (take_growth s ((total + g) % 2 ^ 32)).1 (total + g) gs refl k.1)
